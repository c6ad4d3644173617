-- ===== src/Tests/Pollers.antt =====
-- A poller with two descriptors, of which one is killed, and a signal.
use dde_seatd.Prelude.{
  ℕ, ◌≡◌, refl, sym, ap, Bool, [], ◌∷◌, none, true, false, ◌==◌, if◌then◌else◌, arith, ok,
}
use dde_seatd.Kernel.{syscall, after_answer}
use dde_seatd.Daemon.{Ptr}
use dde_seatd.Poller.{FdSource, Loop, event_source_fd_update, event_source_signal_destroy}
use dde_seatd.Poller.Polling.{reserve, regenerate, dispatch, poller_poll}
use dde_seatd.Poller.Regenerate.{Counted, Regenerated, regenerate-Regenerated}
use dde_seatd.Poller.Soundness.{update-Sound}
use dde_seatd.Poller.Safety.{Safe, running-ne_failed, poller_poll-Safe}
use dde_seatd.Poller.Dispatching.{dispatch-agree, signal_destroy-disposition}
use dde_seatd.Tests.Scene.{quiet}

abbrev source : Ptr → FdSource
source q = record { fd = 30; mask = 1; killed = if q == 2 then true else false; pollfd_idx = none }

abbrev watching : Loop (Unit {0})
watching = record {
  poller = record {
    signals = 4 ∷ [];
    fds = 3 ∷ 2 ∷ [];
    signal_source = λ q. record { signal = 10; raised = true; killed = false };
    fd_source = source;
    signal_fd_0 = 5;
    signal_fd_1 = 6;
    pollfds = [];
    fd_event_sources = 2;
    dirty = true;
  };
  sys = quiet;
  installed = true;
  program = tt;
}

watching-Counted : Counted watching.poller
watching-Counted = record { distinct = (refl, (refl, tt)); count = omega arith }

watching-Safe : Safe watching
watching-Safe = record {
  sound = record {
    counted = watching-Counted;
    small = omega arith;
    in_range = λ q i e. absurd (ground (arith, e));
  };
  no_failure = running-ne_failed;
}

regenerate-Regenerated_example :
    ((regenerate watching).0 ≡ ok) × Regenerated watching (regenerate watching).1
unfolding reserve syscall after_answer
regenerate-Regenerated_example = regenerate-Regenerated watching watching-Counted refl

-- The program changes what it watches, and a signal arrives while its function runs.
abbrev on_fd : Ptr → ℕ → ℕ → Loop (Unit {0}) → Loop (Unit {0})
on_fd q fd mask l = event_source_fd_update q 5 l

abbrev on_signal : Ptr → ℕ → Loop (Unit {0}) → Loop (Unit {0})
on_signal q signal l = l

poller_poll-Safe_example : Safe (poller_poll 3 on_signal on_fd watching).1
unfolding event_source_fd_update
poller_poll-Safe_example =
    poller_poll-Safe on_signal on_fd (λ q signal l s. s)
      (λ q fd mask l s. record { sound = update-Sound q 5 l s.sound; no_failure = s.no_failure }) 3
      watching watching-Safe

-- Another program, which would do more for a source that is killed.
abbrev on_fd' : Ptr → ℕ → ℕ → Loop (Unit {0}) → Loop (Unit {0})
on_fd' q fd mask l =
    if (l.poller.fd_source q).killed
    then record l { installed = false }
    else event_source_fd_update q 5 l

dispatch-agree_example : dispatch 3 on_signal on_fd watching ≡ dispatch 3 on_signal on_fd' watching
dispatch-agree_example =
    dispatch-agree 3 on_signal on_signal on_fd on_fd' watching (λ q signal l k r. refl)
      λ q fd mask l k. sym (
        ap
          (λ (b : Bool). if b then record l { installed = false } else event_source_fd_update q 5 l)
          k)

signal_destroy-disposition_example : (event_source_signal_destroy 4 watching).sys ≡ quiet
signal_destroy-disposition_example = signal_destroy-disposition 4 watching refl refl
