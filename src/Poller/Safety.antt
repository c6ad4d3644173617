-- ===== src/Poller/Safety.antt =====
-- seatd/poller.c: `poller_poll`, from `regenerate` to the last function that `dispatch` calls.
use dde_seatd.Prelude.{
  ℕ, zero, suc, ◌+◌, ◌-◌, ◌≤◌, ◌<◌, ◌≡◌, ◌≢◌, refl, sym, ap, subst, ◌∙◌, List, [], ◌∷◌, ◌++◌,
  Option, false, ltb, ◌==◌, ◌||◌, not, if◌then◌else◌, length, map, take, drop, length-take,
  length-drop, get_or, replicate, if_ind, Bool_ind, Option_ind, Status_ind, arith, length-append,
  Status, ok,
}
use dde_seatd.Kernel.{
  Call, Sys, Progress, running, failed_assert, out_of_fuel, eintr, stop_at, check, syscall, retry,
  retries, has_bit, pollin, realloc, poll, read,
}
use dde_seatd.Daemon.{Ptr}
use dde_seatd.Poller.{PollFd, Poller, Loop, set_poller, call_kernel, touch}
use dde_seatd.Poller.Polling.{
  no_pollfd, reserve, fill, regenerate, drain, dispatch_signals, dispatch_fd, dispatch_fds,
  dispatch, set_revents, asked, poller_poll,
}
use dde_seatd.Poller.Regenerate.{reserve-Reserved, fill-Regenerated, progress-syscall}
use dde_seatd.Poller.Soundness.{Sound, fill-Sound}

-- The poller is sound, and no assertion has failed.
pub record Safe {W : Type 0} (l : Loop W) : Type 0 where
  pub sound : Sound l.poller
  pub no_failure : l.sys.progress ≢ failed_assert

pub running-ne_failed : running ≢ failed_assert
running-ne_failed e =
    subst (λ (p : Progress). elim p [ running ↦ Unit {0} | failed_assert ↦ ⊥ | out_of_fuel ↦ ⊥ ]) e
      tt

stop-no_failure : (p : Progress) → p ≢ failed_assert → stop_at p out_of_fuel ≢ failed_assert
stop-no_failure running h e =
    subst (λ (p : Progress). elim p [ running ↦ ⊥ | failed_assert ↦ ⊥ | out_of_fuel ↦ Unit {0} ]) e
      tt
stop-no_failure failed_assert h e = h refl
stop-no_failure out_of_fuel h e = h e

retry-no_failure :
    (fuel : ℕ) (c : Call) (s : Sys)
    → s.progress ≢ failed_assert
    → (retry fuel c s).1.progress ≢ failed_assert
unfolding retry
retry-no_failure zero c s h = stop-no_failure s.progress h
retry-no_failure (suc fuel) c s h =
    Option_ind Goal (syscall c s).0
      (λ e.
        Bool_ind Goal ((syscall c s).1.errno == eintr)
          (λ t. retry-no_failure fuel c (syscall c s).1 called) (λ f. called))
      (λ n e. called)
  where
    Goal : Option ℕ × Sys → Type 0
    Goal r = r.1.progress ≢ failed_assert

    called : (syscall c s).1.progress ≢ failed_assert
    called e = h (sym (progress-syscall c s) ∙ e)

-- Fewer or more entries that are there all the same.
Sound-pollfds :
    (p : Poller) (pollfds : List PollFd)
    → length p.pollfds ≤ length pollfds
    → Sound p
    → Sound (record p { pollfds = pollfds })
Sound-pollfds p pollfds h s = record {
  counted = record { distinct = s.counted.distinct; count = s.counted.count };
  small = s.small;
  in_range = λ q i e. omega (arith, h, s.in_range q i e);
}

length-set_revents :
    (revents : ℕ → ℕ) (i : ℕ) (es : List PollFd) → length (set_revents revents i es) ≡ length es
length-set_revents revents i [] = refl
length-set_revents revents i (e ∷ es) = ap suc (length-set_revents revents (i + 1) es)

module _ {W : Type 0} where
  syscall-Safe : (c : Call) (l : Loop W) → Safe l → Safe (call_kernel (syscall c) l).1
  syscall-Safe c l s = record {
    sound = s.sound;
    no_failure = λ e. s.no_failure (sym (progress-syscall c l.sys) ∙ e);
  }

  reserve-Safe : (l : Loop W) → Safe l → Safe (reserve l).1
  unfolding reserve
  reserve-Safe l s =
      if_ind Goal (ltb (length l.poller.pollfds) l.poller.fd_event_sources)
        (λ e.
          Option_ind Goal (syscall (realloc l.poller.fd_event_sources) l.sys).0 (λ n. called)
            λ n r. record {
              sound =
                  Sound-pollfds l.poller _
                    (omega (
                      arith,
                      length-append l.poller.pollfds (
                          replicate (l.poller.fd_event_sources - length l.poller.pollfds)
                            no_pollfd),
                    ))
                    s.sound;
              no_failure = called.no_failure;
            })
        (λ e. s)
    where
      Goal : Status × Loop W → Type 0
      Goal r = Safe r.1

      called : Safe (call_kernel (syscall (realloc l.poller.fd_event_sources)) l).1
      called = syscall-Safe (realloc l.poller.fd_event_sources) l s

  fill-Safe :
      (l : Loop W) → l.poller.fd_event_sources ≤ length l.poller.pollfds → Safe l → Safe (fill l)
  fill-Safe l room s = record {
    sound = fill-Sound l room s.sound;
    no_failure = λ e. s.no_failure (sym (fill-Regenerated l s.sound.counted room).progress ∙ e);
  }

  regenerate-Safe : (l : Loop W) → Safe l → Safe (regenerate l).1
  unfolding regenerate
  regenerate-Safe l s =
      Status_ind (λ (r : Status × Loop W). Safe r.1) (reserve l).0
        (λ o.
          fill-Safe (reserve l).1
            (let grown = reserve-Reserved l o in
              subst (λ (p : Poller). p.fd_event_sources ≤ length (reserve l).1.poller.pollfds)
                (sym grown.same) grown.room)
            (reserve-Safe l s))
        (λ f. reserve-Safe l s)

  drain-Safe : (rounds : ℕ) (l : Loop W) → Safe l → Safe (drain rounds l)
  unfolding drain
  drain-Safe zero l s = record {
    sound = s.sound;
    no_failure = stop-no_failure l.sys.progress s.no_failure;
  }
  drain-Safe (suc rounds) l s =
      Option_ind Safe (syscall (read l.poller.signal_fd_0) l.sys).0 (λ e. called)
        (λ n e. drain-Safe rounds _ called)
    where
      called : Safe (call_kernel (syscall (read l.poller.signal_fd_0)) l).1
      called = syscall-Safe (read l.poller.signal_fd_0) l s

  module _ (on_signal : Ptr → ℕ → Loop W → Loop W) (on_fd : Ptr → ℕ → ℕ → Loop W → Loop W)
      (keeps_signal : (q : Ptr) (signal : ℕ) (l : Loop W) → Safe l → Safe (on_signal q signal l))
      (keeps_fd : (q : Ptr) (fd mask : ℕ) (l : Loop W) → Safe l → Safe (on_fd q fd mask l)) where
    dispatch_signals-Safe :
        (qs : List Ptr) (l : Loop W) → Safe l → Safe (dispatch_signals on_signal qs l)
    unfolding dispatch_signals
    dispatch_signals-Safe [] l s = s
    dispatch_signals-Safe (q ∷ qs) l s = dispatch_signals-Safe qs _ (
        if_ind Safe (not (l.poller.signal_source q).raised || (l.poller.signal_source q).killed)
          (λ e. s)
          λ e.
            let c = keeps_signal q (l.poller.signal_source q).signal l s in
            record {
              sound = record {
                counted = record {
                  distinct = c.sound.counted.distinct;
                  count = c.sound.counted.count;
                };
                small = c.sound.small;
                in_range = c.sound.in_range;
              };
              no_failure = c.no_failure;
            })

    dispatch_fd-Safe :
        (q : Ptr) (idx : ℕ) (l : Loop W)
        → idx < length l.poller.pollfds
        → Safe l
        → Safe (dispatch_fd on_fd q idx l)
    unfolding dispatch_fd check
    dispatch_fd-Safe q idx l h s =
        if_ind Safe ((get_or l.poller.pollfds idx no_pollfd).revents == 0) (λ e. checked)
          (λ e. keeps_fd q _ _ _ checked)
      where
        checked : Safe (touch (check (ltb idx (length l.poller.pollfds))) l)
        checked = record {
          sound = s.sound;
          no_failure =
              if_ind (λ (x : Sys). x.progress ≢ failed_assert) (ltb idx (length l.poller.pollfds))
                (λ e. s.no_failure) (λ e. absurd (ground (arith, h)));
        }

    dispatch_fds-Safe : (qs : List Ptr) (l : Loop W) → Safe l → Safe (dispatch_fds on_fd qs l)
    unfolding dispatch_fds
    dispatch_fds-Safe [] l s = s
    dispatch_fds-Safe (q ∷ qs) l s = dispatch_fds-Safe qs _ (
        Option_ind Safe (l.poller.fd_source q).pollfd_idx (λ e. s)
          λ idx e.
            if_ind Safe (l.poller.fd_source q).killed (λ k. s)
              (λ k. dispatch_fd-Safe q idx l (s.sound.in_range q idx e) s))

    dispatch-Safe : (rounds : ℕ) (l : Loop W) → Safe l → Safe (dispatch rounds on_signal on_fd l)
    unfolding dispatch
    dispatch-Safe rounds l s =
        if_ind (λ l₁. Safe (dispatch_fds on_fd l₁.poller.fds l₁))
          (has_bit (get_or l.poller.pollfds 0 no_pollfd).revents pollin)
          (λ e. dispatch_fds-Safe signalled.poller.fds signalled (
            dispatch_signals-Safe (drain rounds l).poller.signals (drain rounds l)
              (drain-Safe rounds l s)))
          (λ e. dispatch_fds-Safe l.poller.fds l s)
      where
        signalled : Loop W
        signalled = dispatch_signals on_signal (drain rounds l).poller.signals (drain rounds l)

    -- Call a poller safe if its sources are distinct, `fd_event_sources` is one more than the
    -- sources that are not killed, every index lies in the array, and no assertion has failed. If
    -- each function that the poller calls keeps it safe, with whatever source it is called, listed
    -- or not, `poller_poll` keeps it safe: no assertion of `regenerate` or `dispatch` fails,
    -- whatever the kernel answers.
    pub poller_poll-Safe :
        (rounds : ℕ) (l : Loop W) → Safe l → Safe (poller_poll rounds on_signal on_fd l).1
    unfolding poller_poll
    poller_poll-Safe rounds l s =
        Status_ind Goal x.0
          (λ o.
            Option_ind Goal n.0 (λ e. asked_for)
              λ events e. dispatch-Safe rounds _ (record {
                sound =
                    Sound-pollfds n.1.poller written
                      (omega (
                        arith,
                        length-append
                            (set_revents revents 0
                              (take n.1.poller.fd_event_sources n.1.poller.pollfds))
                            (drop n.1.poller.fd_event_sources n.1.poller.pollfds),
                        length-set_revents revents 0
                            (take n.1.poller.fd_event_sources n.1.poller.pollfds),
                        length-take n.1.poller.fd_event_sources n.1.poller.pollfds,
                        length-drop n.1.poller.fd_event_sources n.1.poller.pollfds,
                      ))
                      asked_for.sound;
                no_failure = asked_for.no_failure;
              }))
          (λ f. ready)
      where
        Goal : Status × Loop W → Type 0
        Goal r = Safe r.1

        x : Status × Loop W
        x = if l.poller.dirty then regenerate l else (ok, l)

        ready : Safe x.1
        ready = if_ind Goal l.poller.dirty (λ e. regenerate-Safe l s) (λ e. s)

        clean : Loop W
        clean = set_poller (record x.1.poller { dirty = false }) x.1

        n : Option ℕ × Loop W
        n =
            call_kernel
              (retry retries
                (poll (map asked (take clean.poller.fd_event_sources clean.poller.pollfds))))
              clean

        revents : ℕ → ℕ
        revents = n.1.sys.kernel.revents n.1.sys.trace

        written : List PollFd
        written =
            set_revents revents 0 (take n.1.poller.fd_event_sources n.1.poller.pollfds)
            ++ drop n.1.poller.fd_event_sources n.1.poller.pollfds

        asked_for : Safe n.1
        asked_for = record {
          sound = record {
            counted = record {
              distinct = ready.sound.counted.distinct;
              count = ready.sound.counted.count;
            };
            small = ready.sound.small;
            in_range = ready.sound.in_range;
          };
          no_failure =
              retry-no_failure retries
                (poll (map asked (take clean.poller.fd_event_sources clean.poller.pollfds)))
                clean.sys ready.no_failure;
        }
