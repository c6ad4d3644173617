-- ===== src/Server/Starting.antt =====
-- seatd/server.c: the seat that `server_init` leaves.
use mathlib.Core.Option.{some-injective, none-ne-some}
use dde_seatd.Prelude.{
  fail-ne_ok, ℕ, ◌≡◌, refl, sym, ap, subst, ◌∙◌, List, [], ◌∷◌, Option, none, some, Bool,
  Option_ind, Status_ind, minus_one, zero_int, Status, ok, arith,
}
use dde_seatd.Kernel.{Bytes, Sys, calloc, strdup, syscall}
use dde_seatd.Terminal.{terminal_open}
use dde_seatd.Daemon.{Ptr, Client, client_new, Seat, Daemon, set_sys, event_readable}
use dde_seatd.Client.Handlers.{seat0}
use dde_seatd.Poller.{poller_init, poller_add_signal, poller_add_fd}
use dde_seatd.Protocol.{View, view}
use dde_seatd.Protocol.Inv.{Inv}
use dde_seatd.Server.{set_nonblock}
use dde_seatd.Server.Lifecycle.{
  Server, on_poller, on_kernel, on_daemon, seat_create, create_vt_event_pipe, watch_signals,
  start_watcher, init_watcher, is_bound, clear_lists, no_seat, server_init,
}

-- Memory that no client has used yet.
abbrev pub Unused : (Ptr → Client) → Type 0
Unused client =
    (p : Ptr)
    → ((client p).in_seat ≡ Bool.false)
      × ((client p).state ≡ client_new)
      × ((client p).session ≡ minus_one)

-- The abstract seat without clients.
abbrev pub vacant : (Ptr → Client) → View
vacant client = record {
  clients = [];
  idle = [];
  active = none;
  next = none;
  state = λ p. (client p).state;
  in_seat = λ p. (client p).in_seat;
  session = λ p. (client p).session;
}

vacant-Inv : (client : Ptr → Client) → Unused client → Inv (vacant client)
vacant-Inv client h = record {
  listed = λ p. (h p).0;
  distinct = tt;
  distinct_idle = tt;
  idle_out = λ p e. (h p).0;
  active_in = λ p e. absurd (ground (arith, e));
  active_live = λ p e. absurd (ground (arith, e));
  live_active = λ p e. absurd (ground (arith, e, (h p).1));
  next_in = λ p e. absurd (ground (arith, e));
  closed_out = λ p e. (h p).0;
  in_session = λ p e. absurd (ground (arith, e, (h p).0));
  closed_session = λ p e. absurd (ground (arith, e, (h p).1));
}

-- Setting the signals up touches nothing of the daemon but what the kernel's calls do.
daemon-watch_signals :
    (signals : List ℕ) (w : Server)
    → (watch_signals signals w).1.daemon ≡ set_sys (watch_signals signals w).1.daemon.sys w.daemon
unfolding watch_signals
daemon-watch_signals [] w = refl
daemon-watch_signals (signal ∷ signals) w =
    Option_ind (λ (r : Status × Server). r.1.daemon ≡ set_sys r.1.daemon.sys w.daemon)
      (on_poller (poller_add_signal signal) w).0 (λ e. refl)
      (λ q e. daemon-watch_signals signals (on_poller (poller_add_signal signal) w).1)

view-start_watcher :
    (ends : ℕ × ℕ) (w : Server) → view (start_watcher ends w).daemon ≡ view w.daemon
unfolding start_watcher
view-start_watcher ends w =
    Status_ind (λ (x : Server). view x.daemon ≡ view w.daemon) (on_kernel (set_nonblock ends.0) w).0
      (λ o.
        Option_ind (λ (x : Server). view x.daemon ≡ view w.daemon)
          (on_poller (poller_add_fd ends.0 event_readable) (on_kernel (set_nonblock ends.0) w).1).0
          (λ e. refl) (λ q e. refl))
      (λ f. refl)

view-init_watcher : (ends : ℕ × ℕ) (w : Server) → view (init_watcher ends w).daemon ≡ view w.daemon
unfolding init_watcher
view-init_watcher ends w =
    Option_ind Goal (terminal_open zero_int w.daemon.sys).0 (λ e. refl)
      λ fd e.
        Status_ind Goal (on_kernel (create_vt_event_pipe ends) w₁).0
          (λ o. view-start_watcher ends _) (λ f. refl)
  where
    Goal : Server → Type 0
    Goal x = view x.daemon ≡ view w.daemon

    w₁ : Server
    w₁ = (on_kernel (terminal_open zero_int) w).1

-- A seat has no clients at first.
view-seat_create :
    (name : Bytes) (bound : Bool) (s : Sys) (seat : Seat) (d : Daemon)
    → (seat_create name bound s).0 ≡ some seat
    → d.idle_clients ≡ []
    → view (record d { seat = seat }) ≡ vacant d.client
unfolding seat_create
view-seat_create name bound s seat d e i =
    Option_ind Goal (syscall calloc s).0 (λ n f. absurd (none-ne-some seat f))
      (λ p n.
        Option_ind Goal (syscall strdup (syscall calloc s).1).0
          (λ m f. absurd (none-ne-some seat f))
          λ q m f.
            ap (λ x. view (record d { seat = x })) (sym (some-injective _ seat f))
            ∙ ap (λ idle. record (vacant d.client) { idle = idle }) i)
      e
  where
    Goal : Option Seat × Sys → Type 0
    Goal r = r.0 ≡ some seat → view (record d { seat = seat }) ≡ vacant d.client

-- If no client's memory was used before, then wherever `server_init` returns 0 the abstract seat of
-- the daemon satisfies the invariant, whatever the kernel answers and whether or not VTs are bound,
-- are watched, or the watcher's thread starts.
pub server_init-Inv :
    (ends watch_ends : ℕ × ℕ) (vtenv : Option Bytes) (w : Server)
    → Unused w.daemon.client
    → (server_init ends watch_ends vtenv w).0 ≡ ok
    → Inv (view (server_init ends watch_ends vtenv w).1.daemon)
unfolding server_init
server_init-Inv ends watch_ends vtenv w u =
    Status_ind Goal (on_poller (poller_init ends) w).0
      (λ o.
        Status_ind Goal w₂.0
          (λ q.
            Option_ind Goal (seat_create seat0 (is_bound vtenv) w₂.1.daemon.sys).0
              (λ e f. absurd (fail-ne_ok f))
              λ seat e f.
                subst Inv
                  (sym (
                    view-init_watcher watch_ends (seated seat)
                    ∙ view-seat_create seat0 (is_bound vtenv) w₂.1.daemon.sys seat w₃.daemon e
                        (ap (λ (d : Daemon). d.idle_clients) same)
                    ∙ ap (λ (d : Daemon). vacant d.client) same))
                  (vacant-Inv w.daemon.client u))
          (λ q f. absurd (fail-ne_ok f)))
      (λ e f. absurd (fail-ne_ok f))
  where
    Goal : Status × Server → Type 0
    Goal r = r.0 ≡ ok → Inv (view r.1.daemon)

    w₁ : Server
    w₁ = no_seat (clear_lists (on_poller (poller_init ends) w).1)

    w₂ : Status × Server
    w₂ = watch_signals (10 ∷ 12 ∷ 2 ∷ 15 ∷ []) w₁

    same : w₂.1.daemon ≡ set_sys w₂.1.daemon.sys w₁.daemon
    same = daemon-watch_signals (10 ∷ 12 ∷ 2 ∷ 15 ∷ []) w₁

    w₃ : Server
    w₃ = (on_kernel (seat_create seat0 (is_bound vtenv)) w₂.1).1

    seated : Seat → Server
    seated seat = on_daemon (λ d. record d { seat = seat }) w₃
