-- ===== src/Control/Isolation.antt =====
-- seatd/control.c: the events of control clients, and the abstract seat.
use dde_seatd.Prelude.{
  ℕ, zero, suc, ◌≡◌, refl, ◌∙◌, ◌∷◌, ◌==◌, ◌||◌, if◌then◌else◌, if_ind, Bool_ind, Option_ind,
  Status_ind, ltb, drop, Status, ok, fail,
}
use dde_seatd.Kernel.{Bytes, eagain, accept, calloc, geteuid, getsockopt_peercred, syscall}
use dde_seatd.Connection.{
  connection_read, connection_flush, connection_get, connection_pending, connection_on,
}
use dde_seatd.Daemon.{
  Ptr, Daemon, update, on_sys, on_connection, effect, event_readable, event_source_fd_update,
}
use dde_seatd.Events.{control_client_destroy}
use dde_seatd.Seat.Vt.{close_fd}
use dde_seatd.Client.Dispatch.{u16_of_bytes, Mask}
use dde_seatd.Protocol.{view}
use dde_seatd.Server.{poller_add_fd}
use dde_seatd.Server.Frames.{view-poller_add_fd}
use dde_seatd.Control.{control_client_handle_opcode, handle_control_messages}
use dde_seatd.Control.Frames.{Still}
use dde_seatd.Control.Connections.{
  on_control_writable, on_control_readable, handle_control_events, control_client_handle_connection,
  prepare_control_fd, enter_control_client, is_uid, admit_control_client, accept_control_client,
  control_handle_connection, control_fuel,
}
use dde_seatd.Control.Requests.{control_client_handle_opcode-Still}

handle_control_messages-Still : (fuel : ℕ) (p : Ptr) → Still (handle_control_messages fuel p)
unfolding handle_control_messages
handle_control_messages-Still zero p d = refl
handle_control_messages-Still (suc fuel) p d =
    Option_ind Outcome (connection_get 4 (d.connection p) d.sys).0.0 (λ n. refl)
      λ header n.
        Bool_ind Outcome (ltb (connection_pending (d₁.connection p)) (u16_of_bytes (drop 2 header)))
          (λ w. refl)
          λ w.
            Status_ind Outcome (handled header).0
              (λ o. handle_control_messages-Still fuel p (handled header).1 ∙ first header)
              (λ f. first header)
  where
    d₁ : Daemon
    d₁ = (on_connection p (connection_get 4) d).1

    handled : Bytes → Status × Daemon
    handled header =
        control_client_handle_opcode p (u16_of_bytes header) (u16_of_bytes (drop 2 header)) d₁

    first : (header : Bytes) → view (handled header).1 ≡ view d
    first header =
        control_client_handle_opcode-Still p (u16_of_bytes header) (u16_of_bytes (drop 2 header)) d₁

    Outcome : Status × Daemon → Type 0
    Outcome r = view r.1 ≡ view d

on_control_writable-Still : (p : Ptr) → Still (on_control_writable p)
unfolding on_control_writable event_source_fd_update
on_control_writable-Still p d =
    Option_ind Outcome (connection_flush (d.connection p) d.sys).0.0
      (λ n.
        if_ind Outcome (d₁.sys.errno == eagain) {x = (ok, d₁)} {y = (fail, d₁)} (λ e. refl)
          (λ e. refl))
      λ k n. refl
  where
    d₁ : Daemon
    d₁ = (on_connection p connection_flush d).1

    Outcome : Status × Daemon → Type 0
    Outcome r = view r.1 ≡ view d

on_control_readable-Still : (p : Ptr) → Still (on_control_readable p)
unfolding on_control_readable
on_control_readable-Still p d =
    Option_ind Outcome (connection_read (d.connection p) d.sys).0.0
      (λ n.
        if_ind Outcome (d₁.sys.errno == eagain) {x = handle_control_messages control_fuel p d₁}
          {y = (fail, d₁)} (λ e. messages) (λ e. refl))
      λ k n.
        if_ind Outcome (k == 0) {x = (fail, d₁)} {y = handle_control_messages control_fuel p d₁}
          (λ e. refl) (λ e. messages)
  where
    d₁ : Daemon
    d₁ = (on_connection p connection_read d).1

    Outcome : Status × Daemon → Type 0
    Outcome r = view r.1 ≡ view d

    messages : view (handle_control_messages control_fuel p d₁).1 ≡ view d
    messages = handle_control_messages-Still control_fuel p d₁

handle_control_events-Still : (mask : Mask) (p : Ptr) → Still (handle_control_events mask p)
unfolding handle_control_events
handle_control_events-Still mask p d =
    if_ind Outcome mask.error {x = (fail, d)} (λ e. refl)
      λ e.
        Status_ind Outcome written.0
          (λ o.
            Status_ind Outcome read.0
              (λ q.
                if_ind Outcome mask.hangup {x = (fail, read.1)} {y = (ok, read.1)} (λ h. done)
                  (λ h. done))
              (λ q. done))
          (λ f. wrote)
  where
    written : Status × Daemon
    written = if mask.writable then on_control_writable p d else (ok, d)

    read : Status × Daemon
    read = if mask.readable then on_control_readable p written.1 else (ok, written.1)

    Outcome : Status × Daemon → Type 0
    Outcome r = view r.1 ≡ view d

    wrote : view written.1 ≡ view d
    wrote =
        if_ind Outcome mask.writable {y = (ok, d)} (λ w. on_control_writable-Still p d) (λ w. refl)

    done : view read.1 ≡ view d
    done =
        if_ind Outcome mask.readable {y = (ok, written.1)}
          (λ r. on_control_readable-Still p written.1 ∙ wrote) (λ r. wrote)

destroy-Still : (p : Ptr) (d : Daemon) → view (control_client_destroy p d) ≡ view d
unfolding control_client_destroy
destroy-Still p d = refl

-- Whatever a control client sends and whatever the kernel answers, handling an event of it leaves
-- the abstract seat as it is: the clients on the seat and the idle ones, the active and the queued
-- one, and the state, membership and session of each.
pub control_client_handle_connection-Still :
    (mask : Mask) (p : Ptr) (d : Daemon)
    → view (control_client_handle_connection mask p d).1 ≡ view d
unfolding control_client_handle_connection
control_client_handle_connection-Still mask p d =
    Status_ind (λ (r : Status × Daemon). view r.1 ≡ view d) handled.0 (λ o. same)
      (λ f. destroy-Still p handled.1 ∙ same)
  where
    handled : Status × Daemon
    handled = handle_control_events mask p d

    same : view handled.1 ≡ view d
    same = handle_control_events-Still mask p d

enter-Still : (p : Ptr) (fd : ℕ) (d : Daemon) → view (enter_control_client p fd d) ≡ view d
unfolding enter_control_client poller_add_fd event_source_fd_update
enter-Still p fd d =
    Status_ind (λ (x : Daemon). view x ≡ view d) (poller_add_fd p event_readable entered).0
      (λ o. same) (λ f. destroy-Still p (poller_add_fd p event_readable entered).1 ∙ same)
  where
    entered : Daemon
    entered = record d {
      control_clients = p ∷ d.control_clients;
      connection = update d.connection p (connection_on fd);
    }

    same : view (poller_add_fd p event_readable entered).1 ≡ view d
    same = view-poller_add_fd p event_readable entered

admit-Still : (fd : ℕ) (d : Daemon) → view (admit_control_client fd d) ≡ view d
unfolding admit_control_client
admit-Still fd d =
    Option_ind Outcome (syscall (getsockopt_peercred fd) d.sys).0 {n = effect (close_fd fd) d₁}
      (λ n. refl)
      λ done n.
        if_ind Outcome (is_uid (syscall geteuid d₁.sys).0 (d.sys.kernel.peer d.sys.trace fd).uid)
          {y = effect (close_fd fd) d₂}
          (λ u.
            Option_ind Outcome (syscall calloc d₂.sys).0 {n = effect (close_fd fd) d₃} (λ m. refl)
              λ p m. enter-Still p fd d₃)
          (λ u. refl)
  where
    d₁ : Daemon
    d₁ = (on_sys (syscall (getsockopt_peercred fd)) d).1

    d₂ : Daemon
    d₂ = (on_sys (syscall geteuid) d₁).1

    d₃ : Daemon
    d₃ = (on_sys (syscall calloc) d₂).1

    Outcome : Daemon → Type 0
    Outcome x = view x ≡ view d

accept-Still : (fd : ℕ) (d : Daemon) → view (accept_control_client fd d) ≡ view d
unfolding accept_control_client
accept-Still fd d =
    Option_ind Outcome (syscall (accept fd) d.sys).0 {n = d₁} (λ n. refl)
      λ new_fd n.
        Status_ind Outcome (prepare_control_fd new_fd d₁.sys).0
          (λ o. admit-Still new_fd (on_sys (prepare_control_fd new_fd) d₁).1) (λ f. refl)
  where
    d₁ : Daemon
    d₁ = (on_sys (syscall (accept fd)) d).1

    Outcome : Daemon → Type 0
    Outcome x = view x ≡ view d

pub control_handle_connection-Still :
    (mask : Mask) (fd : ℕ) (d : Daemon) → view (control_handle_connection mask fd d).1 ≡ view d
unfolding control_handle_connection
control_handle_connection-Still mask fd d =
    if_ind (λ (r : Status × Daemon). view r.1 ≡ view d) (mask.error || mask.hangup) {x = (fail, d)}
      (λ e. refl)
      λ e.
        if_ind (λ (x : Daemon). view x ≡ view d) mask.readable {y = d} (λ r. accept-Still fd d)
          (λ r. refl)
