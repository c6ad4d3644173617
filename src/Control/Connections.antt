-- ===== src/Control/Connections.antt =====
-- seatd/control.c: the events of the control socket and of its clients.
use dde_seatd.Prelude.{
  ℕ, ◌∷◌, Option, none, some, Bool, false, ◌==◌, ◌||◌, if◌then◌else◌, St, Status, ok, fail,
}
use dde_seatd.Kernel.{Sys, eagain, accept, calloc, geteuid, getsockopt_peercred, syscall}
use dde_seatd.Connection.{connection_on, connection_read, connection_flush}
use dde_seatd.Daemon.{
  Ptr, Daemon, M, update, on_sys, on_connection, effect, event_readable, event_source_fd_update,
}
use dde_seatd.Events.{control_client_destroy}
use dde_seatd.Seat.Vt.{close_fd}
use dde_seatd.Client.Dispatch.{Mask}
use dde_seatd.Server.{update_flags, poller_add_fd}
use dde_seatd.Control.{handle_control_messages}

unfoldable pub on_control_writable : Ptr → M Status
on_control_writable p d =
    let (r, d₁) = on_connection p connection_flush d in
    elim r [
      | none ↦ if d₁.sys.errno == eagain then (ok, d₁) else (fail, d₁)
      | some n ↦ (ok, event_source_fd_update p event_readable d₁)
    ]

-- One more than the messages that fit into the buffer.
abbrev pub control_fuel : ℕ
control_fuel = 65

unfoldable pub on_control_readable : Ptr → M Status
unfolding handle_control_messages
on_control_readable p d =
    let (r, d₁) = on_connection p connection_read d in
    elim r [
      | none ↦
          if d₁.sys.errno == eagain then handle_control_messages control_fuel p d₁ else (fail, d₁)
      | some n ↦ if n == 0 then (fail, d₁) else handle_control_messages control_fuel p d₁
    ]

-- What has arrived is handled before a hangup is.
unfoldable pub handle_control_events : Mask → Ptr → M Status
unfolding on_control_writable on_control_readable
handle_control_events mask p d =
    let (w, d₁) = if mask.writable then on_control_writable p d else (ok, d) in
    let (r, d₂) = if mask.readable then on_control_readable p d₁ else (ok, d₁) in
    if mask.error then (fail, d) else elim w [
      | fail ↦ (fail, d₁)
      | ok ↦ elim r [ fail ↦ (fail, d₂) | ok ↦ if mask.hangup then (fail, d₂) else (ok, d₂) ]
    ]

unfoldable pub control_client_handle_connection : Mask → Ptr → M Status
unfolding handle_control_events
control_client_handle_connection mask p d =
    let (r, d₁) = handle_control_events mask p d in
    elim r [ ok ↦ (ok, d₁) | fail ↦ (fail, control_client_destroy p d₁) ]

-- FD_CLOEXEC, then O_NONBLOCK
unfoldable pub prepare_control_fd : ℕ → St Sys Status
unfolding update_flags
prepare_control_fd fd s =
    let (r, s₁) = update_flags fd s in elim r [ fail ↦ (fail, s₁) | ok ↦ update_flags fd s₁ ]

-- The new control client, on the list and with its event source.
unfoldable pub enter_control_client : Ptr → ℕ → Daemon → Daemon
unfolding poller_add_fd
enter_control_client p fd d =
    let entered = record d {
      control_clients = p ∷ d.control_clients;
      connection = update d.connection p (connection_on fd);
    } in
    let (r, d₁) = poller_add_fd p event_readable entered in
    elim r [ fail ↦ control_client_destroy p d₁ | ok ↦ d₁ ]

abbrev pub is_uid : Option ℕ → ℕ → Bool
is_uid none uid = false
is_uid (some euid) uid = uid == euid

-- A connection that is prepared: its peer runs under the daemon's own user, or is turned away.
unfoldable pub admit_control_client : ℕ → Daemon → Daemon
unfolding enter_control_client
admit_control_client fd d =
    let (r, d₁) = on_sys (syscall (getsockopt_peercred fd)) d in
    let (euid, d₂) = on_sys (syscall geteuid) d₁ in
    let (m, d₃) = on_sys (syscall calloc) d₂ in
    elim r [
      | none ↦ effect (close_fd fd) d₁
      | some done ↦
          if is_uid euid (d.sys.kernel.peer d.sys.trace fd).uid
          then elim m [ none ↦ effect (close_fd fd) d₃ | some p ↦ enter_control_client p fd d₃ ]
          else effect (close_fd fd) d₂
    ]

unfoldable pub accept_control_client : ℕ → Daemon → Daemon
unfolding prepare_control_fd admit_control_client
accept_control_client fd d =
    let (c, d₁) = on_sys (syscall (accept fd)) d in
    elim c [
      | none ↦ d₁
      | some new_fd ↦
          let (r, d₂) = on_sys (prepare_control_fd new_fd) d₁ in
          elim r [ fail ↦ effect (close_fd new_fd) d₂ | ok ↦ admit_control_client new_fd d₂ ]
    ]

unfoldable pub control_handle_connection : Mask → ℕ → M Status
unfolding accept_control_client
control_handle_connection mask fd d =
    if mask.error || mask.hangup
    then (fail, d)
    else (ok, if mask.readable then accept_control_client fd d else d)
