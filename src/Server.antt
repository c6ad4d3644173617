-- ===== src/Server.antt =====
-- seatd/server.c: accepting clients, the VT signals and the VT events; and `poller_add_fd` of
-- seatd/poller.c as far as the server sees it.
pub mod Frames
pub mod Accepting
pub mod Safety
pub mod Lifecycle
pub mod Starting
pub mod Ending
use dde_seatd.Prelude.{
  ℕ, List, [], ◌∷◌, Option, none, some, Bool, true, false, ◌||◌, if◌then◌else◌, ℤ, is_some, St,
  Status, ok, fail,
}
use dde_seatd.Kernel.{Sys, accept, fcntl, shutdown, calloc, syscall}
use dde_seatd.Daemon.{Ptr, Seat, Daemon, M, on_sys, effect, event_readable, event_source_fd_update}
use dde_seatd.Seat.Vt.{ignore, close_fd}
use dde_seatd.Seat.Switching.{seat_vt_activate, seat_vt_release, seat_handle_vt_event}
use dde_seatd.Client.Lifecycle.{client_create, client_destroy}
use dde_seatd.Client.Handlers.{seat0, server_has_seat}
use dde_seatd.Client.Dispatch.{Mask}

-- `(flags = fcntl(fd, F_GET..)) == -1 || fcntl(fd, F_SET.., flags | ..) == -1`
unfoldable pub update_flags : ℕ → St Sys Status
update_flags fd s =
    let (r, s₁) = syscall (fcntl fd) s in
    let (w, s₂) = syscall (fcntl fd) s₁ in
    elim r [ none ↦ (fail, s₁) | some flags ↦ (if is_some w then ok else fail, s₂) ]

-- FD_CLOEXEC, then O_NONBLOCK
unfoldable pub set_nonblock : ℕ → St Sys Status
unfolding update_flags
set_nonblock fd s =
    let (r, s₁) = update_flags fd s in elim r [ fail ↦ (fail, s₁) | ok ↦ update_flags fd s₁ ]

-- The event source of a client, with its mask.
unfoldable pub poller_add_fd : Ptr → ℕ → M Status
poller_add_fd p mask d =
    let (r, d₁) = on_sys (syscall calloc) d in
    elim r [ none ↦ (fail, d₁) | some source ↦ (ok, event_source_fd_update p mask d₁) ]

unfoldable pub watch_client : Ptr → M Status
unfolding poller_add_fd
watch_client p d =
    let (r, d₁) = poller_add_fd p event_readable d in
    elim r [ fail ↦ (fail, client_destroy p d₁) | ok ↦ (ok, d₁) ]

unfoldable pub server_add_client : ℕ → M Status
unfolding set_nonblock watch_client
server_add_client fd d =
    let (r, d₁) = on_sys (set_nonblock fd) d in
    let (c, d₂) = client_create fd d₁ in
    elim r [
      | fail ↦ (fail, effect (close_fd fd) d₁)
      | ok ↦ elim c [ none ↦ (fail, effect (close_fd fd) d₂) | some p ↦ watch_client p d₂ ]
    ]

-- A connection that cannot be accepted or set up is no error.
unfoldable pub accept_client : ℕ → Daemon → Daemon
unfolding server_add_client
accept_client fd d =
    let (r, d₁) = on_sys (syscall (accept fd)) d in
    elim r [ none ↦ d₁ | some new_fd ↦ (server_add_client new_fd d₁).1 ]

unfoldable pub server_handle_connection : Mask → ℕ → M Status
unfolding accept_client
server_handle_connection mask fd d =
    let closed = effect (ignore (syscall (shutdown fd))) d in
    if mask.error || mask.hangup
    then (fail, record closed { running = false })
    else (ok, if mask.readable then accept_client fd d else d)

unfoldable pub server_handle_vt_acq : M Status
server_handle_vt_acq d = if server_has_seat d seat0 then (ok, (seat_vt_activate d).1) else (fail, d)

unfoldable pub server_handle_vt_rel : M Status
server_handle_vt_rel d = if server_has_seat d seat0 then (ok, (seat_vt_release d).1) else (fail, d)

unfoldable pub server_handle_kill : M Status
server_handle_kill d = (ok, record d { running = false })

-- The messages that the watcher thread has written to the pipe, oldest first.
unfoldable pub drain_vt_events : List (ℤ × ℤ) → Daemon → Daemon
drain_vt_events [] d = d
drain_vt_events ((old_vt, new_vt) ∷ msgs) d =
    drain_vt_events msgs
      (if server_has_seat d seat0 then seat_handle_vt_event old_vt new_vt d else d)

unfoldable pub server_handle_vt_event : Mask → List (ℤ × ℤ) → M Status
unfolding drain_vt_events
server_handle_vt_event mask msgs d =
    if mask.error || mask.hangup
    then (fail, d)
    else (ok, if mask.readable then drain_vt_events msgs d else d)
