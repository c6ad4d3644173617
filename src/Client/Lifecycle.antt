-- ===== src/Client/Lifecycle.antt =====
-- seatd/client.c: creating and destroying a client, and flushing its connection. This is the daemon's
-- variant, without LIBSEAT.
use dde_seatd.Prelude.{
  ℕ, ◌+◌, List, [], ◌∷◌, Option, none, some, Bool, true, false, ◌==◌, if◌then◌else◌, minus_one,
  Status, ok, fail,
}
use dde_seatd.Kernel.{eagain, syscall, getsockopt_peercred, calloc, Ucred}
use dde_seatd.Connection.{connection_on, connection_flush, connection_close_fds, bytes_of_int}
use dde_seatd.Daemon.{
  Ptr, Device, client_new, Client, Daemon, M, update, on_sys, on_connection, effect, assert, remove,
  event_readable, event_writable, event_source_fd_update, header_bytes, put_parts,
}
use dde_seatd.Events.{server_event}
use dde_seatd.Seat.Vt.{close_fd}
use dde_seatd.Seat.Clients.{seat_remove_client, when}

-- The client that `client_create` sets up in its zeroed memory.
abbrev pub fresh_client : Ucred → Client
fresh_client u = record {
  pid = u.pid;
  uid = u.uid;
  gid = u.gid;
  in_seat = false;
  session = minus_one;
  state = client_new;
  devices = [];
}

-- `none` is NULL. The pointer is what `calloc` returns.
unfoldable pub client_create : ℕ → M (Option Ptr)
client_create fd d =
    let (r, d₁) = on_sys (syscall (getsockopt_peercred fd)) d in
    let (m, d₂) = on_sys (syscall calloc) d₁ in
    elim r [
      | none ↦ (none, d₁)
      | some done ↦ elim m [
        | none ↦ (none, d₂)
        | some p ↦
            let u = d.sys.kernel.peer d.sys.trace fd in
            (
              some p,
              record d₂ {
                client = update d₂.client p (fresh_client u);
                connection = update d₂.connection p (connection_on fd);
                idle_clients = p ∷ d₂.idle_clients;
              },
            )
      ]
    ]

abbrev pub is_empty : List Device → Bool
is_empty [] = true
is_empty (x ∷ xs) = false

-- `connection_close_fds(&client->connection)`
unfoldable pub close_connection_fds : Ptr → Daemon → Daemon
close_connection_fds p d =
    let (c, s) = connection_close_fds (d.connection p) d.sys in
    record d { sys = s; connection = update d.connection p c }

unfoldable pub client_destroy : Ptr → Daemon → Daemon
unfolding close_connection_fds remove
client_destroy p d =
    let d₁ = effect (close_fd (d.connection p).fd) d in
    let d₂ = when (d₁.client p).in_seat (seat_remove_client p) d₁ in
    let d₃ = record d₂ { idle_clients = remove p d₂.idle_clients } in
    let d₄ = close_connection_fds p d₃ in assert (is_empty (d₄.client p).devices) d₄

unfoldable pub client_flush : Ptr → M Status
client_flush p d =
    let (r, d₁) = on_connection p connection_flush d in
    elim r [
      | none ↦
          if d₁.sys.errno == eagain
          then (ok, event_source_fd_update p (event_readable + event_writable) d₁)
          else (fail, d₁)
      | some n ↦ (ok, d₁)
    ]

-- SERVER_ERROR
unfoldable pub client_send_error : Ptr → ℕ → M Status
client_send_error p error_code =
    put_parts p (header_bytes (server_event 0x7fff) 4 ∷ bytes_of_int error_code ∷ [])

-- `return client_send_error(client, errno);`
abbrev pub send_errno : Ptr → M Status
send_errno p d = client_send_error p d.sys.errno d

-- A reply that is a header alone.
unfoldable pub reply : Ptr → ℕ → M Status
reply p opcode = put_parts p (header_bytes opcode 0 ∷ [])
