-- ===== src/Client/Handlers.antt =====
-- seatd/client.c: the handler of each request. `fail` is the return of -1, on which the caller destroys
-- the client; an error that the client is told of is a return of 0.
use dde_seatd.Prelude.{ℕ, [], ◌∷◌, ◌++◌, none, some, Bool, not, if◌then◌else◌, ℤ, Status, ok, fail}
use dde_seatd.Kernel.{Bytes, dup, ebadf, syscall}
use dde_seatd.Terminal.{codes}
use dde_seatd.Connection.{connection_put_fd, bytes_of_int}
use dde_seatd.Daemon.{
  Ptr, Device, Daemon, M, on_sys, on_connection, header_bytes, bytes_of_u16, put_parts,
}
use dde_seatd.Events.{server_event}
use dde_seatd.Seat.Devices.{seat_open_device, seat_close_device, seat_find_device, same_path}
use dde_seatd.Seat.Clients.{
  seat_add_client, seat_open_client, seat_remove_client, seat_ack_disable_client,
}
use dde_seatd.Seat.Switching.{seat_set_next_session}
use dde_seatd.Client.Lifecycle.{client_send_error, send_errno, reply}

-- `client_get_seat_name`
abbrev pub seat0 : Bytes
seat0 = codes "seat0"

-- `server_get_seat`: whether there is a seat of that name. The server has one seat.
unfoldable pub server_has_seat : Daemon → Bytes → Bool
unfolding same_path
server_has_seat d name = same_path d.seat.seat_name name

-- SERVER_SEAT_OPENED, with the name and its terminator
unfoldable pub send_seat_opened : Ptr → M Status
send_seat_opened p =
    put_parts p (header_bytes (server_event 1) 8 ∷ bytes_of_u16 6 ∷ (seat0 ++ 0 ∷ []) ∷ [])

unfoldable pub handle_open_seat : Ptr → M Status
unfolding server_has_seat send_seat_opened
handle_open_seat p d =
    let (r, d₁) = seat_add_client p d in
    let (sent, d₂) = send_seat_opened p d₁ in
    if not (server_has_seat d seat0) then (fail, d) else elim r [
      | fail ↦ (fail, d₁)
      | ok ↦ elim sent [ fail ↦ (fail, d₂) | ok ↦ (ok, (seat_open_client p d₂).1) ]
    ]

-- SERVER_SEAT_CLOSED
unfoldable pub handle_close_seat : Ptr → M Status
unfolding reply
handle_close_seat p d =
    let d₁ = seat_remove_client p d in
    if not (d.client p).in_seat
    then (fail, d)
    else reply p (server_event 2) (record d₁ { idle_clients = p ∷ d₁.idle_clients })

-- SERVER_DEVICE_OPENED
unfoldable pub send_device : Ptr → Device → ℕ → M Status
send_device p dev dupfd d =
    let (r, d₁) = on_connection p (connection_put_fd dupfd) d in
    elim r [
      | fail ↦ (fail, d₁)
      | ok ↦ put_parts p (header_bytes (server_event 3) 4 ∷ bytes_of_int dev.device_id ∷ []) d₁
    ]

unfoldable pub handle_open_device : Ptr → Bytes → M Status
unfolding send_device
handle_open_device p path d =
    let (r, d₁) = seat_open_device p path d in
    if not (d.client p).in_seat then (fail, d) else elim r [
      | none ↦ send_errno p d₁
      | some dev ↦
          let (copy, d₂) = on_sys (syscall (dup dev.fd)) d₁ in
          elim copy [
            | none ↦ send_errno p (seat_close_device p dev.device_id d₂)
            | some dupfd ↦ send_device p dev dupfd d₂
          ]
    ]

-- SERVER_DEVICE_CLOSED
unfoldable pub handle_close_device : Ptr → ℤ → M Status
unfolding reply
handle_close_device p device_id d =
    let (r, d₁) = seat_find_device p device_id d in
    if not (d.client p).in_seat then (fail, d) else elim r [
      | none ↦ client_send_error p ebadf d₁
      | some dev ↦ reply p (server_event 4) (seat_close_device p dev.device_id d₁)
    ]

-- SERVER_SESSION_SWITCHED
unfoldable pub handle_switch_session : Ptr → ℤ → M Status
unfolding reply
handle_switch_session p session d =
    let (r, d₁) = seat_set_next_session p session d in
    if not (d.client p).in_seat
    then (fail, d)
    else elim r [ fail ↦ send_errno p d₁ | ok ↦ reply p (server_event 8) d₁ ]

-- SERVER_SEAT_DISABLED
unfoldable pub handle_disable_seat : Ptr → M Status
unfolding reply
handle_disable_seat p d =
    let (r, d₁) = seat_ack_disable_client p d in
    if not (d.client p).in_seat
    then (fail, d)
    else elim r [ fail ↦ send_errno p d₁ | ok ↦ reply p (server_event 9) d₁ ]

-- SERVER_PONG
unfoldable pub handle_ping : Ptr → M Status
unfolding reply
handle_ping p = reply p (server_event 7)
