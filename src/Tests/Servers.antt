-- ===== src/Tests/Servers.antt =====
-- A client connects and asks for the seat.
use dde_seatd.Prelude.{ℕ, ◌≡◌, refl, ap, true, false}
use dde_seatd.Daemon.{event_source_fd_update, Daemon, client_active}
use dde_seatd.Client.Dispatch.{Mask}
use dde_seatd.Buffer.{
  size, consume, restore, get_iov, put_iov, gather, scatter, iov_len, copy, put_bytes, put,
  write_at,
}
use dde_seatd.Kernel.{check, after_answer, syscall, retry}
use dde_seatd.Connection.{
  bytes_of_int, ints_of_bytes, close_all, close_fds, build_cmsg, decode_cmsg, after_recv,
  connection_read, flush_loop, connection_flush, put_out, connection_put, connection_put_fd,
  connection_get, connection_get_fd, connection_close_fds, connection_pending, connection_restore,
}
use dde_seatd.Daemon.{remove, bytes_of_u16, header_bytes, put_parts}
use dde_seatd.Events.{client_send_event, client_send_enable_seat}
use dde_seatd.Seat.Clients.{
  activate_devices, enable_client, seat_open_client, has_session, free_session, enrol, add_unbound,
  seat_add_client,
}
use dde_seatd.Client.Lifecycle.{client_create, client_flush}
use dde_seatd.Client.Handlers.{server_has_seat, send_seat_opened, handle_open_seat}
use dde_seatd.Client.Dispatch.{
  u16_of_bytes, opcode_of, dispatch, client_handle_opcode, handle_messages, on_readable,
  handle_events, client_handle_connection,
}
use dde_seatd.Server.{
  update_flags, set_nonblock, poller_add_fd, watch_client, server_add_client, accept_client,
  server_handle_connection,
}
use dde_seatd.Seat.Devices.{same_path, update_devices, each_device}
use dde_seatd.Protocol.{view, Reach}
use dde_seatd.Protocol.Inv.{Inv, is_live}
use dde_seatd.Server.Safety.{
  from_client, from_listener, handle, Run, start, step, Run-Inv, Run-live_unique,
}
use dde_seatd.Tests.Scene.{lonely, lonely-Inv}

abbrev input : Mask
input = record { error = false; hangup = false; writable = false; readable = true }

abbrev connected : Daemon
connected = handle (from_listener input 3) lonely

-- The address of the client that connects.
abbrev visitor : ℕ
visitor = 56

abbrev served : Daemon
served = handle (from_client input visitor) connected

run : Run lonely served
run =
    step (step start (from_listener input 3) (λ new_fd p e. (refl, refl)))
      (from_client input visitor) tt

visitor_runs : (served.client visitor).state ≡ client_active
unfolding size consume restore get_iov put_iov gather scatter iov_len copy put_bytes put write_at
    check after_answer syscall retry bytes_of_int ints_of_bytes close_all close_fds build_cmsg
    decode_cmsg after_recv connection_read flush_loop connection_flush put_out connection_put
    connection_put_fd connection_get connection_get_fd connection_close_fds connection_pending
    connection_restore remove bytes_of_u16 header_bytes put_parts client_send_event
    client_send_enable_seat activate_devices enable_client seat_open_client has_session free_session
    enrol add_unbound seat_add_client client_create client_flush server_has_seat send_seat_opened
    handle_open_seat u16_of_bytes opcode_of dispatch client_handle_opcode handle_messages
    on_readable handle_events client_handle_connection update_flags set_nonblock poller_add_fd
    watch_client server_add_client accept_client server_handle_connection same_path update_devices
    each_device event_source_fd_update
visitor_runs = refl

Run-Inv_example : Reach (view lonely) (view served) × Inv (view served)
Run-Inv_example = Run-Inv lonely served lonely-Inv run

Run-live_unique_example : visitor ≡ visitor
Run-live_unique_example =
    Run-live_unique lonely served visitor visitor lonely-Inv run (ap is_live visitor_runs)
      (ap is_live visitor_runs)
