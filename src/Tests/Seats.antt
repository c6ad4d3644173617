-- ===== src/Tests/Seats.antt =====
-- Two clients on a seat that is not bound to VTs.
use dde_seatd.Prelude.{◌≡◌, refl, true, false, pos}
use dde_seatd.Seat.Clients.{
  seat_activate, seat_add_client, seat_remove_client, seat_ack_disable_client,
}
use dde_seatd.Seat.Switching.{seat_set_next_session, seat_handle_vt_event}
use dde_seatd.Client.Dispatch.{client_handle_connection}
use dde_seatd.Protocol.{view, Reach}
use dde_seatd.Refine.Clients.{Activates, seat_activate-Activates}
use dde_seatd.Refine.Disabling.{seat_ack_disable_client-Reach}
use dde_seatd.Refine.Adding.{seat_add_client-Reach}
use dde_seatd.Refine.Removal.{seat_remove_client-Reach}
use dde_seatd.Refine.Switching.{seat_set_next_session-Reach, seat_handle_vt_event-Reach}
use dde_seatd.Refine.Messages.{client_handle_connection-Reach}
use dde_seatd.Control.Connections.{control_client_handle_connection}
use dde_seatd.Control.Isolation.{control_client_handle_connection-Still}
use dde_seatd.Tests.Scene.{shared, shared-Inv}

seat_activate-Activates_example :
    Activates (view (shared true)) (view (seat_activate (shared true)).1)
seat_activate-Activates_example = seat_activate-Activates (shared true)

seat_add_client-Reach_example :
    Reach (view (shared false)) (view (seat_add_client 3 (shared false)).1)
seat_add_client-Reach_example = seat_add_client-Reach 3 (shared false)

seat_ack_disable_client-Reach_example :
    Reach (view (shared true)) (view (seat_ack_disable_client 1 (shared true)).1)
seat_ack_disable_client-Reach_example =
    seat_ack_disable_client-Reach 1 (shared true) (shared-Inv true)

seat_remove_client-Reach_example :
    Reach (view (shared false)) (view (seat_remove_client 1 (shared false)))
seat_remove_client-Reach_example = seat_remove_client-Reach 1 (shared false) (shared-Inv false) refl

seat_set_next_session-Reach_example :
    Reach (view (shared false)) (view (seat_set_next_session 1 (pos 2) (shared false)).1)
seat_set_next_session-Reach_example = seat_set_next_session-Reach 1 (pos 2) (shared false)

seat_handle_vt_event-Reach_example :
    Reach (view (shared false)) (view (seat_handle_vt_event (pos 1) (pos 2) (shared false)))
seat_handle_vt_event-Reach_example =
    seat_handle_vt_event-Reach (pos 1) (pos 2) (shared false) (shared-Inv false)

client_handle_connection-Reach_example : Reach (view (shared false)) (
    view
      (client_handle_connection
        (record { error = false; hangup = false; writable = false; readable = true })
        3
        (shared false)).1)
client_handle_connection-Reach_example =
    client_handle_connection-Reach
      (record { error = false; hangup = false; writable = false; readable = true }) 3 (shared false)
      (shared-Inv false)

-- A control client 9 sends a request.
control_client_handle_connection-Still_example :
    view
      (control_client_handle_connection
        (record { error = false; hangup = false; writable = false; readable = true })
        9
        (shared false)).1
    ≡ view (shared false)
control_client_handle_connection-Still_example =
    control_client_handle_connection-Still
      (record { error = false; hangup = false; writable = false; readable = true }) 9 (shared false)
