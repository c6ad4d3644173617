-- ===== src/Tests/Devices.antt =====
-- The devices of a client that holds a card twice.
use dde_seatd.Prelude.{◌≡◌, refl, List, [], ◌∷◌, false, arith}
use dde_seatd.Terminal.{codes}
use dde_seatd.Daemon.{Device}
use dde_seatd.Seat.Devices.{seat_open_device}
use dde_seatd.Seat.Devices.Opening.{IsValid, OpensDevice, seat_open_device-OpensDevice}
use dde_seatd.Seat.Clients.Departure.{seat_remove_client-NoDevices, client_destroy-asserts}
use dde_seatd.Seat.Clients.Sessions.{Found, free_session-Found}
use dde_seatd.Seat.Devices.Revoking.{Revokes, AllInactive, seat_disable_client-AllInactive}
use dde_seatd.Seat.Clients.{seat_disable_client, seat_remove_client, free_session}
use dde_seatd.Client.Lifecycle.{client_destroy}
use dde_seatd.Tests.Scene.{generous, card, shared}

abbrev cards : List Device
cards = record card { device_id = 2; ref_cnt = 1 } ∷ card ∷ []

cards-IsValid : IsValid cards
cards-IsValid = record {
  listed = (omega arith, omega arith, refl, (omega arith, omega arith, refl, tt));
  bounded = omega arith;
}

card-IsValid : IsValid (card ∷ [])
card-IsValid = record { listed = (omega arith, omega arith, refl, tt); bounded = omega arith }

-- The client 1 opens a second device, an input.
seat_open_device-OpensDevice_example :
    OpensDevice 1 (card ∷ []) (seat_open_device 1 (codes "/dev/input/event3") (shared false))
seat_open_device-OpensDevice_example =
    seat_open_device-OpensDevice 1 (codes "/dev/input/event3") (shared false) card-IsValid

seat_remove_client-NoDevices_example : ((seat_remove_client 1 (shared false)).client 1).devices ≡ []
seat_remove_client-NoDevices_example = seat_remove_client-NoDevices 1 (shared false)

client_destroy-asserts_example : ((client_destroy 1 (shared false)).client 1).devices ≡ []
client_destroy-asserts_example =
    client_destroy-asserts 1 (shared false) (λ out. ground (arith, out))

free_session-Found_example : Found (shared false) 1 (free_session 3 (shared false) 1)
free_session-Found_example = free_session-Found (shared false)

generous-Revokes : Revokes generous
generous-Revokes = record {
  drops_master = λ trace fd. (0, refl);
  revokes_evdev = λ trace fd. (0, refl);
  revokes_hidraw = λ trace fd. (0, refl);
}

seat_disable_client-AllInactive_example :
    AllInactive ((seat_disable_client 1 (shared false)).1.client 1).devices
seat_disable_client-AllInactive_example =
    seat_disable_client-AllInactive 1 (shared false) generous-Revokes (refl, tt) refl
