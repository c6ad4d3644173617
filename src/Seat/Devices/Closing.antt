-- ===== src/Seat/Devices/Closing.antt =====
-- seatd/seat.c: closing the devices of a client, one reference at a time.
use dde_seatd.Prelude.{ℕ, zero, suc, ◌≤◌, ◌<◌, ◌≡◌, refl, ap, ◌∙◌, List, [], ◌∷◌, arith}
use dde_seatd.Kernel.{Sys}
use dde_seatd.Daemon.{Ptr, Device, Client, Daemon, update}
use dde_seatd.Seat.Devices.{close_first, update_devices}
use dde_seatd.Seat.Clients.{close_every, close_fuel, close_devices}

-- Closing the device at the front takes away one reference or the device.
close_first-shrinks :
    (dev : Device) (devs : List Device) (s : Sys)
    → close_fuel (close_first dev.device_id (dev ∷ devs) s).0 < close_fuel (dev ∷ devs)
unfolding close_first close_fuel
close_first-shrinks dev devs s = ground arith

close_every_enough :
    (fuel : ℕ) (devs : List Device) (s : Sys)
    → close_fuel devs ≤ fuel
    → (close_every fuel devs s).0 ≡ []
unfolding close_every
close_every_enough zero [] s h = refl
close_every_enough (suc fuel) [] s h = refl
close_every_enough zero (dev ∷ devs) s h = ground (arith, close_first-shrinks dev devs s)
close_every_enough (suc fuel) (dev ∷ devs) s h =
    close_every_enough fuel rest.0 rest.1 (omega (arith, close_first-shrinks dev devs s))
  where
    rest : List Device × Sys
    rest = close_first dev.device_id (dev ∷ devs) s

-- Closing the first device again and again, with a round for each reference and one more for each
-- device, ends with an empty list.
close_every-empties : (devs : List Device) (s : Sys) → (close_every (close_fuel devs) devs s).0 ≡ []
close_every-empties devs s = close_every_enough (close_fuel devs) devs s (omega arith)

pub update_same : {A : Type 0} (f : Ptr → A) (p : Ptr) (a : A) → update f p a p ≡ a
update_same f p a = ground arith

pub close_devices-empties : (p : Ptr) (d : Daemon) → ((close_devices p d).client p).devices ≡ []
unfolding close_devices update_devices
close_devices-empties p d =
    ap (λ (c : Client). c.devices)
      (update_same d.client p (record (d.client p) { devices = closed.0 }))
    ∙ close_every-empties (d.client p).devices d.sys
  where
    closed : List Device × Sys
    closed = close_every (close_fuel (d.client p).devices) (d.client p).devices d.sys
