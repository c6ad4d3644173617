-- ===== src/Seat/Devices/Revoking.antt =====
-- seatd/seat.c: the devices of a client that is disabled.
use dde_seatd.Prelude.{
  ℕ, ◌≡◌, refl, sym, ap, subst, List, [], ◌∷◌, some, Bool, true, false, ◌&&◌, if_ind, Option_ind,
  Status_ind, arith, Status, ok, fail,
}
use dde_seatd.Kernel.{
  Call, drm_drop_master_ioctl, evdev_revoke_ioctl, hidraw_revoke_ioctl, returned, Kernel, Sys,
  syscall, after_answer, Bytes, check, ebusy,
}
use dde_seatd.Connection.{connection_flush}
use dde_seatd.Events.{server_event, client_send_event, client_send_disable_seat}
use dde_seatd.Seat.Clients.Departure.{put_parts-client}
use dde_seatd.Terminal.{drm_drop_master, evdev_revoke, hidraw_revoke}
use dde_seatd.Daemon.{
  Ptr, DeviceType, normal, evdev, hidraw, drm, wscons, Device, Client, Daemon, is_ptr, assert,
  client_pending_disable, client_active, put_parts, header_bytes, on_connection, refuse,
}
use dde_seatd.Seat.Devices.{revoke, seat_deactivate_device, each_device, update_devices, is_active}
use dde_seatd.Seat.Devices.Closing.{update_same}
use dde_seatd.Seat.Clients.{deactivate_devices, seat_disable_client, set_state}

-- The ioctls that take a device away succeed.
pub record Revokes (k : Kernel) : Type 0 where
  pub drops_master :
      (trace : List Call) (fd : ℕ)
      → (n : ℕ) × (k.answer trace (drm_drop_master_ioctl fd) ≡ returned n)
  pub revokes_evdev :
      (trace : List Call) (fd : ℕ) → (n : ℕ) × (k.answer trace (evdev_revoke_ioctl fd) ≡ returned n)
  pub revokes_hidraw :
      (trace : List Call) (fd : ℕ)
      → (n : ℕ) × (k.answer trace (hidraw_revoke_ioctl fd) ≡ returned n)

-- The types that `seat_open_device` gives to a device.
abbrev is_kept : DeviceType → Bool
is_kept normal = false
is_kept _ = true

abbrev pub AllKept : List Device → Type 0
AllKept [] = Unit {0}
AllKept (dev ∷ devs) = (is_kept dev.type ≡ true) × AllKept devs

abbrev pub AllInactive : List Device → Type 0
AllInactive [] = Unit {0}
AllInactive (dev ∷ devs) = (dev.active ≡ false) × AllInactive devs

granted :
    (c : Call) (s : Sys) (n : ℕ)
    → s.kernel.answer s.trace c ≡ returned n
    → ((syscall c s).0 ≡ some n) × ((syscall c s).1.kernel ≡ s.kernel)
unfolding syscall after_answer
granted c s n e = rw e (refl, refl)

-- Taking a device away succeeds, and the kernel is the same after it.
revoke-ok :
    (type : DeviceType) (fd : ℕ) (s : Sys)
    → Revokes s.kernel
    → is_kept type ≡ true
    → ((revoke type fd s).0 ≡ ok) × ((revoke type fd s).1.kernel ≡ s.kernel)
unfolding revoke drm_drop_master evdev_revoke hidraw_revoke
revoke-ok drm fd s h k =
    let (n, e) = h.drops_master s.trace fd in
    let (r, q) = granted (drm_drop_master_ioctl fd) s n e in rw r (refl, q)
revoke-ok evdev fd s h k =
    let (n, e) = h.revokes_evdev s.trace fd in
    let (r, q) = granted (evdev_revoke_ioctl fd) s n e in rw r (refl, q)
revoke-ok hidraw fd s h k =
    let (n, e) = h.revokes_hidraw s.trace fd in
    let (r, q) = granted (hidraw_revoke_ioctl fd) s n e in rw r (refl, q)
revoke-ok wscons fd s h k = (refl, refl)
revoke-ok normal fd s h k = ground arith

seat_deactivate_device-ok :
    (dev : Device) (s : Sys)
    → Revokes s.kernel
    → is_kept dev.type ≡ true
    → let r = seat_deactivate_device dev s in (r.0.1.active ≡ false) × (r.1.kernel ≡ s.kernel)
unfolding seat_deactivate_device
seat_deactivate_device-ok dev s h k =
    if_ind Outcome dev.active {y = ((ok, dev), s)}
      (λ a.
        Status_ind Outcome (revoke dev.type dev.fd s).0
          (λ o. (refl, (revoke-ok dev.type dev.fd s h k).1))
          (λ f. ground (arith, f, revoke-ok dev.type dev.fd s h k)))
      (λ a. (a, refl))
  where
    Outcome : (Status × Device) × Sys → Type 0
    Outcome r = (r.0.1.active ≡ false) × (r.1.kernel ≡ s.kernel)

each_device-AllInactive :
    (devs : List Device) (s : Sys)
    → Revokes s.kernel
    → AllKept devs
    → AllInactive (each_device seat_deactivate_device devs s).0
unfolding each_device
each_device-AllInactive [] s h k = tt
each_device-AllInactive (dev ∷ devs) s h k =
    let (a, e) = seat_deactivate_device-ok dev s h k.0 in
    (a, each_device-AllInactive devs (seat_deactivate_device dev s).1 (subst Revokes (sym e) h) k.1)

deactivate_devices-AllInactive :
    (p : Ptr) (d : Daemon)
    → Revokes d.sys.kernel
    → AllKept (d.client p).devices
    → AllInactive ((deactivate_devices p d).client p).devices
unfolding deactivate_devices update_devices
deactivate_devices-AllInactive p d h k =
    subst AllInactive
      (sym (
        ap (λ (c : Client). c.devices)
          (update_same d.client p (record (d.client p) { devices = after }))))
      (each_device-AllInactive (d.client p).devices d.sys h k)
  where
    after : List Device
    after = (each_device seat_deactivate_device (d.client p).devices d.sys).0

client_send_disable_seat-client :
    (p : Ptr) (d : Daemon) → (client_send_disable_seat p d).1.client ≡ d.client
unfolding client_send_disable_seat client_send_event
client_send_disable_seat-client p d =
    Status_ind Outcome (put_parts p parts d).0
      (λ o.
        Option_ind Outcome (on_connection p connection_flush (put_parts p parts d).1).0 (λ n. sent)
          λ k n. sent)
      (λ f. sent)
  where
    parts : List Bytes
    parts = header_bytes (server_event 5) 0 ∷ []

    Outcome : Status × Daemon → Type 0
    Outcome r = r.1.client ≡ d.client

    sent : (put_parts p parts d).1.client ≡ d.client
    sent = put_parts-client p parts d

-- If the kernel grants the ioctls that drop DRM master and revoke input devices, and the devices of
-- an active client are of the types that `seat_open_device` gives, none of them is marked as active
-- after `seat_disable_client`, whether or not the client can be told.
pub seat_disable_client-AllInactive :
    (p : Ptr) (d : Daemon)
    → Revokes d.sys.kernel
    → AllKept (d.client p).devices
    → (d.client p).state ≡ client_active
    → AllInactive ((seat_disable_client p d).1.client p).devices
unfolding seat_disable_client check
seat_disable_client-AllInactive p d h k a =
    if_ind Outcome (is_active (d.client p).state) {y = refuse fail ebusy d}
      (λ e.
        subst (λ (f : Ptr → Client). AllInactive (f p).devices)
          (sym (client_send_disable_seat-client p (set_state p client_pending_disable ready)))
          pending)
      (λ e. ground (arith, a, e))
  where
    checked : Daemon
    checked = assert ((d.client p).in_seat && is_ptr d.seat.active_client p) d

    ready : Daemon
    ready = deactivate_devices p checked

    Outcome : Status × Daemon → Type 0
    Outcome r = AllInactive (r.1.client p).devices

    kept : Revokes checked.sys.kernel
    kept =
        if_ind (λ (s : Sys). Revokes s.kernel)
          ((d.client p).in_seat && is_ptr d.seat.active_client p) (λ e. h) (λ e. h)

    pending : AllInactive ((set_state p client_pending_disable ready).client p).devices
    pending =
        subst AllInactive
          (sym (
            ap (λ (c : Client). c.devices)
              (update_same ready.client p
                (record (ready.client p) { state = client_pending_disable }))))
          (deactivate_devices-AllInactive p checked kept k)
