-- ===== src/Seat/Devices.antt =====
-- seatd/seat.c: the devices of a client. A pointer to a device is its id in the client's list.
pub mod Closing
pub mod Opening
pub mod Revoking
use dde_seatd.Prelude.{
  ℕ, zero, suc, ◌+◌, ◌-◌, List, [], ◌∷◌, Option, none, some, Bool, true, false, ltb, leb, ◌==◌,
  if◌then◌else◌, ℤ, pos, eqb_ℤ, zero_int, length, St, Status, ok, fail,
}
use dde_seatd.Kernel.{
  Bytes, Sys, failed_assert, out_of_fuel, stop, eperm, enoent, einval, emfile, enomem, set_errno,
  syscall, open_device, realpath, calloc, strdup,
}
use dde_seatd.Terminal.{
  is_master, not_master, unknown, drm_set_master, drm_drop_master, drm_is_master, evdev_revoke,
  hidraw_revoke, path_is_drm, path_is_evdev, path_is_hidraw, path_is_wscons,
}
use dde_seatd.Daemon.{
  Ptr, DeviceType, normal, evdev, hidraw, drm, wscons, Device, client_active, Client, ClientState,
  Daemon, M, set_client, set_sys, on_sys, effect, refuse, assert, is_ptr,
}
use dde_seatd.Seat.Vt.{ignore, close_fd}

-- MAX_SEAT_DEVICES of include/protocol.h
abbrev pub max_seat_devices : ℕ
max_seat_devices = 128

-- `log_errorf(...); abort();`
abbrev abort : Sys → Sys
abort = stop failed_assert

unfoldable pub revoke : DeviceType → ℕ → St Sys Status
revoke drm fd s = drm_drop_master fd s
revoke evdev fd s = evdev_revoke fd s
revoke hidraw fd s = hidraw_revoke fd s
revoke wscons fd s = (ok, s)
revoke normal fd s = (fail, abort s)

unfoldable pub seat_deactivate_device : Device → St Sys (Status × Device)
unfolding revoke
seat_deactivate_device dev s =
    let (r, s') = revoke dev.type dev.fd s in
    if dev.active
    then elim r [ ok ↦ ((ok, record dev { active = false }), s') | fail ↦ ((fail, dev), s') ]
    else ((ok, dev), s)

unfoldable pub acquire_master : ℕ → Sys → Sys
acquire_master fd s =
    let (m, s') = drm_is_master fd s in
    elim m [ is_master ↦ s' | _ ↦ ignore (drm_set_master fd) s' ]

unfoldable pub reactivate : DeviceType → Device → St Sys (Status × Device)
unfolding acquire_master
reactivate drm dev s = ((ok, record dev { active = true }), acquire_master dev.fd s)
reactivate evdev dev s = ((fail, dev), set_errno einval s)
reactivate hidraw dev s = ((fail, dev), set_errno einval s)
reactivate wscons dev s = ((ok, dev), s)
reactivate normal dev s = ((fail, dev), abort s)

unfoldable pub seat_activate_device : Device → St Sys (Status × Device)
unfolding reactivate
seat_activate_device dev s = if dev.active then ((ok, dev), s) else reactivate dev.type dev s

-- A loop over the devices of a client that only logs a failure.
unfoldable pub each_device :
    (Device → St Sys (Status × Device)) → List Device → St Sys (List Device)
each_device f [] s = ([], s)
each_device f (dev ∷ devs) s =
    let ((r, dev'), s') = f dev s in let (devs', s'') = each_device f devs s' in (dev' ∷ devs', s'')

unfoldable pub drop_master : Device → St Sys (Status × Device)
unfolding seat_deactivate_device
drop_master dev s = elim dev.type [ drm ↦ seat_deactivate_device dev s | _ ↦ ((ok, dev), s) ]

unfoldable pub restore_master : Device → St Sys (Status × Device)
unfolding seat_activate_device
restore_master dev s = elim dev.type [ drm ↦ seat_activate_device dev s | _ ↦ ((ok, dev), s) ]

-- A loop over the devices of the client `p`.
unfoldable pub update_devices : Ptr → (List Device → St Sys (List Device)) → Daemon → Daemon
update_devices p f d =
    let c = d.client p in
    let (devs, s) = f c.devices d.sys in set_client p (record c { devices = devs }) (set_sys s d)

unfoldable pub seat_drop_client_drm_master : Ptr → Daemon → Daemon
unfolding update_devices each_device drop_master
seat_drop_client_drm_master p = update_devices p (each_device drop_master)

unfoldable pub seat_restore_client_drm_master : Ptr → Daemon → Daemon
unfolding update_devices each_device restore_master
seat_restore_client_drm_master p = update_devices p (each_device restore_master)

unfoldable pub find_device : ℤ → List Device → Option Device
find_device id [] = none
find_device id (dev ∷ devs) = if eqb_ℤ (pos dev.device_id) id then some dev else find_device id devs

unfoldable pub seat_find_device : Ptr → ℤ → M (Option Device)
unfolding find_device
seat_find_device p id d =
    if eqb_ℤ id zero_int then refuse none einval d else elim (find_device id (d.client p).devices) [
      | none ↦ refuse none enoent d
      | some dev ↦ (some dev, d)
    ]

-- The last reference is gone: the device is taken off the list, revoked and closed; `errno` stays.
unfoldable pub dispose : Device → Sys → Sys
unfolding seat_deactivate_device
dispose dev s = set_errno s.errno (close_fd dev.fd (ignore (seat_deactivate_device dev) s))

unfoldable pub close_first : ℕ → List Device → St Sys (List Device)
unfolding dispose
close_first id [] s = ([], s)
close_first id (dev ∷ devs) s =
    let (rest, s') = close_first id devs s in
    let refs = dev.ref_cnt - 1 in
    if dev.device_id == id
    then if ltb 0 refs then (record dev { ref_cnt = refs } ∷ devs, s) else (devs, dispose dev s)
    else (dev ∷ rest, s')

unfoldable pub seat_close_device : Ptr → ℕ → Daemon → Daemon
unfolding update_devices close_first
seat_close_device p id = update_devices p (close_first id)

unfoldable pub device_type : Bytes → Option DeviceType
device_type path =
    if path_is_evdev path
    then some evdev
    else if path_is_drm path
    then some drm
    else if path_is_wscons path
    then some wscons
    else if path_is_hidraw path
    then some hidraw
    else none

-- `strcmp(a, b) == 0`
unfoldable pub same_path : Bytes → Bytes → Bool
same_path [] [] = true
same_path (x ∷ xs) (y ∷ ys) = if x == y then same_path xs ys else false
same_path _ _ = false

-- The entry for a path, with one more reference, and the list with it.
unfoldable pub reuse : Bytes → List Device → Option (Device × List Device)
unfolding same_path
reuse path [] = none
reuse path (dev ∷ devs) =
    let again = record dev { ref_cnt = dev.ref_cnt + 1 } in
    if same_path dev.path path
    then some (again, again ∷ devs)
    else elim (reuse path devs) [ none ↦ none | some (found, rest) ↦ some (found, dev ∷ rest) ]

unfoldable pub next_device_id : ℕ → List Device → ℕ
next_device_id id [] = id
next_device_id id (dev ∷ devs) =
    next_device_id (if leb id dev.device_id then dev.device_id + 1 else id) devs

-- `open` and, for a DRM device, the request for master, whose failure is only logged.
unfoldable pub open_fd : DeviceType → Bytes → St Sys (Option ℕ)
open_fd type path s =
    let (r, s') = syscall (open_device path) s in
    elim r [
      | none ↦ (none, s')
      | some fd ↦ (some fd, elim type [ drm ↦ ignore (drm_set_master fd) s' | _ ↦ s' ])
    ]

-- `close(fd); errno = ENOMEM; return NULL;`
abbrev out_of_memory : ℕ → St Sys (Option ℕ)
out_of_memory fd s = (none, set_errno enomem (close_fd fd s))

-- The opened descriptor of a new entry, for which memory was found.
unfoldable pub open_entry : DeviceType → Bytes → St Sys (Option ℕ)
unfolding open_fd
open_entry type path s =
    let (r, s₁) = open_fd type path s in
    elim r [
      | none ↦ (none, s₁)
      | some fd ↦
          let (entry, s₂) = syscall calloc s₁ in
          let (copy, s₃) = syscall strdup s₂ in
          elim entry [
            | none ↦ out_of_memory fd s₂
            | some e ↦ elim copy [ none ↦ out_of_memory fd s₃ | some c ↦ (some fd, s₃) ]
          ]
    ]

unfoldable pub open_new : Ptr → DeviceType → Bytes → M (Option Device)
unfolding open_entry next_device_id
open_new p type path d =
    let c = d.client p in
    let (r, d') = on_sys (open_entry type path) d in
    let id = next_device_id 1 c.devices in
    if leb max_seat_devices (length c.devices) then refuse none emfile d else elim r [
      | none ↦ (none, d')
      | some fd ↦
          let dev : Device = record {
            device_id = id;
            fd = fd;
            ref_cnt = 1;
            active = true;
            path = path;
            type = type;
          } in
          (some dev, set_client p (record c { devices = dev ∷ c.devices }) d')
    ]

unfoldable pub open_sanitized : Ptr → Bytes → M (Option Device)
unfolding open_new reuse device_type
open_sanitized p path d =
    let c = d.client p in
    elim (device_type path) [
      | none ↦ refuse none enoent d
      | some type ↦ elim (reuse path c.devices) [
        | some (dev, devs) ↦ (some dev, set_client p (record c { devices = devs }) d)
        | none ↦ open_new p type path d
      ]
    ]

abbrev pub is_active : ClientState → Bool
is_active client_active = true
is_active _ = false

unfoldable pub seat_open_device : Ptr → Bytes → M (Option Device)
unfolding open_sanitized
seat_open_device p path d =
    let d₁ = assert (is_ptr d.seat.active_client p) d in
    let (r, d₂) = on_sys (syscall (realpath path)) d₁ in
    if is_active (d.client p).state
    then elim r [
      | none ↦ (none, d₂)
      | some path_ptr ↦ open_sanitized p (d₁.sys.kernel.resolved d₁.sys.trace path) d₂
    ]
    else refuse none eperm d
