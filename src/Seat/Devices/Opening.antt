-- ===== src/Seat/Devices/Opening.antt =====
-- seatd/seat.c: the device list of a client, and what opening and closing make of it.
use dde_seatd.Prelude.{
  ℕ, suc, ◌+◌, ◌≤◌, ◌<◌, ◌≡◌, refl, sym, ap, subst, ◌∙◌, List, [], ◌∷◌, Bool, true, false, leb,
  ◌==◌, if◌then◌else◌, if_ind, Option_ind, arith, Option, some, none, pos, length,
}
use mathlib.Core.Option.{some-injective}
use dde_seatd.Seat.Devices.Closing.{update_same}
use dde_seatd.Kernel.{syscall, realpath, Bytes, Sys}
use dde_seatd.Daemon.{assert, is_ptr, on_sys, Ptr, Device, DeviceType, Client, Daemon, update}
use dde_seatd.Seat.Devices.{
  max_seat_devices, same_path, reuse, next_device_id, find_device, close_first, open_new,
  open_sanitized, seat_open_device, open_entry, device_type, is_active,
}

abbrev pub has_id : ℕ → List Device → Bool
has_id id [] = false
has_id id (dev ∷ devs) = if dev.device_id == id then true else has_id id devs

-- The ids are positive and distinct, and every entry has a reference.
abbrev pub Listed : List Device → Type 0
Listed [] = Unit {0}
Listed (dev ∷ devs) =
    (0 < dev.device_id) × (0 < dev.ref_cnt) × (has_id dev.device_id devs ≡ false) × Listed devs

-- A list of devices as a client may have it.
pub record IsValid (devs : List Device) : Type 0 where
  pub listed : Listed devs
  pub bounded : length devs ≤ max_seat_devices

next_device_id_lem :
    (id : ℕ) (devs : List Device)
    → (id ≤ next_device_id id devs) × (has_id (next_device_id id devs) devs ≡ false)
unfolding next_device_id
next_device_id_lem id [] = (omega arith, refl)
next_device_id_lem id (dev ∷ devs) =
    ground (arith, next_device_id_lem (if leb id dev.device_id then dev.device_id + 1 else id) devs)

-- The id for a new device is positive and no device of the list has it.
next_device_id-fresh :
    (devs : List Device)
    → (0 < next_device_id 1 devs) × (has_id (next_device_id 1 devs) devs ≡ false)
next_device_id-fresh devs = next_device_id_lem 1 devs

-- Closing keeps the list in order.
has_id-close_first :
    (k id : ℕ) (devs : List Device) (s : Sys)
    → has_id k devs ≡ false
    → has_id k (close_first id devs s).0 ≡ false
unfolding close_first
has_id-close_first k id [] s h = refl
has_id-close_first k id (dev ∷ devs) s h = ground (arith, has_id-close_first k id devs s)

close_first-Listed :
    (id : ℕ) (devs : List Device) (s : Sys) → Listed devs → Listed (close_first id devs s).0
unfolding close_first
close_first-Listed id [] s h = tt
close_first-Listed id (dev ∷ devs) s h =
    ground (arith, close_first-Listed id devs s h.3, has_id-close_first dev.device_id id devs s h.2)

length-close_first :
    (id : ℕ) (devs : List Device) (s : Sys) → length (close_first id devs s).0 ≤ length devs
unfolding close_first
length-close_first id [] s = omega arith
length-close_first id (dev ∷ devs) s = ground (arith, length-close_first id devs s)

-- Dropping a reference to a device, with whatever id, keeps a valid device list valid.
close_first-IsValid :
    (id : ℕ) (devs : List Device) (s : Sys) → IsValid devs → IsValid (close_first id devs s).0
close_first-IsValid id devs s v = record {
  listed = close_first-Listed id devs s v.listed;
  bounded = omega (arith, length-close_first id devs s, v.bounded);
}

-- What a use of an open path comes to: the list keeps its ids, and the entry can be found by its id.
data Reuses (devs : List Device) : Option (Device × List Device) → Type 0 where
  not_listed : Reuses devs none
  reused :
      (dev : Device) (devs' : List Device)
      → Listed devs'
      → ((k : ℕ) → has_id k devs' ≡ has_id k devs)
      → length devs' ≡ length devs
      → find_device (pos dev.device_id) devs' ≡ some dev
      → has_id dev.device_id devs ≡ true
      → Reuses devs (some (dev, devs'))

reuse_cons :
    (dev : Device) (devs : List Device) (o : Option (Device × List Device))
    → Listed (dev ∷ devs)
    → Reuses devs o
    → Reuses (dev ∷ devs) (elim o [ none ↦ none | some (found, rest) ↦ some (found, dev ∷ rest) ])
unfolding find_device
reuse_cons dev devs _ h not_listed = not_listed
reuse_cons dev devs _ h (reused found rest l k n f i) =
    reused found (dev ∷ rest) (h.0, h.1, k dev.device_id ∙ h.2, l) (λ j. ground (arith, k j))
      (ap suc n) (ground arith) (ground arith)

reuse-Reuses : (path : Bytes) (devs : List Device) → Listed devs → Reuses devs (reuse path devs)
unfolding reuse find_device
reuse-Reuses path [] h = not_listed
reuse-Reuses path (dev ∷ devs) h =
    if_ind (Reuses (dev ∷ devs)) (same_path dev.path path)
      (λ e.
        reused again (again ∷ devs) (h.0, omega arith, h.2, h.3) (λ k. refl) refl (ground arith)
          (ground arith))
      (λ e. reuse_cons dev devs (reuse path devs) h (reuse-Reuses path devs h.3))
  where
    again : Device
    again = record dev { ref_cnt = dev.ref_cnt + 1 }

-- What an attempt to open a device comes to, for a client that had the devices `devs`.
pub record OpensDevice (p : Ptr) (devs : List Device) (r : Option Device × Daemon) : Type 0 where
  -- the list is valid again
  pub valid : IsValid (r.1.client p).devices
  -- a failure leaves the list as it was
  pub unchanged : r.0 ≡ none → (r.1.client p).devices ≡ devs
  -- a success is an entry that `seat_find_device` finds by its id
  pub found :
      (dev : Device)
      → r.0 ≡ some dev
      → find_device (pos dev.device_id) (r.1.client p).devices ≡ some dev

OpensDevice-none :
    (p : Ptr) (d d' : Daemon)
    → IsValid (d.client p).devices
    → (d'.client p).devices ≡ (d.client p).devices
    → OpensDevice p (d.client p).devices (none, d')
OpensDevice-none p d d' v e = record {
  valid = subst IsValid (sym e) v;
  unchanged = λ n. e;
  found = λ dev n. cc;
}

OpensDevice-some :
    (p : Ptr) (d d' : Daemon) (dev : Device)
    → IsValid (d'.client p).devices
    → find_device (pos dev.device_id) (d'.client p).devices ≡ some dev
    → OpensDevice p (d.client p).devices (some dev, d')
OpensDevice-some p d d' dev v f = record {
  valid = v;
  unchanged = λ n. cc;
  found = λ dev' e.
      subst (λ x. find_device (pos x.device_id) (d'.client p).devices ≡ some x)
        (some-injective dev dev' e) f;
}

-- The client `p` with another list of devices.
abbrev with_devices : Ptr → List Device → Daemon → Daemon → Daemon
with_devices p devs d d' = record d' {
  client = update d'.client p (record (d.client p) { devices = devs });
}

with_devices_same :
    (p : Ptr) (devs : List Device) (d d' : Daemon)
    → ((with_devices p devs d d').client p).devices ≡ devs
with_devices_same p devs d d' =
    ap (λ (c : Client). c.devices)
      (update_same d'.client p (record (d.client p) { devices = devs }))

listed_OpensDevice :
    (p : Ptr) (devs : List Device) (dev : Device) (d d' : Daemon)
    → IsValid devs
    → find_device (pos dev.device_id) devs ≡ some dev
    → OpensDevice p (d.client p).devices (some dev, with_devices p devs d d')
listed_OpensDevice p devs dev d d' v f =
    OpensDevice-some p d (with_devices p devs d d') dev (subst IsValid (sym same) v)
      (ap (find_device (pos dev.device_id)) same ∙ f)
  where
    same : ((with_devices p devs d d').client p).devices ≡ devs
    same = with_devices_same p devs d d'

open_new-OpensDevice :
    (p : Ptr) (type : DeviceType) (path : Bytes) (d : Daemon)
    → IsValid (d.client p).devices
    → OpensDevice p (d.client p).devices (open_new p type path d)
unfolding open_new find_device
open_new-OpensDevice p type path d v =
    if_ind Outcome (leb max_seat_devices (length (d.client p).devices))
      (λ full. OpensDevice-none p d _ v refl)
      λ room.
        Option_ind Outcome (open_entry type path d.sys).0 (λ n. OpensDevice-none p d _ v refl)
          λ fd e.
            listed_OpensDevice p (entry type path d fd ∷ (d.client p).devices)
              (entry type path d fd) d (on_sys (open_entry type path) d).1
              (record {
                listed = (fresh.0, omega arith, fresh.1, v.listed);
                bounded = ground arith;
              })
              (ground arith)
  where
    fresh :
        (0 < next_device_id 1 (d.client p).devices)
        × (has_id (next_device_id 1 (d.client p).devices) (d.client p).devices ≡ false)
    fresh = next_device_id-fresh (d.client p).devices

    entry : DeviceType → Bytes → Daemon → ℕ → Device
    entry type path d fd = record {
      device_id = next_device_id 1 (d.client p).devices;
      fd = fd;
      ref_cnt = 1;
      active = true;
      path = path;
      type = type;
    }

    Outcome : Option Device × Daemon → Type 0
    Outcome r = OpensDevice p (d.client p).devices r

reused_OpensDevice :
    (p : Ptr) (d : Daemon) (o : Option (Device × List Device)) (y : Option Device × Daemon)
    → IsValid (d.client p).devices
    → Reuses (d.client p).devices o
    → OpensDevice p (d.client p).devices y
    → OpensDevice p
        (d.client p).devices
        (elim o [ some (dev, devs) ↦ (some dev, with_devices p devs d d) | none ↦ y ])
reused_OpensDevice p d _ y v not_listed h = h
reused_OpensDevice p d _ y v (reused dev devs l k n f i) h =
    listed_OpensDevice p devs dev d d (record { listed = l; bounded = omega (arith, n, v.bounded) })
      f

open_sanitized-OpensDevice :
    (p : Ptr) (path : Bytes) (d : Daemon)
    → IsValid (d.client p).devices
    → OpensDevice p (d.client p).devices (open_sanitized p path d)
unfolding open_sanitized
open_sanitized-OpensDevice p path d v =
    Option_ind (OpensDevice p (d.client p).devices) (device_type path)
      (λ n. OpensDevice-none p d _ v refl)
      λ type e.
        reused_OpensDevice p d (reuse path (d.client p).devices) (open_new p type path d) v
          (reuse-Reuses path (d.client p).devices v.listed) (open_new-OpensDevice p type path d v)

-- If the device list of a client is valid (positive and distinct ids, a reference for each entry,
-- at most 128 entries), then whatever the path and the kernel's answers are it is valid after
-- `seat_open_device`, unchanged where that fails, and where it succeeds the device it returns is
-- the one that its id finds.
pub seat_open_device-OpensDevice :
    (p : Ptr) (path : Bytes) (d : Daemon)
    → IsValid (d.client p).devices
    → OpensDevice p (d.client p).devices (seat_open_device p path d)
unfolding seat_open_device
seat_open_device-OpensDevice p path d v =
    if_ind Outcome (is_active (d.client p).state)
      (λ a.
        Option_ind Outcome (syscall (realpath path) d₁.sys).0 (λ n. OpensDevice-none p d _ v refl)
          λ path_ptr e.
            open_sanitized-OpensDevice p (d₁.sys.kernel.resolved d₁.sys.trace path) d₂ v)
      (λ a. OpensDevice-none p d _ v refl)
  where
    d₁ : Daemon
    d₁ = assert (is_ptr d.seat.active_client p) d

    d₂ : Daemon
    d₂ = (on_sys (syscall (realpath path)) d₁).1

    Outcome : Option Device × Daemon → Type 0
    Outcome r = OpensDevice p (d.client p).devices r
