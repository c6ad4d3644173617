-- ===== src/Libseat/Noop.antt =====
-- libseat/backend/noop.c: the backend without a daemon, which opens devices itself.
use dde_seatd.Prelude.{
  ℕ, [], ◌∷◌, Option, none, some, Bool, true, false, ◌==◌, ◌||◌, if◌then◌else◌, St, Status, ok,
  fail,
}
use dde_seatd.Kernel
use dde_seatd.Kernel.{pollin, Bytes, Sys, calloc, close, poll, socketpair, syscall, eagain, eintr}

-- `struct backend_noop` beside what the calls of the kernel touch; `socketpair` answers with the number
-- under which `sockets` finds the two descriptors.
pub record Noop : Type 0 where
  pub initial_setup : Bool
  pub socket_0 : ℕ
  pub socket_1 : ℕ
  pub sys : Sys

abbrev pub on_kernel : {A : Type 0} → St Sys A → St Noop A
on_kernel m w = ((m w.sys).0, record w { sys = (m w.sys).1 })

unfoldable pub destroy : Noop → Sys
destroy w = (syscall (close w.socket_1) (syscall (close w.socket_0) w.sys).1).1

unfoldable pub close_seat : Noop → Status × Sys
unfolding destroy
close_seat w = (ok, destroy w)

-- The descriptor is the device's id as well.
unfoldable pub open_device : Bytes → St Noop (Option ℕ)
open_device path = on_kernel (syscall (Kernel.open_device path))

unfoldable pub disable_seat : St Noop Status
disable_seat w = (ok, w)

unfoldable pub close_device : ℕ → St Noop Status
close_device device_id w = (ok, w)

unfoldable pub switch_session : ℕ → St Noop Status
switch_session session w = (fail, w)

-- "seat0"
unfoldable pub seat_name : Bytes
seat_name = 115 ∷ 101 ∷ 97 ∷ 116 ∷ 48 ∷ []

unfoldable pub get_fd : Noop → ℕ
get_fd w = w.socket_0

-- The first dispatch enables the seat, as no daemon does.
unfoldable pub dispatch_background : (Noop → Noop) → St Noop Status
dispatch_background enable_seat w =
    let w₁ = if w.initial_setup then enable_seat (record w { initial_setup = false }) else w in
    let (r, w₂) = on_kernel (syscall (poll ((w₁.socket_0, pollin) ∷ []))) w₁ in
    elim r [
      | some n ↦ (ok, w₂)
      | none ↦ if w₂.sys.errno == eagain || w₂.sys.errno == eintr then (ok, w₂) else (fail, w₂)
    ]

-- `sockets` is what `socketpair` writes.
unfoldable pub noop_open_seat : (Sys → ℕ × ℕ) → Sys → Option Noop × Sys
noop_open_seat sockets s =
    let (a, s₁) = syscall calloc s in
    let (r, s₂) = syscall socketpair s₁ in
    elim a [
      | none ↦ (none, s₁)
      | some ptr ↦ elim r [
        | none ↦ (none, s₂)
        | some n ↦
            let (first, second) = sockets s₂ in
            (
              some (record { initial_setup = true; socket_0 = first; socket_1 = second; sys = s₂ }),
              s₂,
            )
      ]
    ]
