-- ===== src/Libseat/Choice.antt =====
-- libseat/libseat.c: the choice of a backend. `Seat` is what a backend's `open_seat` returns.
use mathlib.Core.List.{List, [], ◌∷◌}
use dde_seatd.Prelude.{Option, none, some, Bool, true, false, if◌then◌else◌}
use dde_seatd.Seat.Devices.{same_path}
use dde_seatd.Kernel.{Bytes, Sys, set_errno, einval, enosys}

module _ (Seat : Type 0) where
  -- An entry of `impls`: its name, whether it is the no-op backend, and its `open_seat`.
  pub record NamedBackend : Type 0 where
    pub name : Bytes
    pub is_noop : Bool
    pub open_seat : Sys → Option Seat × Sys

  -- The named backend or none at all.
  unfoldable pub open_named : Bytes → List NamedBackend → Sys → Option Seat × Sys
  unfolding same_path
  open_named backend_type [] s = (none, set_errno einval s)
  open_named backend_type (b ∷ bs) s =
      let rest = open_named backend_type bs s in
      if same_path backend_type b.name then b.open_seat s else rest

  -- The first backend that opens a seat, but not the no-op one.
  unfoldable pub open_first : List NamedBackend → Sys → Option Seat × Sys
  open_first [] s = (none, set_errno enosys s)
  open_first (b ∷ bs) s =
      let (r, s') = b.open_seat s in
      let skipped = open_first bs s in
      let failed = open_first bs s' in
      if b.is_noop then skipped else elim r [ some seat ↦ (some seat, s') | none ↦ failed ]

  -- Whether there is a listener with both functions, and what LIBSEAT_BACKEND says, if it is set.
  unfoldable pub libseat_open_seat :
      List NamedBackend → Bool → Option Bytes → Sys → Option Seat × Sys
  unfolding open_named open_first
  libseat_open_seat impls false backend_type s = (none, set_errno einval s)
  libseat_open_seat impls true (some name) s = open_named name impls s
  libseat_open_seat impls true none s = open_first impls s
