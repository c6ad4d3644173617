-- ===== src/Seat/GroupVts.antt =====
-- seatd/seat.c: free VTs, and the VTs that a client owns beside its session's.
pub mod Sharing
use dde_seatd.Prelude.{
  ℕ, List, [], ◌∷◌, Option, none, some, Bool, true, false, ◌||◌, not, if◌then◌else◌, is_some, ℤ,
  pos, eqb_ℤ, is_pos, minus_one, zero_int, St, Status, ok, fail,
}
use dde_seatd.Kernel.{Bytes, Sys, enoent, ebusy, einval, set_errno, syscall, calloc, strdup}
use dde_seatd.Terminal.{terminal_open, terminal_find_available}
use dde_seatd.Daemon.{Ptr, GroupVt, M, set_seat, on_sys, effect, refuse}
use dde_seatd.Seat.Vt.{close_fd, ignore, vt_open, vt_close, seat_find_group_vt}
use dde_seatd.Seat.Clients.{when}

-- The `errno` of a failed query is kept over the `close` in `seat_find_available_vt` alone.
unfoldable pub find_free_vt : Bool → St Sys (Option ℕ)
find_free_vt keeps_errno s =
    let (r, s₁) = terminal_open zero_int s in
    elim r [
      | none ↦ (none, s₁)
      | some fd ↦
          let (v, s₂) = terminal_find_available fd s₁ in
          let s₃ = close_fd fd s₂ in
          elim v [
            | none ↦ (none, if keeps_errno then set_errno s₂.errno s₃ else s₃)
            | some vt ↦ (some vt, s₃)
          ]
    ]

abbrev int_of : Option ℕ → ℤ
int_of none = minus_one
int_of (some n) = pos n

unfoldable pub seat_find_available_vt : M ℤ
unfolding find_free_vt
seat_find_available_vt d =
    let (r, d₁) = on_sys (find_free_vt true) d in
    if d.seat.vt_bound then (int_of r, d₁) else refuse minus_one einval d

-- `calloc`, the two `strdup`s, and `vt_open`.
unfoldable pub new_group_vt : ℤ → St Sys Status
new_group_vt vt s =
    let (a, s₁) = syscall calloc s in
    let (b, s₂) = syscall strdup s₁ in
    let (c, s₃) = syscall strdup s₂ in
    elim a [
      | none ↦ (fail, s₁)
      | some entry ↦
          if is_some b then if is_some c then vt_open vt s₃ else (fail, s₃) else (fail, s₃)
    ]

unfoldable pub add_group_vt : Ptr → ℤ → Bytes → Bytes → M (Option ℤ)
unfolding new_group_vt
add_group_vt owner vt user session d =
    let (r, d₁) = on_sys (new_group_vt vt) d in
    let g : GroupVt = record { owner = owner; vt = vt; user = user; session = session } in
    if eqb_ℤ vt (d.client owner).session || is_some (seat_find_group_vt d.seat vt)
    then refuse none ebusy d
    else elim r [
      | fail ↦ (none, d₁)
      | ok ↦ (some vt, set_seat (record d₁.seat { group_vts = g ∷ d₁.seat.group_vts }) d₁)
    ]

-- `none` is the return of -1; the user and the session are never NULL.
unfoldable pub seat_create_group_vt : Ptr → ℤ → Bytes → Bytes → M (Option ℤ)
unfolding find_free_vt add_group_vt
seat_create_group_vt owner requested_vt user session d =
    let (r, d₁) = on_sys (find_free_vt false) d in
    if not d.seat.vt_bound
    then refuse none einval d
    else if not (d.client owner).in_seat
    then refuse none einval d
    else if is_pos requested_vt
    then add_group_vt owner requested_vt user session d
    else elim r [ none ↦ (none, d₁) | some vt ↦ add_group_vt owner (pos vt) user session d₁ ]

unfoldable pub remove_group_vt : ℤ → List GroupVt → List GroupVt
remove_group_vt vt [] = []
remove_group_vt vt (g ∷ gs) = if eqb_ℤ g.vt vt then gs else g ∷ remove_group_vt vt gs

unfoldable pub seat_destroy_group_vt : ℤ → M Status
unfolding remove_group_vt
seat_destroy_group_vt vt d = elim (seat_find_group_vt d.seat vt) [
  | none ↦ refuse fail enoent d
  | some g ↦
      let d₁ = set_seat (record d.seat { group_vts = remove_group_vt vt d.seat.group_vts }) d in
      (ok, when d₁.seat.vt_bound (effect (ignore (vt_close g.vt))) d₁)
]

unfoldable pub seat_get_group_vt_owner_pid : ℤ → M (Option ℕ)
seat_get_group_vt_owner_pid vt d = elim (seat_find_group_vt d.seat vt) [
  | none ↦ refuse none enoent d
  | some g ↦ (some (d.client g.owner).pid, d)
]
