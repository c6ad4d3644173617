-- ===== src/Seat/Vt.antt =====
-- seatd/seat.c: the functions that configure a VT, and who owns one.
use dde_seatd.Prelude.{
  ℕ, List, [], ◌∷◌, Option, none, some, Bool, true, false, ◌==◌, ◌&&◌, if◌then◌else◌, ℤ, pos, eqb_ℤ,
  is_pos, zero_int, St, Status, ok, fail,
}
use dde_seatd.Kernel.{Sys, close, enoent, set_errno, syscall}
use dde_seatd.Terminal.{
  to_nat, terminal_open, terminal_current_vt, terminal_set_process_switching, terminal_set_keyboard,
  terminal_set_graphics, terminal_switch_vt, terminal_ack_release, terminal_ack_acquire,
}
use dde_seatd.Daemon.{Ptr, GroupVt, Seat, Daemon, M, set_seat, on_sys}

-- What is left of a call whose failure the code passes over.
abbrev pub ignore : {A : Type 0} → St Sys A → Sys → Sys
ignore m s = (m s).1

abbrev pub close_fd : ℕ → Sys → Sys
close_fd fd = ignore (syscall (close fd))

unfoldable pub query_vt : St Sys (Option ℤ)
query_vt s =
    let (r, s₁) = terminal_open zero_int s in
    elim r [
      | none ↦ (none, s₁)
      | some fd ↦
          let (v, s₂) = terminal_current_vt fd s₁ in
          let saved_errno = s₂.errno in
          let s₃ = close_fd fd s₂ in
          let failure : Option ℤ × Sys =
            (none, set_errno (if saved_errno == 0 then enoent else saved_errno) s₃) in
          elim v [ none ↦ failure | some vt ↦ if vt == 0 then failure else (some (pos vt), s₃) ]
    ]

unfoldable pub seat_update_vt : M Status
unfolding query_vt
seat_update_vt d =
    let (r, d') = on_sys query_vt d in
    elim r [ none ↦ (fail, d') | some vt ↦ (ok, set_seat (record d'.seat { cur_vt = vt }) d') ]

-- What `vt_open` and `vt_close` do with the open terminal: they differ in `graphical` alone.
unfoldable pub configure_vt : Bool → ℤ → St Sys Status
configure_vt graphical vt s =
    let (r, s₁) = terminal_open vt s in
    elim r [
      | none ↦ (fail, s₁)
      | some fd ↦
          let s₂ = ignore (terminal_set_process_switching fd graphical) s₁ in
          let s₃ = ignore (terminal_set_keyboard fd (if graphical then false else true)) s₂ in
          let s₄ = ignore (terminal_set_graphics fd graphical) s₃ in (ok, close_fd fd s₄)
    ]

unfoldable pub vt_open : ℤ → St Sys Status
unfolding configure_vt
vt_open = configure_vt true

unfoldable pub vt_close : ℤ → St Sys Status
unfolding configure_vt
vt_close = configure_vt false

-- `int saved_errno = errno; close(ttyfd); errno = saved_errno; return -1;`
abbrev close_and_fail : ℕ → St Sys Status
close_and_fail fd s = (fail, set_errno s.errno (close_fd fd s))

unfoldable pub vt_switch : Seat → ℤ → St Sys Status
vt_switch seat vt s =
    let (r, s₁) = terminal_open seat.cur_vt s in
    elim r [
      | none ↦ (fail, s₁)
      | some fd ↦
          let (a, s₂) = terminal_set_process_switching fd true s₁ in
          let (b, s₃) = terminal_switch_vt fd (to_nat vt) s₂ in
          elim a [
            | fail ↦ close_and_fail fd s₂
            | ok ↦ elim b [ fail ↦ close_and_fail fd s₃ | ok ↦ (ok, close_fd fd s₃) ]
          ]
    ]

unfoldable pub vt_ack : Seat → Bool → St Sys Status
vt_ack seat release s =
    let (r, s₁) = terminal_open seat.cur_vt s in
    elim r [
      | none ↦ (fail, s₁)
      | some fd ↦
          let s₂ =
            if release
            then ignore (terminal_ack_release fd) s₁
            else ignore (terminal_ack_acquire fd) s₁ in
          (ok, close_fd fd s₂)
    ]

unfoldable pub find_group_vt : ℤ → List GroupVt → Option GroupVt
find_group_vt vt [] = none
find_group_vt vt (g ∷ gs) = if eqb_ℤ g.vt vt then some g else find_group_vt vt gs

unfoldable pub seat_find_group_vt : Seat → ℤ → Option GroupVt
unfolding find_group_vt
seat_find_group_vt seat vt = find_group_vt vt seat.group_vts

abbrev is_owner : Ptr → Option GroupVt → Bool
is_owner p none = false
is_owner p (some g) = g.owner == p

unfoldable pub client_owns_vt : Daemon → Ptr → ℤ → Bool
unfolding seat_find_group_vt
client_owns_vt d p vt =
    let c = d.client p in
    if eqb_ℤ c.session vt
    then true
    else if c.in_seat
    then is_owner p (seat_find_group_vt d.seat vt)
    else false

unfoldable pub vt_for_client_open : Daemon → Ptr → ℤ
unfolding client_owns_vt
vt_for_client_open d p =
    if is_pos d.seat.cur_vt && client_owns_vt d p d.seat.cur_vt
    then d.seat.cur_vt
    else (d.client p).session
