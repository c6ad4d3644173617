-- ===== src/Seat/Switching.antt =====
-- seatd/seat.c: switching sessions and VTs, and the signals and events of a VT change.
use dde_seatd.Prelude.{
  List, [], ◌∷◌, Option, none, some, Bool, true, false, ◌&&◌, not, if◌then◌else◌, is_some, ℤ, eqb_ℤ,
  is_pos, minus_one, zero_int, Status, ok, fail,
}
use dde_seatd.Kernel.{eperm, ebusy, einval}
use dde_seatd.Daemon.{Ptr, Daemon, M, set_seat, on_sys, effect, refuse, assert, is_ptr}
use dde_seatd.Events.{control_broadcast_vt_change}
use dde_seatd.Seat.Vt.{ignore, seat_update_vt, vt_switch, vt_ack, client_owns_vt}
use dde_seatd.Seat.Devices.{is_active, seat_drop_client_drm_master, seat_restore_client_drm_master}
use dde_seatd.Seat.Clients.{seat_activate, seat_disable_client}

unfoldable pub session_owner : Daemon → ℤ → List Ptr → Option Ptr
session_owner d session [] = none
session_owner d session (p ∷ ps) =
    if eqb_ℤ (d.client p).session session then some p else session_owner d session ps

-- Marks the switch as pending and asks the kernel for it; a refusal takes the mark off.
unfoldable pub start_vt_switch : ℤ → M Status
start_vt_switch vt d =
    let d₁ = set_seat (record d.seat { pending_vt_switch = vt }) d in
    let (r, d₂) = on_sys (vt_switch d₁.seat vt) d₁ in
    elim r [
      | ok ↦ (ok, d₂)
      | fail ↦ (fail, set_seat (record d₂.seat { pending_vt_switch = zero_int }) d₂)
    ]

unfoldable pub queue_session : ℤ → M Status
unfolding session_owner
queue_session session d = elim (session_owner d session d.seat.clients) [
  | none ↦ refuse fail einval d
  | some target ↦
      let d₁ = set_seat (record d.seat { next_client = some target }) d in
      elim d₁.seat.active_client [ none ↦ (ok, d₁) | some a ↦ (ok, (seat_disable_client a d₁).1) ]
]

-- Whether the session that is asked for is the current one already.
abbrev pub is_current : Daemon → Ptr → ℤ → Bool
is_current d p session =
    if d.seat.vt_bound then eqb_ℤ d.seat.cur_vt session else eqb_ℤ session (d.client p).session

unfoldable pub seat_set_next_session : Ptr → ℤ → M Status
unfolding start_vt_switch queue_session
seat_set_next_session p session d =
    let d₁ = assert (is_ptr d.seat.active_client p) d in
    if not (is_active (d.client p).state)
    then refuse fail eperm d
    else if not (is_pos session)
    then refuse fail einval d₁
    else if is_current d p session
    then (ok, d₁)
    else if is_pos d.seat.pending_vt_switch
    then refuse fail ebusy d₁
    else if is_some d.seat.next_client
    then (ok, d₁)
    else if d.seat.vt_bound
    then start_vt_switch session d₁
    else queue_session session d₁

unfoldable pub seat_vt_activate : M Status
seat_vt_activate d =
    let d₁ = (seat_update_vt d).1 in
    if d.seat.vt_bound then (ok, effect (ignore (vt_ack d₁.seat false)) d₁) else (fail, d)

-- DRM master is dropped before a release, unless a pending switch goes to a VT of the same client.
unfoldable pub drop_for_release : Daemon → Daemon
drop_for_release d = elim d.seat.active_client [
  | none ↦ d
  | some a ↦
      if not (is_active (d.client a).state)
      then d
      else if is_pos d.seat.pending_vt_switch && client_owns_vt d a d.seat.pending_vt_switch
      then d
      else seat_drop_client_drm_master a d
]

unfoldable pub seat_vt_release : M Status
unfolding drop_for_release
seat_vt_release d =
    let d₁ = drop_for_release (seat_update_vt d).1 in
    if d.seat.vt_bound then (ok, effect (ignore (vt_ack d₁.seat true)) d₁) else (fail, d)

unfoldable pub seat_get_active_vt : M ℤ
seat_get_active_vt d =
    let (r, d₁) = seat_update_vt d in
    if d.seat.vt_bound
    then elim r [ fail ↦ (minus_one, d₁) | ok ↦ (d₁.seat.cur_vt, d₁) ]
    else refuse minus_one einval d

unfoldable pub seat_switch_vt : ℤ → M Status
unfolding start_vt_switch
seat_switch_vt vt d =
    let (r, d₁) = seat_update_vt d in
    if not d.seat.vt_bound
    then refuse fail einval d
    else if not (is_pos vt)
    then refuse fail einval d
    else elim r [
      | fail ↦ (fail, d₁)
      | ok ↦
          if eqb_ℤ d₁.seat.cur_vt vt
          then (ok, d₁)
          else if is_pos d₁.seat.pending_vt_switch
          then refuse fail ebusy d₁
          else start_vt_switch vt d₁
    ]

-- `seat_get_server` finds the server through the first client of the seat.
unfoldable pub broadcast_change : ℤ → ℤ → Daemon → Daemon
broadcast_change old_vt new_vt d = elim d.seat.clients [
  | [] ↦ d
  | p ∷ ps ↦ control_broadcast_vt_change old_vt new_vt d
]

-- The decision at the end of `seat_handle_vt_event`.
unfoldable pub follow_vt : ℤ → Daemon → Daemon
follow_vt new_vt d = elim d.seat.active_client [
  | none ↦ (seat_activate d).1
  | some a ↦
      if client_owns_vt d a new_vt
      then seat_restore_client_drm_master a d
      else if is_active (d.client a).state
      then (seat_disable_client a d).1
      else d
]

unfoldable pub seat_handle_vt_event : ℤ → ℤ → Daemon → Daemon
unfolding broadcast_change follow_vt
seat_handle_vt_event old_vt new_vt d =
    let pending = if is_pos d.seat.pending_vt_switch then zero_int else d.seat.pending_vt_switch in
    let d₁ = set_seat (record d.seat { pending_vt_switch = pending; cur_vt = new_vt }) d in
    follow_vt new_vt (broadcast_change old_vt new_vt d₁)
