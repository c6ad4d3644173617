-- ===== src/Refine/Switching.antt =====
-- Switching sessions and VTs, and the signals and events of a VT change, as moves of the abstract seat.
use dde_seatd.Prelude.{
  ◌≡◌, refl, sym, ◌∙◌, subst, List, [], ◌∷◌, some, true, not, ◌&&◌, if◌then◌else◌, if_ind,
  Option_ind, Status_ind, arith, ℤ, is_pos, is_some, zero_int, Status, ok, fail,
}
use dde_seatd.Kernel.{eperm, ebusy, einval}
use dde_seatd.Daemon.{Ptr, Daemon, set_seat, refuse, assert, is_ptr}
use dde_seatd.Events.{control_broadcast_vt_change}
use dde_seatd.Seat.Vt.{seat_update_vt, vt_switch, client_owns_vt}
use dde_seatd.Seat.Devices.{is_active}
use dde_seatd.Seat.Switching.{
  session_owner, start_vt_switch, queue_session, is_current, seat_set_next_session,
  seat_vt_activate, drop_for_release, seat_vt_release, broadcast_change, follow_vt,
  seat_handle_vt_event,
}
use dde_seatd.Protocol.{view, has, queues, Reach, here}
use dde_seatd.Protocol.Inv.{Inv, Reach-trans, Reach-Move, Reach-eq}
use dde_seatd.Refine.Frames.{
  view-seat_update_vt, view-seat_drop_client_drm_master, view-seat_restore_client_drm_master,
  view-control_broadcast_vt_change,
}
use dde_seatd.Refine.Clients.{seat_activate-Activates, Activates-Reach}
use dde_seatd.Refine.Disabling.{seat_disable_client-Reach}

pub view-start_vt_switch : (vt : ℤ) (d : Daemon) → view (start_vt_switch vt d).1 ≡ view d
unfolding start_vt_switch
view-start_vt_switch vt d =
    Status_ind (λ (r : Status × Daemon). view r.1 ≡ view d)
      (vt_switch (record d.seat { pending_vt_switch = vt }) vt d.sys).0 (λ e. refl) (λ e. refl)

session_owner-has :
    (d : Daemon) (session : ℤ) (ps : List Ptr) (p : Ptr)
    → session_owner d session ps ≡ some p
    → has p ps ≡ true
unfolding session_owner
session_owner-has d session [] p e = cc
session_owner-has d session (q ∷ qs) p e = ground (arith, session_owner-has d session qs p)

queue_session-Reach : (session : ℤ) (d : Daemon) → Reach (view d) (view (queue_session session d).1)
unfolding queue_session
queue_session-Reach session d =
    Option_ind Outcome (session_owner d session d.seat.clients) (λ e. here)
      λ target e.
        let m : Reach (view d) (view (after target)) =
          Reach-Move (queues target (session_owner-has d session d.seat.clients target e) refl) in
        Option_ind Outcome d.seat.active_client (λ n. m)
          λ a n. Reach-trans m (seat_disable_client-Reach a (after target) n)
  where
    Outcome : Status × Daemon → Type 0
    Outcome r = Reach (view d) (view r.1)

    after : Ptr → Daemon
    after target = set_seat (record d.seat { next_client = some target }) d

-- A request to switch sessions, whatever session is asked for and whoever asks, takes the abstract
-- seat along a sequence of its moves.
pub seat_set_next_session-Reach :
    (p : Ptr) (session : ℤ) (d : Daemon)
    → Reach (view d) (view (seat_set_next_session p session d).1)
unfolding seat_set_next_session
seat_set_next_session-Reach p session d =
    if_ind Outcome (not (is_active (d.client p).state)) {x = refuse fail eperm d} (λ e. here)
      λ e₁.
        if_ind Outcome (not (is_pos session)) {x = refuse fail einval d₁} (λ e. here)
          λ e₂.
            if_ind Outcome (is_current d p session) {x = (ok, d₁)} (λ e. here)
              λ e₃.
                if_ind Outcome (is_pos d.seat.pending_vt_switch) {x = refuse fail ebusy d₁}
                  (λ e. here)
                  λ e₄.
                    if_ind Outcome (is_some d.seat.next_client) {x = (ok, d₁)} (λ e. here)
                      λ e₅.
                        if_ind Outcome d.seat.vt_bound {x = start_vt_switch session d₁}
                          {y = queue_session session d₁}
                          (λ b. Reach-eq (view-start_vt_switch session d₁))
                          (λ u. queue_session-Reach session d₁)
  where
    d₁ : Daemon
    d₁ = assert (is_ptr d.seat.active_client p) d

    Outcome : Status × Daemon → Type 0
    Outcome r = Reach (view d) (view r.1)

pub view-seat_vt_activate : (d : Daemon) → view (seat_vt_activate d).1 ≡ view d
unfolding seat_vt_activate
view-seat_vt_activate d =
    if_ind (λ (r : Status × Daemon). view r.1 ≡ view d) d.seat.vt_bound (λ b. view-seat_update_vt d)
      (λ u. refl)

view-drop_for_release : (d : Daemon) → view (drop_for_release d) ≡ view d
unfolding drop_for_release
view-drop_for_release d =
    Option_ind Same d.seat.active_client (λ n. refl)
      λ a n.
        if_ind Same (not (is_active (d.client a).state)) (λ e. refl)
          λ e.
            if_ind Same
              (is_pos d.seat.pending_vt_switch && client_owns_vt d a d.seat.pending_vt_switch)
              (λ k. refl) (λ k. view-seat_drop_client_drm_master a d)
  where
    Same : Daemon → Type 0
    Same x = view x ≡ view d

pub view-seat_vt_release : (d : Daemon) → view (seat_vt_release d).1 ≡ view d
unfolding seat_vt_release
view-seat_vt_release d =
    if_ind (λ (r : Status × Daemon). view r.1 ≡ view d) d.seat.vt_bound
      (λ b. view-drop_for_release (seat_update_vt d).1 ∙ view-seat_update_vt d) (λ u. refl)

view-broadcast_change :
    (old_vt new_vt : ℤ) (d : Daemon) → view (broadcast_change old_vt new_vt d) ≡ view d
unfolding broadcast_change
view-broadcast_change old_vt new_vt d = by_clients d.seat.clients
  where
    by_clients :
        (ps : List Ptr)
        → view (elim ps [ [] ↦ d | p ∷ rest ↦ control_broadcast_vt_change old_vt new_vt d ])
          ≡ view d
    by_clients [] = refl
    by_clients (p ∷ rest) = view-control_broadcast_vt_change old_vt new_vt d

follow_vt-Reach :
    (new_vt : ℤ) (d : Daemon) → Inv (view d) → Reach (view d) (view (follow_vt new_vt d))
unfolding follow_vt
follow_vt-Reach new_vt d i =
    Option_ind Outcome d.seat.active_client (λ n. Activates-Reach i (seat_activate-Activates d))
      λ a n.
        if_ind Outcome (client_owns_vt d a new_vt)
          (λ o. Reach-eq (view-seat_restore_client_drm_master a d))
          λ o.
            if_ind Outcome (is_active (d.client a).state) (λ s. seat_disable_client-Reach a d n)
              (λ s. here)
  where
    Outcome : Daemon → Type 0
    Outcome x = Reach (view d) (view x)

-- On a seat that satisfies the invariant, a change from any VT to any other takes the abstract seat
-- along a sequence of its moves.
pub seat_handle_vt_event-Reach :
    (old_vt new_vt : ℤ) (d : Daemon)
    → Inv (view d)
    → Reach (view d) (view (seat_handle_vt_event old_vt new_vt d))
unfolding seat_handle_vt_event
seat_handle_vt_event-Reach old_vt new_vt d i =
    Reach-trans (Reach-eq same) (follow_vt-Reach new_vt d₂ (subst Inv (sym same) i))
  where
    d₁ : Daemon
    d₁ =
        set_seat
          (record d.seat {
            pending_vt_switch =
                if is_pos d.seat.pending_vt_switch then zero_int else d.seat.pending_vt_switch;
            cur_vt = new_vt;
          })
          d

    d₂ : Daemon
    d₂ = broadcast_change old_vt new_vt d₁

    same : view d₂ ≡ view d
    same = view-broadcast_change old_vt new_vt d₁
