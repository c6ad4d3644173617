-- ===== src/Refine/Disabling.antt =====
-- Disabling a client, and its acknowledgement, as moves of the abstract seat.
use dde_seatd.Prelude.{if_ind, ◌≡◌, ap, ◌∙◌, none, some, false, not, ◌&&◌, arith, Status, ok}
use dde_seatd.Daemon.{
  Ptr, client_pending_disable, client_disabled, Daemon, set_seat, assert, is_ptr,
}
use dde_seatd.Events.{client_send_disable_seat}
use dde_seatd.Seat.Devices.{is_active}
use dde_seatd.Seat.Clients.{
  is_pending_disable, set_state, deactivate_devices, seat_activate, seat_disable_client,
  seat_ack_disable_client,
}
use dde_seatd.Protocol.{view, disabled, disables, acks, Reach, here}
use dde_seatd.Protocol.Inv.{Inv, Reach-Inv, Reach-trans, Reach-Move}
use dde_seatd.Refine.Frames.{view-deactivate_devices, view-client_send_disable_seat}
use dde_seatd.Refine.Clients.{
  view-set_state, with_active, Activates, seat_activate-Activates, Activates-Reach,
}

pub seat_disable_client-Reach :
    (p : Ptr) (d : Daemon)
    → d.seat.active_client ≡ some p
    → Reach (view d) (view (seat_disable_client p d).1)
unfolding seat_disable_client
seat_disable_client-Reach p d a =
    if_ind (λ (r : Status × Daemon). Reach (view d) (view r.1)) (is_active (d.client p).state)
      (λ s. Reach-Move (disables p a (ground arith) changed)) (λ s. here)
  where
    ready : Daemon
    ready = deactivate_devices p (assert ((d.client p).in_seat && is_ptr d.seat.active_client p) d)

    same : view ready ≡ view d
    same =
        view-deactivate_devices p (assert ((d.client p).in_seat && is_ptr d.seat.active_client p) d)

    changed :
        view (client_send_disable_seat p (set_state p client_pending_disable ready)).1
        ≡ disabled p (view d)
    changed =
        view-client_send_disable_seat p (set_state p client_pending_disable ready)
        ∙ view-set_state p client_pending_disable ready
        ∙ ap (disabled p) same

-- On a seat that satisfies the invariant, the acknowledgement of a disable, with the activation of
-- the next client that follows it, takes the abstract seat along a sequence of its moves.
pub seat_ack_disable_client-Reach :
    (p : Ptr) (d : Daemon) → Inv (view d) → Reach (view d) (view (seat_ack_disable_client p d).1)
unfolding seat_ack_disable_client
seat_ack_disable_client-Reach p d i =
    if_ind Outcome (not (is_pending_disable (d.client p).state)) (λ e. here)
      λ e.
        if_ind Outcome (is_ptr d.seat.active_client p)
          (λ a. acked_then e (seat_activate-Activates cleared))
          (λ a. absurd (ground (arith, i.live_active p)))
  where
    cleared : Daemon
    cleared = set_seat (record d.seat { active_client = none }) (set_state p client_disabled d)

    Outcome : Status × Daemon → Type 0
    Outcome r = Reach (view d) (view r.1)

    acked_then :
        not (is_pending_disable (d.client p).state) ≡ false
        → Activates (view cleared) (view (seat_activate cleared).1)
        → Outcome (ok, (seat_activate cleared).1)
    acked_then e act =
        let m : Reach (view d) (view cleared) = Reach-Move (
          acks p (ground (arith, i.live_active p)) (ground arith)
            (ap (with_active none) (view-set_state p client_disabled d))) in
        Reach-trans m (Activates-Reach (Reach-Inv i m) act)
