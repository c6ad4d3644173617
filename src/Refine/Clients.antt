-- ===== src/Refine/Clients.antt =====
-- Opening a client, and activating the seat, as moves of the abstract seat.
use dde_seatd.Prelude.{
  if_ind, Option_ind, Status_ind, ◌≡◌, refl, ap, ◌∙◌, fun_ext, inl, inr, ◌⊎◌, List, [], ◌∷◌, Option,
  none, some, Bool, true, false, not, arith, Status-cases, ℤ, is_some, Status,
}
use dde_seatd.Daemon.{
  Ptr, ClientState, client_active, Client, Daemon, update, set_seat, on_sys, assert,
}
use dde_seatd.Events.{client_send_enable_seat}
use dde_seatd.Seat.Vt.{vt_open, vt_for_client_open}
use dde_seatd.Seat.Clients.{
  is_new_or_disabled, set_state, activate_devices, deactivate_devices, close_vt, when,
  enable_client, seat_open_client, first_owner, first_client, candidate, seat_activate,
}
use dde_seatd.Protocol.{View, view, has, opened, queued, opens, dequeues, Reach, here, next}
use dde_seatd.Protocol.Inv.{Inv, Reach-Move, Reach-eq}
use dde_seatd.Refine.Frames.{
  view-activate_devices, view-deactivate_devices, view-client_send_enable_seat,
}

-- A client in another state.
pub view-set_state :
    (p : Ptr) (state : ClientState) (d : Daemon)
    → view (set_state p state d) ≡ record (view d) { state = update (view d).state p state }
view-set_state p state d = λ i. record {
  clients = d.seat.clients;
  idle = d.idle_clients;
  active = d.seat.active_client;
  next = d.seat.next_client;
  state = states i;
  in_seat = members i;
  session = sessions i;
}
  where
    changed : Ptr → Client
    changed = update d.client p (record (d.client p) { state = state })

    states :
        ◌≡◌ {A = Ptr → ClientState}
          (λ q. (changed q).state)
          (update (λ q. (d.client q).state) p state)
    states = fun_ext λ q. ground arith

    members : ◌≡◌ {A = Ptr → Bool} (λ q. (changed q).in_seat) (λ q. (d.client q).in_seat)
    members = fun_ext λ q. ground arith

    sessions : ◌≡◌ {A = Ptr → ℤ} (λ q. (changed q).session) (λ q. (d.client q).session)
    sessions = fun_ext λ q. ground arith

-- What opening a client comes to: nothing, or the client is active and was allowed to be.
pub data Opens (p : Ptr) (v w : View) : Type 0 where
  refused : w ≡ v → Opens p v w
  granted : is_new_or_disabled (v.state p) ≡ true → v.active ≡ none → w ≡ opened p v → Opens p v w

-- The view with another active client.
abbrev pub with_active : Option Ptr → View → View
with_active o v = record v { active = o }

abbrev activated : Ptr → View → View
activated p v = record v { active = some p }

view-when-close_vt : (b : Bool) (vt : ℤ) (d : Daemon) → view (when b (close_vt vt) d) ≡ view d
view-when-close_vt true vt d = refl
view-when-close_vt false vt d = refl

enable_client-view :
    (p : Ptr) (vt : ℤ) (d : Daemon)
    → (view (enable_client p vt d).1 ≡ view d) ⊎ (view (enable_client p vt d).1 ≡ opened p (view d))
unfolding enable_client
enable_client-view p vt d =
    elim (Status-cases (client_send_enable_seat p (activate_devices p d)).0) [
      | inr e ↦ inl (rw (e, enable_client) refused_view)
      | inl e ↦ inr (
          rw (e, enable_client)
            (ap (activated p) (view-set_state p client_active sent) ∙ ap (opened p) same))
    ]
  where
    sent : Daemon
    sent = (client_send_enable_seat p (activate_devices p d)).1

    same : view sent ≡ view d
    same = view-client_send_enable_seat p (activate_devices p d) ∙ view-activate_devices p d

    refused_view : view (when sent.seat.vt_bound (close_vt vt) (deactivate_devices p sent)) ≡ view d
    refused_view =
        view-when-close_vt sent.seat.vt_bound vt (deactivate_devices p sent)
        ∙ view-deactivate_devices p sent
        ∙ same

-- `seat_open_client` leaves the abstract seat as it is or makes the client active, the latter only
-- if no client was active and this one was new or disabled.
pub seat_open_client-Opens :
    (p : Ptr) (d : Daemon) → Opens p (view d) (view (seat_open_client p d).1)
unfolding seat_open_client
seat_open_client-Opens p d =
    if_ind Outcome (not (is_new_or_disabled (d.client p).state)) (λ e. refused refl)
      λ e.
        if_ind Outcome (is_some d.seat.active_client) (λ n. refused refl)
          λ n.
            if_ind Outcome d.seat.vt_bound
              (λ b.
                Status_ind Outcome (vt_open open_vt checked.sys).0
                  (λ o. enabled (ground arith) (ground arith) opened_vt refl) (λ f. refused refl))
              (λ u. enabled (ground arith) (ground arith) checked refl)
  where
    open_vt : ℤ
    open_vt = vt_for_client_open d p

    checked : Daemon
    checked = assert (d.client p).in_seat d

    opened_vt : Daemon
    opened_vt = (on_sys (vt_open open_vt) checked).1

    Outcome : Status × Daemon → Type 0
    Outcome r = Opens p (view d) (view r.1)

    enabled :
        is_new_or_disabled (d.client p).state ≡ true
        → d.seat.active_client ≡ none
        → (d' : Daemon) → view d' ≡ view d
        → Opens p (view d) (view (enable_client p open_vt d').1)
    enabled e n d' same = elim (enable_client-view p open_vt d') [
      | inl r ↦ refused (r ∙ same)
      | inr g ↦ granted e n (g ∙ ap (opened p) same)
    ]

-- What `seat_activate` comes to: the queue may be taken up, and a client of the list or the queued one
-- may be opened.
pub data Activates (v w : View) : Type 0 where
  stays : w ≡ v → Activates v w
  drops : w ≡ queued none v → Activates v w
  takes_queued :
      (p : Ptr)
      → v.next ≡ some p
      → is_new_or_disabled (v.state p) ≡ true
      → v.active ≡ none
      → w ≡ opened p (queued none v)
      → Activates v w
  takes :
      (p : Ptr)
      → has p v.clients ≡ true
      → is_new_or_disabled (v.state p) ≡ true
      → v.active ≡ none
      → w ≡ opened p v
      → Activates v w

first_owner-has :
    (d : Daemon) (vt : ℤ) (ps : List Ptr) (p : Ptr) → first_owner d vt ps ≡ some p → has p ps ≡ true
unfolding first_owner
first_owner-has d vt [] p e = cc
first_owner-has d vt (q ∷ qs) p e = ground (arith, first_owner-has d vt qs p)

first_client-has : (ps : List Ptr) (p : Ptr) → first_client ps ≡ some p → has p ps ≡ true
first_client-has [] p e = cc
first_client-has (q ∷ qs) p e = ground arith

candidate-has : (d : Daemon) (p : Ptr) → candidate d ≡ some p → has p d.seat.clients ≡ true
unfolding candidate
candidate-has d p e =
    ground
      (arith, first_owner-has d d.seat.cur_vt d.seat.clients p, first_client-has d.seat.clients p)

-- `seat_activate` leaves the abstract seat as it is, or empties the queue, or opens the queued
-- client and empties the queue, or opens a client of the seat's list; it opens one only if none is
-- active and the client is new or disabled.
pub seat_activate-Activates : (d : Daemon) → Activates (view d) (view (seat_activate d).1)
unfolding seat_activate
seat_activate-Activates d =
    Option_ind Outcome d.seat.active_client
      (λ a.
        Option_ind Outcome d.seat.next_client
          (λ n.
            Option_ind Outcome (candidate d) (λ c. stays refl)
              λ p c. unqueued p c (seat_open_client-Opens p d))
          λ p n. from_queue p n (seat_open_client-Opens p dequeued))
      λ p a. stays refl
  where
    Outcome : Status × Daemon → Type 0
    Outcome r = Activates (view d) (view r.1)

    dequeued : Daemon
    dequeued = set_seat (record d.seat { next_client = none }) d

    unqueued :
        (p : Ptr)
        → candidate d ≡ some p
        → Opens p (view d) (view (seat_open_client p d).1)
        → Outcome (seat_open_client p d)
    unqueued p c (refused e) = stays e
    unqueued p c (granted s a e) = takes p (candidate-has d p c) s a e

    from_queue :
        (p : Ptr)
        → d.seat.next_client ≡ some p
        → Opens p (view dequeued) (view (seat_open_client p dequeued).1)
        → Outcome (seat_open_client p dequeued)
    from_queue p n (refused e) = drops e
    from_queue p n (granted s a e) = takes_queued p n s a e

-- With the invariant an activation is made of moves.
pub Activates-Reach : {v w : View} → Inv v → Activates v w → Reach v w
Activates-Reach i (stays e) = Reach-eq e
Activates-Reach i (drops e) = Reach-Move (dequeues e)
Activates-Reach i (takes_queued p n s a e) =
    next (next here (opens p (i.next_in p n) s a refl)) (dequeues e)
Activates-Reach i (takes p h s a e) = Reach-Move (opens p h s a e)
