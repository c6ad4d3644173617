-- ===== src/Refine/Removal.antt =====
-- `seat_remove_client`, which hands the seat to the next client before it marks the old one as closed,
-- as moves of the abstract seat.
use dde_seatd.Prelude.{
  ◌≡◌, refl, sym, ap, ◌∙◌, subst, fun_ext, none, some, Bool, true, false, not, ◌&&◌, ◌==◌, ==_iff,
  if_ind, arith, ℤ, is_some,
}
use dde_seatd.Daemon.{
  Ptr, ClientState, client_active, client_closed, Client, Daemon, update, set_client, set_seat,
  is_ptr, remove,
}
use dde_seatd.Seat.Clients.{
  is_closed, when, seat_activate, close_devices, drop_owned_vts, unlink, release_vt,
  seat_remove_client,
}
use dde_seatd.Protocol.{
  View, view, clear, opened, queued, removed, opens, dequeues, removes, Reach, here, next,
}
use dde_seatd.Protocol.Inv.{Inv, Reach-Inv, Reach-Move, has-remove}
use dde_seatd.Refine.Frames.{view-close_devices, view-drop_owned_vts}
use dde_seatd.Refine.Clients.{
  with_active, Activates, stays, drops, takes_queued, takes, seat_activate-Activates,
}

-- The last two assignments of `seat_remove_client`.
abbrev closed : Ptr → View → View
closed p v = record v { state = update v.state p client_closed; in_seat = update v.in_seat p false }

abbrev unlinked : Ptr → View → View
unlinked p v = record v { clients = remove p v.clients; next = clear v.next p }

-- With `p` off the list and no longer active, but not yet marked.
abbrev leaving : Ptr → View → View
leaving p v = record (unlinked p v) { active = clear v.active p }

-- Another client is opened before or after the mark.
closed-opened :
    (p q : Ptr) (v : View) → (p == q) ≡ false → closed p (opened q v) ≡ opened q (closed p v)
closed-opened p q v h =
    ap (λ (s : Ptr → ClientState). record (closed p v) { active = some q; state = s }) swapped
  where
    swapped :
        ◌≡◌ {A = Ptr → ClientState}
          (update (update v.state q client_active) p client_closed)
          (update (update v.state p client_closed) q client_active)
    swapped = fun_ext λ r. ground (arith, ==_iff p r, ==_iff q r)

closing :
    {v w : View} (p : Ptr)
    → Inv v
    → v.in_seat p ≡ true
    → Activates (leaving p v) w
    → Reach v (closed p w)
closing {v} p i h (stays e) = Reach-Move (removes p h (ap (closed p) e))
closing {v} p i h (drops e) = next (next here (removes p h refl)) (dequeues (ap (closed p) e))
closing {v} p i h (takes_queued q n s a e) =
    next
      (next (next here (removes p h refl))
        (opens q (gone.next_in q n) (ground (arith, other)) a refl))
      (dequeues (ap (closed p) e ∙ closed-opened p q (queued none (leaving p v)) other))
  where
    gone : Inv (removed p v)
    gone = Reach-Inv i (Reach-Move (removes p h refl))

    other : (p == q) ≡ false
    other = ground arith
closing {v} p i h (takes q l s a e) =
    next (next here (removes p h refl)) (
      opens q l (ground (arith, other)) a (ap (closed p) e ∙ closed-opened p q (leaving p v) other))
  where
    other : (p == q) ≡ false
    other = ground (arith, has-remove p q v.clients i.distinct)

view-closed :
    (p : Ptr) (d : Daemon)
    → view (set_client p (record (d.client p) { state = client_closed; in_seat = false }) d)
      ≡ closed p (view d)
view-closed p d = λ i. record {
  clients = d.seat.clients;
  idle = d.idle_clients;
  active = d.seat.active_client;
  next = d.seat.next_client;
  state = states i;
  in_seat = members i;
  session = sessions i;
}
  where
    changed : Ptr → Client
    changed = update d.client p (record (d.client p) { state = client_closed; in_seat = false })

    states :
        ◌≡◌ {A = Ptr → ClientState}
          (λ q. (changed q).state)
          (update (λ q. (d.client q).state) p client_closed)
    states = fun_ext λ q. ground arith

    members :
        ◌≡◌ {A = Ptr → Bool} (λ q. (changed q).in_seat) (update (λ q. (d.client q).in_seat) p false)
    members = fun_ext λ q. ground arith

    sessions : ◌≡◌ {A = Ptr → ℤ} (λ q. (changed q).session) (λ q. (d.client q).session)
    sessions = fun_ext λ q. ground arith

view-release_vt : (p : Ptr) (b : Bool) (d : Daemon) → view (release_vt p b d) ≡ view d
unfolding release_vt
view-release_vt p true d =
    if_ind (λ (x : Daemon). view x ≡ view d) (d.seat.vt_bound && not (is_some d.seat.active_client))
      (λ e. refl) (λ e. refl)
view-release_vt p false d =
    if_ind (λ (x : Daemon). view x ≡ view d) (d.seat.vt_bound && not (is_closed (d.client p).state))
      (λ e. refl) (λ e. refl)

-- The old client is marked in the state that an activation left.
seat_remove_client-closed :
    (p : Ptr) (d : Daemon)
    → (w : View) × Activates (leaving p (view d)) w × (view (seat_remove_client p d) ≡ closed p w)
unfolding seat_remove_client unlink
seat_remove_client-closed p d =
    (view d₂, if_ind Outcome (is_ptr d₁.seat.active_client p) current other, final)
  where
    d₁ : Daemon
    d₁ = drop_owned_vts p (close_devices p (unlink p d))

    same : view d₁ ≡ unlinked p (view d)
    same = view-drop_owned_vts p (close_devices p (unlink p d)) ∙ view-close_devices p (unlink p d)

    cleared : Daemon
    cleared = set_seat (record d₁.seat { active_client = none }) d₁

    Outcome : Daemon → Type 0
    Outcome x = Activates (leaving p (view d)) (view x)

    same_active : d₁.seat.active_client ≡ d.seat.active_client
    same_active = ap (λ (v : View). v.active) same

    current : is_ptr d₁.seat.active_client p ≡ true → Outcome (seat_activate cleared).1
    current c =
        subst (λ v. Activates v (view (seat_activate cleared).1))
          (ap (with_active none) same
            ∙ ap (λ a. with_active a (unlinked p (view d))) (ground (arith, same_active)))
          (seat_activate-Activates cleared)

    other : is_ptr d₁.seat.active_client p ≡ false → Outcome d₁
    other c =
        stays (same ∙ ap (λ a. with_active a (unlinked p (view d))) (ground (arith, same_active)))

    d₂ : Daemon
    d₂ = when (is_ptr d₁.seat.active_client p) (λ x. (seat_activate cleared).1) d₁

    d₃ : Daemon
    d₃ = release_vt p (is_ptr d₁.seat.active_client p) d₂

    final : view (seat_remove_client p d) ≡ closed p (view d₂)
    final = view-closed p d₃ ∙ ap (closed p) (view-release_vt p (is_ptr d₁.seat.active_client p) d₂)

-- On a seat that satisfies the invariant, removing a client that is on it takes the abstract seat
-- along a sequence of moves, although the code opens the next client before it marks the removed
-- one as closed.
pub seat_remove_client-Reach :
    (p : Ptr) (d : Daemon)
    → Inv (view d)
    → (d.client p).in_seat ≡ true
    → Reach (view d) (view (seat_remove_client p d))
seat_remove_client-Reach p d i h =
    let (w, act, e) = seat_remove_client-closed p d in
    subst (Reach (view d)) (sym e) (closing p i h act)

-- A removed client is off the seat.
pub out_after_removal : (p : Ptr) (d : Daemon) → ((seat_remove_client p d).client p).in_seat ≡ false
unfolding seat_remove_client
out_after_removal p d = ground (arith, ==_iff p p)

-- Opening another client does not touch the idle list.
Activates-idle : {v w : View} → Activates v w → w.idle ≡ v.idle
Activates-idle (stays e) = ap (λ (u : View). u.idle) e
Activates-idle (drops e) = ap (λ (u : View). u.idle) e
Activates-idle (takes_queued q n s a e) = ap (λ (u : View). u.idle) e
Activates-idle (takes q l s a e) = ap (λ (u : View). u.idle) e

pub idle_after_removal :
    (p : Ptr) (d : Daemon) → (seat_remove_client p d).idle_clients ≡ d.idle_clients
idle_after_removal p d =
    let (w, act, e) = seat_remove_client-closed p d in
    ap (λ (u : View). u.idle) e ∙ Activates-idle act

-- Nor the list of clients.
Activates-clients : {v w : View} → Activates v w → w.clients ≡ v.clients
Activates-clients (stays e) = ap (λ (u : View). u.clients) e
Activates-clients (drops e) = ap (λ (u : View). u.clients) e
Activates-clients (takes_queued q n s a e) = ap (λ (u : View). u.clients) e
Activates-clients (takes q l s a e) = ap (λ (u : View). u.clients) e

pub clients_after_removal :
    (p : Ptr) (d : Daemon) → (seat_remove_client p d).seat.clients ≡ remove p d.seat.clients
clients_after_removal p d =
    let (w, act, e) = seat_remove_client-closed p d in
    ap (λ (u : View). u.clients) e ∙ Activates-clients act
