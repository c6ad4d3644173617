-- ===== src/Refine/Adding.antt =====
-- Adding a client to the seat, as a move of the abstract seat.
use dde_seatd.Prelude.{
  if_ind, Option_ind, ℕ, ◌+◌, ◌≡◌, refl, ap, ◌∙◌, fun_ext, ◌∷◌, some, Bool, true, false, not, ◌&&◌,
  ==_iff, arith, ℤ, pos, eqb_ℤ, eqb_ℤ_iff, minus_one, zero, suc, is_some, length, Status, ok, fail,
}
use dde_seatd.Kernel.{ebusy, einval}
use dde_seatd.Daemon.{refuse, Ptr, ClientState, Client, Daemon, update, remove}
use dde_seatd.Seat.Vt.{seat_update_vt}
use dde_seatd.Seat.Clients.{
  has_session, free_session, enrol, add_to_vt, add_unbound, is_held, seat_add_client,
}
use dde_seatd.Protocol.{view, has, enrolled, enrols, Reach, here}
use dde_seatd.Protocol.Inv.{Reach-Move, Reach-eq}
use dde_seatd.Refine.Frames.{view-seat_update_vt}

-- `free_session` ends with a number that no client of the seat has.
free_session-fresh :
    (fuel : ℕ) (d : Daemon) (first n : ℕ)
    → free_session fuel d first ≡ some n
    → has_session d (pos n) d.seat.clients ≡ false
unfolding free_session
free_session-fresh zero d first n e = cc
free_session-fresh (suc fuel) d first n e = ground (arith, free_session-fresh fuel d (first + 1) n)

view-enrol : (p : Ptr) (n : ℤ) (d : Daemon) → view (enrol p n d) ≡ enrolled p n (view d)
unfolding enrol
view-enrol p n d = λ i. record {
  clients = p ∷ d.seat.clients;
  idle = remove p d.idle_clients;
  active = d.seat.active_client;
  next = d.seat.next_client;
  state = states i;
  in_seat = members i;
  session = sessions i;
}
  where
    changed : Ptr → Client
    changed = update d.client p (record (d.client p) { in_seat = true; session = n })

    states : ◌≡◌ {A = Ptr → ClientState} (λ q. (changed q).state) (λ q. (d.client q).state)
    states = fun_ext λ q. ground arith

    members :
        ◌≡◌ {A = Ptr → Bool} (λ q. (changed q).in_seat) (update (λ q. (d.client q).in_seat) p true)
    members = fun_ext λ q. ground arith

    sessions : ◌≡◌ {A = Ptr → ℤ} (λ q. (changed q).session) (update (λ q. (d.client q).session) p n)
    sessions = fun_ext λ q. ground arith

enrol-Reach :
    (p : Ptr) (n : ℤ) (d d' : Daemon)
    → view d' ≡ view d
    → (d.client p).in_seat ≡ false
    → (d.client p).session ≡ minus_one
    → eqb_ℤ n minus_one ≡ false
    → Reach (view d) (view (enrol p n d'))
enrol-Reach p n d d' same out s m =
    Reach-Move (enrols p n out s m (view-enrol p n d' ∙ ap (enrolled p n) same))

module _ (p : Ptr) (d : Daemon) (out : (d.client p).in_seat ≡ false)
    (unused : (d.client p).session ≡ minus_one) where
  add_to_vt-Reach : Reach (view d) (view (add_to_vt p d).1)
  unfolding add_to_vt
  add_to_vt-Reach =
      if_ind Outcome (eqb_ℤ d₁.seat.cur_vt minus_one) (λ e. Reach-eq same)
        λ m.
          if_ind Outcome
            (is_some d₁.seat.active_client && has_session d₁ d₁.seat.cur_vt d₁.seat.clients)
            (λ e. Reach-eq same) (λ e. enrol-Reach p d₁.seat.cur_vt d d₁ same out unused m)
    where
      Outcome : Status × Daemon → Type 0
      Outcome r = Reach (view d) (view r.1)

      d₁ : Daemon
      d₁ = (seat_update_vt d).1

      same : view d₁ ≡ view d
      same = view-seat_update_vt d

  add_unbound-Reach : Reach (view d) (view (add_unbound p d).1)
  unfolding add_unbound
  add_unbound-Reach =
      Option_ind (λ (r : Status × Daemon). Reach (view d) (view r.1))
        (free_session (length d.seat.clients + 1) d 1) (λ e. here)
        (λ n e. enrol-Reach p (pos n) d d refl out unused refl)

-- Adding a client, whether it is refused or not, takes the abstract seat along a sequence of its
-- moves, of which the one that lets a client join asks that it is off the seat, has had no session
-- and gets one other than -1.
pub seat_add_client-Reach : (p : Ptr) (d : Daemon) → Reach (view d) (view (seat_add_client p d).1)
unfolding seat_add_client
seat_add_client-Reach p d =
    if_ind Outcome (d.client p).in_seat {x = refuse fail ebusy d} (λ e. here)
      λ out.
        if_ind Outcome (d.seat.vt_bound && is_held d d.seat.active_client) {x = refuse fail ebusy d}
          (λ e. here)
          λ h.
            if_ind Outcome (not (eqb_ℤ (d.client p).session minus_one)) {x = refuse fail einval d}
              (λ e. here)
              λ s.
                if_ind Outcome d.seat.vt_bound {x = add_to_vt p d} {y = add_unbound p d}
                  (λ b. add_to_vt-Reach p d out (unused s))
                  (λ u. add_unbound-Reach p d out (unused s))
  where
    Outcome : Status × Daemon → Type 0
    Outcome r = Reach (view d) (view r.1)

    unused : not (eqb_ℤ (d.client p).session minus_one) ≡ false → (d.client p).session ≡ minus_one
    unused s = (eqb_ℤ_iff (d.client p).session minus_one).0 (ground arith)

enrol-has : (p : Ptr) (n : ℤ) (d : Daemon) → has p (enrol p n d).seat.clients ≡ true
unfolding enrol
enrol-has p n d = ground (arith, ==_iff p p)

-- A client whose addition succeeded is on the list.
abbrev pub Lists : Ptr → Status × Daemon → Type 0
Lists p r = r.0 ≡ ok → has p r.1.seat.clients ≡ true

add_to_vt-has : (p : Ptr) (d : Daemon) → Lists p (add_to_vt p d)
unfolding add_to_vt
add_to_vt-has p d =
    if_ind (Lists p) (eqb_ℤ d₁.seat.cur_vt minus_one) (λ e. cc)
      λ m.
        if_ind (Lists p)
          (is_some d₁.seat.active_client && has_session d₁ d₁.seat.cur_vt d₁.seat.clients) (λ e. cc)
          (λ e o. enrol-has p d₁.seat.cur_vt d₁)
  where
    d₁ : Daemon
    d₁ = (seat_update_vt d).1

add_unbound-has : (p : Ptr) (d : Daemon) → Lists p (add_unbound p d)
unfolding add_unbound
add_unbound-has p d =
    Option_ind (Lists p) (free_session (length d.seat.clients + 1) d 1) (λ e. cc)
      (λ n e o. enrol-has p (pos n) d)

pub seat_add_client-has : (p : Ptr) (d : Daemon) → Lists p (seat_add_client p d)
unfolding seat_add_client
seat_add_client-has p d =
    if_ind (Lists p) (d.client p).in_seat {x = refuse fail ebusy d} (λ e. cc)
      λ out.
        if_ind (Lists p) (d.seat.vt_bound && is_held d d.seat.active_client)
          {x = refuse fail ebusy d} (λ e. cc)
          λ h.
            if_ind (Lists p) (not (eqb_ℤ (d.client p).session minus_one)) {x = refuse fail einval d}
              (λ e. cc)
              λ s.
                if_ind (Lists p) d.seat.vt_bound {x = add_to_vt p d} {y = add_unbound p d}
                  (λ b. add_to_vt-has p d) (λ u. add_unbound-has p d)
