-- ===== src/Seat/GroupVts/Sharing.antt =====
-- seatd/seat.c: the list of grouped VTs, and how often a VT stands in it.
use dde_seatd.Prelude.{
  ◌≡◌, refl, sym, ap, subst, ◌∙◌, eqb_ℤ_refl, List, [], ◌∷◌, Option, none, some, Bool, false, ◌||◌,
  if_ind, Option_ind, Status_ind, is_some, not, is_pos, arith, ℤ, pos, eqb_ℤ, eqb_ℤ_iff, Status,
}
use mathlib.Core.Option.{some-injective}
use dde_seatd.Kernel.{Bytes}
use dde_seatd.Daemon.{Ptr, Seat, GroupVt, Daemon, on_sys}
use dde_seatd.Seat.Vt.{find_group_vt, seat_find_group_vt}
use dde_seatd.Seat.GroupVts.{
  find_free_vt, new_group_vt, add_group_vt, seat_create_group_vt, remove_group_vt,
  seat_destroy_group_vt,
}

abbrev has_vt : ℤ → List GroupVt → Bool
has_vt vt gs = is_some (find_group_vt vt gs)

-- Each VT stands in the list once.
abbrev pub DistinctVts : List GroupVt → Type 0
DistinctVts [] = Unit {0}
DistinctVts (g ∷ gs) = (find_group_vt g.vt gs ≡ none) × DistinctVts gs

-- What a request for a VT comes to.
pub record Grants (owner : Ptr) (d : Daemon) (r : Option ℤ × Daemon) : Type 0 where
  pub distinct : DistinctVts r.1.seat.group_vts
  -- a VT that is handed out was free, and is the owner's now
  pub was_free : (vt : ℤ) → r.0 ≡ some vt → find_group_vt vt d.seat.group_vts ≡ none
  pub is_owned :
      (vt : ℤ)
      → r.0 ≡ some vt
      → (g : GroupVt) × (find_group_vt vt r.1.seat.group_vts ≡ some g) × (g.owner ≡ owner)

Grants-none :
    (owner : Ptr) (d d' : Daemon)
    → DistinctVts d.seat.group_vts
    → d'.seat.group_vts ≡ d.seat.group_vts
    → Grants owner d (none, d')
Grants-none owner d d' v e = record {
  distinct = subst DistinctVts (sym e) v;
  was_free = λ vt n. cc;
  is_owned = λ vt n. ground (arith, n);
}

Grants-some :
    (owner : Ptr) (d d' : Daemon) (g : GroupVt)
    → DistinctVts d.seat.group_vts
    → find_group_vt g.vt d.seat.group_vts ≡ none
    → d'.seat.group_vts ≡ g ∷ d.seat.group_vts
    → g.owner ≡ owner
    → Grants owner d (some g.vt, d')
unfolding find_group_vt
Grants-some owner d d' g v n e o = record {
  distinct = subst DistinctVts (sym e) (n, v);
  was_free =
      λ vt s. subst (λ x. find_group_vt x d.seat.group_vts ≡ none) (some-injective g.vt vt s) n;
  is_owned = λ vt s.
      subst (λ x. (h : GroupVt) × (find_group_vt x d'.seat.group_vts ≡ some h) × (h.owner ≡ owner))
        (some-injective g.vt vt s) (g, ap (find_group_vt g.vt) e ∙ found, o);
}
  where
    found : find_group_vt g.vt (g ∷ d.seat.group_vts) ≡ some g
    found = rw (eqb_ℤ_refl g.vt) refl

none_of_is_some : {A : Type 0} (o : Option A) → is_some o ≡ false → o ≡ none
none_of_is_some none h = refl
none_of_is_some (some a) h = ground arith

add_group_vt-Grants :
    (owner : Ptr) (vt : ℤ) (user session : Bytes) (d d₀ : Daemon)
    → d.seat ≡ d₀.seat
    → DistinctVts d₀.seat.group_vts
    → Grants owner d₀ (add_group_vt owner vt user session d)
unfolding add_group_vt seat_find_group_vt
add_group_vt-Grants owner vt user session d d₀ e v =
    if_ind (Grants owner d₀)
      (eqb_ℤ vt (d.client owner).session || is_some (find_group_vt vt d.seat.group_vts))
      (λ t. Grants-none owner d₀ _ v (ap (λ (s : Seat). s.group_vts) e))
      λ t.
        Status_ind (Grants owner d₀) (new_group_vt vt d.sys).0
          (λ o.
            Grants-some owner d₀ _
              (record { owner = owner; vt = vt; user = user; session = session }) v
              (ap (λ (s : Seat). find_group_vt vt s.group_vts) (sym e)
                ∙ none_of_is_some (find_group_vt vt d.seat.group_vts) (ground (arith, t)))
              (ap
                (λ (s : Seat).
                  record { owner = owner; vt = vt; user = user; session = session } ∷ s.group_vts)
                e)
              refl)
          (λ f. Grants-none owner d₀ _ v (ap (λ (s : Seat). s.group_vts) e))

-- If no VT stands twice in the list of grouped VTs, then none does after `seat_create_group_vt`,
-- whatever is requested; and a VT that it hands out was in no group before and belongs to the owner
-- afterwards.
pub seat_create_group_vt-Grants :
    (owner : Ptr) (requested_vt : ℤ) (user session : Bytes) (d : Daemon)
    → DistinctVts d.seat.group_vts
    → Grants owner d (seat_create_group_vt owner requested_vt user session d)
unfolding seat_create_group_vt
seat_create_group_vt-Grants owner requested_vt user session d v =
    if_ind (Grants owner d) (not d.seat.vt_bound) (λ e. Grants-none owner d _ v refl)
      λ e₁.
        if_ind (Grants owner d) (not (d.client owner).in_seat) (λ e. Grants-none owner d _ v refl)
          λ e₂.
            if_ind (Grants owner d) (is_pos requested_vt)
              (λ e. add_group_vt-Grants owner requested_vt user session d d refl v)
              λ e₃.
                Option_ind (Grants owner d) (find_free_vt false d.sys).0
                  (λ n. Grants-none owner d _ v refl)
                  λ vt n.
                    add_group_vt-Grants owner (pos vt) user session
                      (on_sys (find_free_vt false) d).1 d refl v

find-remove :
    (k vt : ℤ) (gs : List GroupVt)
    → find_group_vt k gs ≡ none
    → find_group_vt k (remove_group_vt vt gs) ≡ none
unfolding find_group_vt remove_group_vt
find-remove k vt [] h = refl
find-remove k vt (g ∷ gs) h = ground (arith, find-remove k vt gs)

remove-DistinctVts :
    (vt : ℤ) (gs : List GroupVt) → DistinctVts gs → DistinctVts (remove_group_vt vt gs)
unfolding remove_group_vt
remove-DistinctVts vt [] h = tt
remove-DistinctVts vt (g ∷ gs) h =
    if_ind DistinctVts (eqb_ℤ g.vt vt) {y = g ∷ remove_group_vt vt gs} (λ e. h.1)
      (λ e. (find-remove g.vt vt gs h.0, remove-DistinctVts vt gs h.1))

remove_gone :
    (vt : ℤ) (gs : List GroupVt) → DistinctVts gs → find_group_vt vt (remove_group_vt vt gs) ≡ none
unfolding find_group_vt remove_group_vt
remove_gone vt [] h = refl
remove_gone vt (g ∷ gs) h =
    if_ind (λ (x : List GroupVt). find_group_vt vt x ≡ none) (eqb_ℤ g.vt vt)
      {y = g ∷ remove_group_vt vt gs}
      (λ e. subst (λ x. find_group_vt x gs ≡ none) ((eqb_ℤ_iff g.vt vt).0 e) h.0)
      (λ e. ground (arith, e, remove_gone vt gs h.1))

-- If no VT stands twice in the list of grouped VTs, then after `seat_destroy_group_vt` of a VT,
-- whether it succeeds or not, none does, and that VT is in no group.
pub seat_destroy_group_vt-gone :
    (vt : ℤ) (d : Daemon)
    → DistinctVts d.seat.group_vts
    → let d' = (seat_destroy_group_vt vt d).1 in
      DistinctVts d'.seat.group_vts × (seat_find_group_vt d'.seat vt ≡ none)
unfolding seat_destroy_group_vt seat_find_group_vt
seat_destroy_group_vt-gone vt d v =
    Option_ind Outcome (find_group_vt vt d.seat.group_vts) (λ n. (v, n))
      λ g n.
        if_ind
          (λ (x : Daemon).
            DistinctVts x.seat.group_vts × (find_group_vt vt x.seat.group_vts ≡ none))
          d.seat.vt_bound (λ b. removed) (λ b. removed)
  where
    Outcome : Status × Daemon → Type 0
    Outcome r = DistinctVts r.1.seat.group_vts × (find_group_vt vt r.1.seat.group_vts ≡ none)

    removed :
        DistinctVts (remove_group_vt vt d.seat.group_vts)
        × (find_group_vt vt (remove_group_vt vt d.seat.group_vts) ≡ none)
    removed = (remove-DistinctVts vt d.seat.group_vts v, remove_gone vt d.seat.group_vts v)
