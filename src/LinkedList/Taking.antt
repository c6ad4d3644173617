-- ===== src/LinkedList/Taking.antt =====
-- common/linked_list.c: `linked_list_take` moves one list in front of another.
use dde_seatd.Prelude.{
  ◌≡◌, refl, sym, ap, subst, List, [], ◌∷◌, ◌++◌, true, false, ◌==◌, ◌||◌, if◌then◌else◌, if_ind,
  arith,
}
use dde_seatd.Daemon.{Ptr}
use dde_seatd.Protocol.{has}
use dde_seatd.Protocol.Inv.{Distinct}
use dde_seatd.LinkedList.{Store, null, linked_list_init, linked_list_empty, linked_list_take}
use dde_seatd.LinkedList.Chains.{Chain, has-apart, Chain-frame, has-first, has-last}
use dde_seatd.LinkedList.Refine.{IsList}

has-append : (q : Ptr) (xs ys : List Ptr) → has q (xs ++ ys) ≡ (has q xs || has q ys)
has-append q [] ys = refl
has-append q (x ∷ xs) ys = ground (arith, has-append q xs ys)

-- No address stands in both lists.
abbrev pub Disjoint : List Ptr → List Ptr → Type 0
Disjoint xs ys = (q : Ptr) → has q xs ≡ true → has q ys ≡ false

append-Distinct :
    (xs ys : List Ptr) → Distinct xs → Distinct ys → Disjoint xs ys → Distinct (xs ++ ys)
append-Distinct [] ys d e j = e
append-Distinct (x ∷ xs) ys d e j = (
  ground (arith, has-append x xs ys, d.0, j x),
  append-Distinct xs ys d.1 e (λ q m. j q (ground (arith, m))),
)

module _ (t s : Ptr) (h : Store) where
  -- What taking a list that is not empty writes.
  record Taken (h' : Store) : Type 0 where
    next :
        (q : Ptr)
        → h'.next q ≡ (
            if s == q
            then s
            else if t == q
            then h.next s
            else if h.prev s == q
            then h.next t
            else h.next q)
    prev :
        (q : Ptr)
        → h'.prev q ≡ (
            if s == q
            then s
            else if h.next t == q
            then h.prev s
            else if h.next s == q
            then t
            else h.prev q)
    failed : h'.failed ≡ h.failed

  take-Taken :
      (h.next s == s) ≡ false
      → (h.prev s == s) ≡ false
      → (h.prev s == t) ≡ false
      → (s == t) ≡ false
      → (h.next t == s) ≡ false
      → (s == null) ≡ false
      → (t == null) ≡ false
      → (h.next s == null) ≡ false
      → (h.prev s == null) ≡ false
      → (h.next t == null) ≡ false
      → Taken (linked_list_take t s h)
  unfolding linked_list_take linked_list_empty linked_list_init
  take-Taken a b c d e f g i j k = record {
    next = λ q. ground arith;
    prev = λ q. ground arith;
    failed = ground arith;
  }

  module _ {h' : Store} (w : Taken h') (ts : List Ptr) where
    -- The old elements follow the last one of the list that is taken.
    tail-Chain :
        (us : List Ptr)
        → Chain h t us t
        → Distinct (t ∷ us)
        → has s (t ∷ us) ≡ false
        → has (h.prev s) (s ∷ t ∷ us) ≡ false
        → has (h.next s) (t ∷ us) ≡ false
        → Chain h' (h.prev s) us t
    tail-Chain [] c d n y x = (ground (arith, w.next (h.prev s)), ground (arith, w.prev t))
    tail-Chain (u ∷ us) c d n y x = (
      ground (arith, w.next (h.prev s)),
      ground (arith, w.prev u),
      Chain-frame h h' u us t
          (λ q m.
            ground
              (arith, w.next q, m, d.0, has-apart q s (u ∷ us), has-apart q (h.prev s) (u ∷ us)))
          (λ q m. ground (arith, w.prev q, m, d.1.0, has-apart q s us, has-apart q (h.next s) us))
          c.2,
    )

    taken-Chain :
        (a : Ptr) (ss : List Ptr)
        → Chain h' (h.prev s) ts t
        → Chain h a ss s
        → Distinct (a ∷ ss)
        → has s (a ∷ ss) ≡ false
        → Disjoint (a ∷ ss) (t ∷ ts)
        → has (h.next t) (t ∷ ts) ≡ true
        → has (h.next s) ss ≡ false
        → Chain h' a (ss ++ ts) t
    taken-Chain a [] r c d n j f x = subst (λ q. Chain h' q ts t) c.1 r
    taken-Chain a (b ∷ bs) r c d n j f x = (
      ground (arith, w.next a, n, j a, has-apart (h.prev s) a (b ∷ bs) (has-last h b bs s c.2) d.0),
      ground (arith, w.prev b, n, x, has-apart (h.next t) b (t ∷ ts) f (j b (ground arith))),
      taken-Chain b bs r c.2 d.1 (ground (arith, n)) (λ q m. j q (ground (arith, m))) f
          (ground (arith, x)),
    )

-- Pointers of what stands in neither list are as before.
abbrev pub Elsewhere : Store → Store → List Ptr → List Ptr → Type 0
Elsewhere h h' ts ss =
    (q : Ptr)
    → has q ts ≡ false
    → has q ss ≡ false
    → (h'.next q ≡ h.next q) × (h'.prev q ≡ h.prev q)

take_nothing : (t s : Ptr) (h : Store) → IsList h s [] → linked_list_take t s h ≡ h
unfolding linked_list_take linked_list_empty
take_nothing t s h j =
    if_ind (λ (h' : Store). h' ≡ h) (h.next s == s)
      (λ e. ap (λ f. record h { failed = f }) (ground (arith, j.chain.0, j.chain.1, j.real)))
      (λ f. absurd (ground (arith, f, j.chain.0)))

-- For two lists without a common address, `linked_list_take` puts all elements of the source in
-- front of those of the target, in their order, and leaves the source empty, also if one or both
-- had no elements; it fails no assertion and changes no pointer of what is on neither list.
pub take-IsList :
    (t s : Ptr) (ts ss : List Ptr) (h : Store)
    → IsList h t ts
    → IsList h s ss
    → Disjoint (s ∷ ss) (t ∷ ts)
    → (let h' = linked_list_take t s h in
        IsList h' t (ss ++ ts)
        × IsList h' s []
        × Elsewhere h h' (t ∷ ts) (s ∷ ss)
        × (h'.failed ≡ h.failed))
take-IsList t s ts [] h i j d =
    subst
      (λ (h' : Store).
        IsList h' t ts × IsList h' s [] × Elsewhere h h' (t ∷ ts) (s ∷ []) × (h'.failed ≡ h.failed))
      (sym (take_nothing t s h j)) (i, j, (λ q m n. (refl, refl)), refl)
take-IsList t s ts (x ∷ ss) h i j d = (
  record {
    chain = (
      ground (arith, w.next t, st, j.chain.0),
      ground (
        arith,
        w.prev x,
        j.chain.0,
        j.distinct.0,
        has-apart (h.next t) x (t ∷ ts) first (d x (ground arith)),
      ),
      taken-Chain t s h w ts x ss
          (tail-Chain t s h w ts ts i.chain i.distinct (d s (ground arith))
            (ground (arith, last, has-apart (h.prev s) s (x ∷ ss), j.distinct.0, d (h.prev s)))
            (ground (arith, j.chain.0, d x)))
          j.chain.2 j.distinct.1 j.distinct.0 (λ q m. d q (ground (arith, m))) first
          (ground (arith, j.chain.0, j.distinct.1.0)),
    );
    distinct = (
      ground (arith, has-append t (x ∷ ss) ts, i.distinct.0, d t),
      append-Distinct (x ∷ ss) ts j.distinct.1 i.distinct.1 (λ q m. ground (arith, d q, m)),
    );
    real = ground (arith, has-append null ss ts, i.real, j.real);
  },
  record {
    chain = (ground (arith, w.next s), ground (arith, w.prev s));
    distinct = (refl, tt);
    real = ground (arith, j.real);
  },
  (λ q m n. (
    ground (arith, w.next q, m, n, has-apart (h.prev s) q (x ∷ ss) last),
    ground (arith, w.prev q, m, n, j.chain.0, has-apart (h.next t) q (t ∷ ts) first),
  )),
  w.failed,
)
  where
    first : has (h.next t) (t ∷ ts) ≡ true
    first = ground (arith, has-first h t ts t i.chain)

    last : has (h.prev s) (x ∷ ss) ≡ true
    last = has-last h x ss s j.chain.2

    st : (s == t) ≡ false
    st = ground (arith, d s)

    w : Taken t s h (linked_list_take t s h)
    w =
        take-Taken t s h (ground (arith, j.chain.0, j.distinct.0))
          (has-apart (h.prev s) s (x ∷ ss) last j.distinct.0) (ground (arith, d (h.prev s), last))
          st (has-apart (h.next t) s (t ∷ ts) first (d s (ground arith))) (ground (arith, j.real))
          (ground (arith, i.real)) (ground (arith, j.chain.0, j.real))
          (has-apart (h.prev s) null (x ∷ ss) last (ground (arith, j.real)))
          (has-apart (h.next t) null (t ∷ ts) first i.real)
