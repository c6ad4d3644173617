-- ===== src/LinkedList/Removing.antt =====
-- common/linked_list.c: taking an element off its list, and the test for an empty list.
use dde_seatd.Prelude.{
  length, ◌≡◌, List, [], ◌∷◌, true, false, ◌==◌, ◌||◌, if◌then◌else◌, if_ind, arith,
}
use dde_seatd.Daemon.{Ptr, remove}
use dde_seatd.Protocol.{has}
use dde_seatd.Protocol.Inv.{Distinct, has-remove, remove-Distinct}
use dde_seatd.LinkedList.{Store, null, linked_list_remove, linked_list_empty}
use dde_seatd.LinkedList.Chains.{Chain, has-apart, Chain-frame, has-prev, has-next, has-last}
use dde_seatd.LinkedList.Refine.{IsList, Apart}

module _ (e : Ptr) (h : Store) where
  -- What the removal writes.
  record Unlinked (h' : Store) : Type 0 where
    next :
        (q : Ptr)
        → h'.next q ≡ (if e == q then null else if h.prev e == q then h.next e else h.next q)
    prev :
        (q : Ptr)
        → h'.prev q ≡ (if e == q then null else if h.next e == q then h.prev e else h.prev q)
    failed : h'.failed ≡ h.failed

  remove-Unlinked :
      (e == null) ≡ false
      → (h.prev e == null) ≡ false
      → (h.next e == null) ≡ false
      → (h.prev e == e) ≡ false
      → (h.next e == e) ≡ false
      → Unlinked (linked_list_remove e h)
  unfolding linked_list_remove
  remove-Unlinked n p q u v = record {
    next = λ q. ground arith;
    prev = λ q. ground arith;
    failed = ground arith;
  }

  Unlinked-Chain :
      {h' : Store} (a : Ptr) (xs : List Ptr) (z : Ptr)
      → Unlinked h'
      → Chain h a xs z
      → Distinct (a ∷ xs)
      → has z xs ≡ false
      → has e xs ≡ true
      → Chain h' a (remove e xs) z
  unfolding remove
  Unlinked-Chain a [] z w c d n k = absurd (ground (arith, k))
  Unlinked-Chain {h' = h'} a (x ∷ xs) z w c d n k =
      if_ind (λ ys. Chain h' a ys z) (x == e) (λ t. here xs c d n t)
        λ f.
          let before = has-prev h e x xs z c.2 d.1 (ground (arith, k, f)) in
          let behind = has-next h e x xs z c.2 d.1.1 (ground (arith, n)) (ground (arith, k, f)) in
          (
            ground (arith, w.next a, k, f, has-apart (h.prev e) a (x ∷ xs) before.0 d.0),
            ground (arith, w.prev x, k, f, n, d.1.0, has-apart (h.next e) x xs, behind.0),
            Unlinked-Chain x xs z w c.2 d.1 (ground (arith, n)) (ground (arith, k, f)),
          )
    where
      here :
          (ys : List Ptr)
          → Chain h a (x ∷ ys) z
          → Distinct (a ∷ x ∷ ys)
          → has z (x ∷ ys) ≡ false
          → (x == e) ≡ true
          → Chain h' a ys z
      here [] c d n t = (ground (arith, w.next a, t), ground (arith, w.prev z, t))
      here (y ∷ ys) c d n t = (
        ground (arith, w.next a, t),
        ground (arith, w.prev y, t),
        Chain-frame h h' y ys z (λ q m. ground (arith, w.next q, m, t))
            (λ q m. ground (arith, w.prev q, m, t)) c.2.2,
      )

  -- Say that an address is a list of some elements if the pointers lead from it through them and
  -- back, in both directions, and none is NULL or stands twice. `linked_list_remove` of an element
  -- of a list leaves the list of the others, in their order, and NULL in both pointers of the
  -- element; it fails no assertion and changes no pointer of what is not on the list.
  pub remove-IsList :
      (l : Ptr) (xs : List Ptr)
      → IsList h l xs
      → has e xs ≡ true
      → (let h' = linked_list_remove e h in
          IsList h' l (remove e xs)
          × Apart h h' l xs
          × ((h'.next e ≡ null) × (h'.prev e ≡ null) × (h'.failed ≡ h.failed)))
  remove-IsList l xs i k = (
    record {
      chain = Unlinked-Chain l xs l w i.chain i.distinct i.distinct.0 k;
      distinct = (
        ground (arith, has-remove e l xs i.distinct.1, i.distinct.0),
        remove-Distinct e xs i.distinct.1,
      );
      real = ground (arith, has-remove e null xs i.distinct.1, i.real);
    },
    (λ q m. (
      ground (arith, w.next q, m, k, has-apart (h.prev e) q (l ∷ xs) before.0, has-apart e q xs),
      ground (arith, w.prev q, m, k, has-apart (h.next e) q (l ∷ xs) behind_in, has-apart e q xs),
    )),
    (ground (arith, w.next e), ground (arith, w.prev e), w.failed),
  )
    where
      before : (has (h.prev e) (l ∷ xs) ≡ true) × ((h.prev e == e) ≡ false)
      before = has-prev h e l xs l i.chain i.distinct k

      behind : ((has (h.next e) xs || h.next e == l) ≡ true) × ((h.next e == e) ≡ false)
      behind = has-next h e l xs l i.chain i.distinct.1 i.distinct.0 k

      behind_in : has (h.next e) (l ∷ xs) ≡ true
      behind_in = ground (arith, behind.0)

      w : Unlinked (linked_list_remove e h)
      w =
          remove-Unlinked (has-apart e null xs k (ground (arith, i.real)))
            (has-apart (h.prev e) null (l ∷ xs) before.0 i.real)
            (has-apart (h.next e) null (l ∷ xs) behind_in i.real) before.1 behind.1

-- The test finds out whether there are elements.
empty_lem :
    (l : Ptr) (xs : List Ptr) (h : Store)
    → IsList h l xs
    → ((linked_list_empty l h).0 ≡ (length xs == 0)) × ((linked_list_empty l h).1.failed ≡ h.failed)
unfolding linked_list_empty
empty_lem l [] h i = (ground (arith, i.chain.0), ground (arith, i.chain.0, i.chain.1, i.real))
empty_lem l (x ∷ xs) h i = (
  ground (arith, i.chain.0, i.distinct.0),
  ground (arith, i.chain.0, i.real, has-apart (h.prev l) null (l ∷ x ∷ xs) last),
)
  where
    last : has (h.prev l) (l ∷ x ∷ xs) ≡ true
    last = has-last h l (x ∷ xs) l i.chain
