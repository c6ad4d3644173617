-- ===== src/LinkedList/Refine.antt =====
-- common/linked_list.c: the functions on lists are those on sequences of pointers.
use dde_seatd.Prelude.{◌≡◌, refl, List, [], ◌∷◌, true, false, ◌==◌, if◌then◌else◌, arith}
use dde_seatd.Daemon.{Ptr}
use dde_seatd.Protocol.{has}
use dde_seatd.Protocol.Inv.{Distinct}
use dde_seatd.LinkedList.{Store, null, linked_list_init, linked_list_insert}
use dde_seatd.LinkedList.Chains.{Chain, has-apart, Chain-frame, has-first, has-last}

-- `l` is a list of these elements, and no address is NULL or stands twice.
pub record IsList (h : Store) (l : Ptr) (xs : List Ptr) : Type 0 where
  pub chain : Chain h l xs l
  pub distinct : Distinct (l ∷ xs)
  pub real : has null (l ∷ xs) ≡ false

-- Pointers of what is neither `l` nor one of these elements are as before.
abbrev pub Apart : Store → Store → Ptr → List Ptr → Type 0
Apart h h' l xs =
    (q : Ptr) → has q (l ∷ xs) ≡ false → (h'.next q ≡ h.next q) × (h'.prev q ≡ h.prev q)

-- A list is empty after its initialisation.
pub init-IsList :
    (l : Ptr) (h : Store)
    → (l == null) ≡ false
    → IsList (linked_list_init l h) l [] × ((linked_list_init l h).failed ≡ h.failed)
unfolding linked_list_init
init-IsList l h n = (
  record { chain = (ground arith, ground arith); distinct = (refl, tt); real = ground arith },
  ground arith,
)

module _ (l e : Ptr) (h : Store) where
  -- What the insertion writes.
  record Inserted (h' : Store) : Type 0 where
    next : (q : Ptr) → h'.next q ≡ (if l == q then e else if e == q then h.next l else h.next q)
    prev : (q : Ptr) → h'.prev q ≡ (if h.next l == q then e else if e == q then l else h.prev q)
    failed : h'.failed ≡ h.failed

  insert-Inserted :
      (xs : List Ptr)
      → IsList h l xs
      → has e (l ∷ xs) ≡ false
      → (e == null) ≡ false
      → h.prev e ≡ h.next e
      → Inserted (linked_list_insert l e h)
  unfolding linked_list_insert
  insert-Inserted xs i f n k =
      let first =
        has-apart (h.next l) null (l ∷ xs) (ground (arith, has-first h l xs l i.chain)) i.real in
      let last = has-apart (h.prev l) null (l ∷ xs) (has-last h l xs l i.chain) i.real in
      record {
        next = λ q. ground (arith, first, last, i.real);
        prev = λ q. ground (arith, first, last, i.real);
        failed = ground (arith, first, last, i.real);
      }

  Inserted-Chain :
      {h' : Store} (xs : List Ptr)
      → Inserted h'
      → Chain h l xs l
      → Distinct (l ∷ xs)
      → has e (l ∷ xs) ≡ false
      → Chain h' l (e ∷ xs) l
  Inserted-Chain [] w c d f = (
    ground (arith, w.next l),
    ground (arith, w.prev e, c.0),
    (ground (arith, w.next e), ground (arith, w.prev l)),
  )
  Inserted-Chain {h' = h'} (x ∷ xs) w c d f = (
    ground (arith, w.next l),
    ground (arith, w.prev e, c.0),
    (
      ground (arith, w.next e),
      ground (arith, w.prev x),
      Chain-frame h h' x xs l (λ q m. ground (arith, w.next q, m))
          (λ q m. ground (arith, w.prev q, m)) c.2,
    ),
  )

  -- `linked_list_insert` of an address that is not NULL and not on a list, and whose two pointers
  -- are equal, makes it the first element of the list; it fails no assertion and changes no pointer
  -- of what is not on the list then.
  pub insert-IsList :
      (xs : List Ptr)
      → IsList h l xs
      → has e (l ∷ xs) ≡ false
      → (e == null) ≡ false
      → h.prev e ≡ h.next e
      → (let h' = linked_list_insert l e h in
          IsList h' l (e ∷ xs) × Apart h h' l (e ∷ xs) × (h'.failed ≡ h.failed))
  insert-IsList xs i f n k = (
    record {
      chain = Inserted-Chain xs w i.chain i.distinct f;
      distinct = ground (arith, i.distinct.0, i.distinct.1, f);
      real = ground (arith, i.real);
    },
    (λ q m. (
      ground (arith, w.next q, m),
      ground (arith, w.prev q, m, has-apart (h.next l) q (l ∷ xs) first),
    )),
    w.failed,
  )
    where
      w : Inserted (linked_list_insert l e h)
      w = insert-Inserted xs i f n k

      first : has (h.next l) (l ∷ xs) ≡ true
      first = ground (arith, has-first h l xs l i.chain)
