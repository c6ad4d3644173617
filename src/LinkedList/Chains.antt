-- ===== src/LinkedList/Chains.antt =====
-- common/linked_list.c: chains of elements that point to each other.
use dde_seatd.Prelude.{◌≡◌, ◌∙◌, List, [], ◌∷◌, true, false, ◌==◌, ◌||◌, arith}
use dde_seatd.Daemon.{Ptr}
use dde_seatd.Protocol.{has}
use dde_seatd.Protocol.Inv.{Distinct}
use dde_seatd.LinkedList.{Store}

-- From `a` over the elements to `z`, and back.
abbrev pub Chain : Store → Ptr → List Ptr → Ptr → Type 0
Chain h a [] z = (h.next a ≡ z) × (h.prev z ≡ a)
Chain h a (x ∷ xs) z = (h.next a ≡ x) × (h.prev x ≡ a) × Chain h x xs z

pub has-apart : (p q : Ptr) (ps : List Ptr) → has p ps ≡ true → has q ps ≡ false → (p == q) ≡ false
has-apart p q [] h k = absurd (ground (arith, h))
has-apart p q (x ∷ xs) h k = ground (arith, has-apart p q xs)

pub Chain-frame :
    (h h' : Store) (a : Ptr) (xs : List Ptr) (z : Ptr)
    → ((p : Ptr) → has p (a ∷ xs) ≡ true → h'.next p ≡ h.next p)
    → ((p : Ptr) → (has p xs || p == z) ≡ true → h'.prev p ≡ h.prev p)
    → Chain h a xs z
    → Chain h' a xs z
Chain-frame h h' a [] z n p c = (n a (ground arith) ∙ c.0, p z (ground arith) ∙ c.1)
Chain-frame h h' a (x ∷ xs) z n p c = (
  n a (ground arith) ∙ c.0,
  p x (ground arith) ∙ c.1,
  Chain-frame h h' x xs z (λ q e. n q (ground (arith, e))) (λ q e. p q (ground (arith, e))) c.2,
)

-- What stands before and behind an element of a chain.
pub has-prev :
    (h : Store) (e a : Ptr) (xs : List Ptr) (z : Ptr)
    → Chain h a xs z
    → Distinct (a ∷ xs)
    → has e xs ≡ true
    → (has (h.prev e) (a ∷ xs) ≡ true) × ((h.prev e == e) ≡ false)
has-prev h e a [] z c d k = absurd (ground (arith, k))
has-prev h e a (x ∷ xs) z c d k = ground (arith, has-prev h e x xs z c.2 d.1)

pub has-next :
    (h : Store) (e a : Ptr) (xs : List Ptr) (z : Ptr)
    → Chain h a xs z
    → Distinct xs
    → has z xs ≡ false
    → has e xs ≡ true
    → ((has (h.next e) xs || h.next e == z) ≡ true) × ((h.next e == e) ≡ false)
has-next h e a [] z c d n k = absurd (ground (arith, k))
has-next h e a (x ∷ []) z c d n k = ground arith
has-next h e a (x ∷ y ∷ ys) z c d n k = ground (arith, has-next h e x (y ∷ ys) z c.2 d.1)

pub has-first :
    (h : Store) (a : Ptr) (xs : List Ptr) (z : Ptr)
    → Chain h a xs z
    → (has (h.next a) xs || h.next a == z) ≡ true
has-first h a [] z c = ground arith
has-first h a (x ∷ xs) z c = ground arith

pub has-last :
    (h : Store) (a : Ptr) (xs : List Ptr) (z : Ptr)
    → Chain h a xs z
    → has (h.prev z) (a ∷ xs) ≡ true
has-last h a [] z c = ground arith
has-last h a (x ∷ xs) z c = ground (arith, has-last h x xs z c.2)
