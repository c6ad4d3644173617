-- ===== src/Tests/LinkedLists.antt =====
-- Two lists: 10 with the elements 12 and 11, and 20 with the element 21.
use dde_seatd.Prelude.{◌≡◌, refl, [], ◌∷◌, ◌==◌, if◌then◌else◌, false, arith}
use dde_seatd.Daemon.{Ptr, remove}
use dde_seatd.LinkedList.{
  Store, null, linked_list_init, linked_list_insert, linked_list_remove, linked_list_take,
}
use dde_seatd.LinkedList.Refine.{IsList, Apart, init-IsList, insert-IsList}
use dde_seatd.LinkedList.Removing.{remove-IsList}
use dde_seatd.LinkedList.Taking.{Elsewhere, take-IsList}

abbrev zeroed : Store
zeroed = record { next = λ p. null; prev = λ p. null; failed = false }

abbrev one : Store
one = linked_list_insert 10 11 (linked_list_init 10 zeroed)

abbrev two : Store
two = linked_list_insert 10 12 one

one-IsList : IsList one 10 (11 ∷ [])
unfolding linked_list_init
one-IsList =
    (insert-IsList 10 11 (linked_list_init 10 zeroed) [] (init-IsList 10 zeroed refl).0 refl refl
      refl).0

insert-IsList_example :
    IsList two 10 (12 ∷ 11 ∷ []) × Apart one two 10 (12 ∷ 11 ∷ []) × (two.failed ≡ one.failed)
unfolding linked_list_init linked_list_insert
insert-IsList_example = insert-IsList 10 12 one (11 ∷ []) one-IsList refl refl refl

two-IsList : IsList two 10 (12 ∷ 11 ∷ [])
unfolding linked_list_init linked_list_insert
two-IsList = (insert-IsList 10 12 one (11 ∷ []) one-IsList refl refl refl).0

remove-IsList_example :
    (let h = linked_list_remove 11 two in
      IsList h 10 (12 ∷ [])
      × Apart two h 10 (12 ∷ 11 ∷ [])
      × ((h.next 11 ≡ null) × (h.prev 11 ≡ null) × (h.failed ≡ two.failed)))
unfolding remove
remove-IsList_example = remove-IsList 11 two 10 (12 ∷ 11 ∷ []) two-IsList refl

-- 10 has no elements, and 20 has one.
abbrev pair : Ptr → Ptr
pair p = if p == 20 then 21 else if p == 21 then 20 else p

abbrev both : Store
both = record { next = pair; prev = pair; failed = false }

take-IsList_example :
    (let h = linked_list_take 10 20 both in
      IsList h 10 (21 ∷ [])
      × IsList h 20 []
      × Elsewhere both h (10 ∷ []) (20 ∷ 21 ∷ [])
      × (h.failed ≡ false))
take-IsList_example =
    take-IsList 10 20 [] (21 ∷ []) both
      (record { chain = (refl, refl); distinct = (refl, tt); real = refl })
      (record { chain = (refl, refl, (refl, refl)); distinct = (refl, (refl, tt)); real = refl })
      (λ q e. ground (arith, e))
