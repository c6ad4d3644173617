-- ===== src/LinkedList.antt =====
-- common/linked_list.c: doubly linked circular lists in a store.
pub mod Chains
pub mod Refine
pub mod Removing
pub mod Taking
use dde_seatd.Prelude.{ℕ, Bool, true, false, ◌==◌, ◌&&◌, ◌||◌, not, if◌then◌else◌}
use dde_seatd.Daemon.{Ptr, update}

abbrev pub null : Ptr
null = 0

-- The `struct linked_list` at every address. After a failed assertion or an access through NULL, which
-- `failed` tells of, the functions go on.
pub record Store : Type 0 where
  pub next : Ptr → Ptr
  pub prev : Ptr → Ptr
  pub failed : Bool

abbrev pub demand : Bool → Store → Store
demand b h = record h { failed = h.failed || not b }

abbrev pub set_next : Ptr → Ptr → Store → Store
set_next p v h = record (demand (not (p == null)) h) { next = update h.next p v }

abbrev pub set_prev : Ptr → Ptr → Store → Store
set_prev p v h = record (demand (not (p == null)) h) { prev = update h.prev p v }

abbrev pub is_linked : Ptr → Store → Bool
is_linked p h = not (h.prev p == null) && not (h.next p == null)

unfoldable pub linked_list_init : Ptr → Store → Store
linked_list_init list h = set_prev list list (set_next list list h)

unfoldable pub linked_list_insert : Ptr → Ptr → Store → Store
linked_list_insert list elem h =
    let h₁ = demand (h.prev elem == h.next elem) (demand (is_linked list h) h) in
    let h₂ = set_prev elem list h₁ in
    let h₃ = set_next elem (h₂.next list) h₂ in
    let h₄ = set_next list elem h₃ in set_prev (h₄.next elem) elem h₄

unfoldable pub linked_list_remove : Ptr → Store → Store
linked_list_remove elem h =
    let h₁ = demand (is_linked elem h) h in
    let h₂ = set_next (h₁.prev elem) (h₁.next elem) h₁ in
    let h₃ = set_prev (h₂.next elem) (h₂.prev elem) h₂ in set_prev elem null (set_next elem null h₃)

unfoldable pub linked_list_empty : Ptr → Store → Bool × Store
linked_list_empty list h = (h.next list == list, demand (is_linked list h) h)

unfoldable pub linked_list_take : Ptr → Ptr → Store → Store
unfolding linked_list_empty linked_list_init
linked_list_take target source h =
    let (is_empty, h₁) = linked_list_empty source h in
    let h₂ = set_prev (h₁.next source) target h₁ in
    let h₃ = set_next (h₂.prev source) (h₂.next target) h₂ in
    let h₄ = set_prev (h₃.next target) (h₃.prev source) h₃ in
    let h₅ = set_next target (h₄.next source) h₄ in
    if is_empty then h₁ else linked_list_init source h₅
