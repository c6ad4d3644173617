-- ===== src/Buffer/Window.antt =====
-- A run of bytes that goes round the end of the storage, read and written index by index, and the
-- pieces that `memcpy` handles.
use mathlib.Core.List.{append_assoc, append-nil}
use dde_seatd.Prelude.{
  dec_lt, ◌-◌, take_of_length_le, drop_of_length_le, take-append-drop, length-take, length-drop, ℕ,
  zero, suc, ◌+◌, ◌≤◌, ◌<◌, ◌≡◌, refl, sym, ap, ap₂, ◌∙◌, List, [], ◌∷◌, ◌++◌, arith, length,
  get_or, set, take, drop, length-set, get_or-set_self, get_or-set_ne, drop-cons_get_or,
}
use dde_seatd.Buffer.{buffer_size, mask, read_at, write_at}

-- The `n` bytes from the counter `i` on, going round at the buffer's size.
abbrev pub window : List ℕ → ℕ → ℕ → List ℕ
window bytes i zero = []
window bytes i (suc n) = get_or bytes (mask i) 0 ∷ window bytes (i + 1) n

-- Writing `xs` from the counter `i` on, going round.
pub overwrite : List ℕ → ℕ → List ℕ → List ℕ
overwrite bytes i [] = bytes
overwrite bytes i (x ∷ xs) = overwrite (set bytes (mask i) x) (i + 1) xs

pub length-window : (bytes : List ℕ) (i n : ℕ) → length (window bytes i n) ≡ n
length-window bytes i zero = refl
length-window bytes i (suc n) = ap suc (length-window bytes (i + 1) n)

pub window-add :
    (bytes : List ℕ) (i m n : ℕ)
    → window bytes i (m + n) ≡ window bytes i m ++ window bytes (i + m) n
window-add bytes i zero n = ap₂ (window bytes) (omega arith) (omega arith)
window-add bytes i (suc m) n =
    ap (window bytes i) (let e : suc m + n ≡ suc (m + n) = omega arith in e)
    ∙ ap (◌∷◌ (get_or bytes (mask i) 0)) (
        window-add bytes (i + 1) m n
        ∙ ap (λ k. window bytes (i + 1) m ++ window bytes k n) (omega arith))

-- Only the place of the counter in the buffer matters.
pub window_of_mask :
    (bytes : List ℕ) (i j n : ℕ) → mask i ≡ mask j → window bytes i n ≡ window bytes j n
window_of_mask bytes i j zero h = refl
window_of_mask bytes i j (suc n) h =
    ap₂ ◌∷◌ (ap (λ k. get_or bytes k 0) h) (window_of_mask bytes (i + 1) (j + 1) n (omega arith))

-- A run that does not reach the end of the storage is one `memcpy`.
pub read_at-window :
    (bytes : List ℕ) (i n : ℕ)
    → length bytes ≡ buffer_size
    → i + n ≤ buffer_size
    → read_at bytes i n ≡ window bytes i n
read_at-window bytes i zero l h = refl
read_at-window bytes i (suc n) l h =
    ap (take (suc n)) (drop-cons_get_or bytes i 0 (omega arith))
    ∙ ap₂ ◌∷◌ (ap (λ k. get_or bytes k 0) (omega arith)) (
        ap (λ k. read_at bytes k n) {x = suc i} (omega arith)
        ∙ read_at-window bytes (i + 1) n l (omega arith))

pub length-overwrite :
    (bytes : List ℕ) (i : ℕ) (xs : List ℕ) → length (overwrite bytes i xs) ≡ length bytes
unfolding overwrite
length-overwrite bytes i [] = refl
length-overwrite bytes i (x ∷ xs) =
    length-overwrite (set bytes (mask i) x) (i + 1) xs ∙ length-set bytes (mask i) x

pub take-window :
    (bytes : List ℕ) (i n m : ℕ) → n ≤ m → take n (window bytes i m) ≡ window bytes i n
take-window bytes i zero m h = refl
take-window bytes i (suc n) zero h = absurd (omega arith)
take-window bytes i (suc n) (suc m) h =
    ap (◌∷◌ (get_or bytes (mask i) 0)) (take-window bytes (i + 1) n m (omega arith))

pub drop-window :
    (bytes : List ℕ) (i n m : ℕ) → drop n (window bytes i (n + m)) ≡ window bytes (i + n) m
drop-window bytes i zero m = ap₂ (window bytes) (omega arith) (omega arith)
drop-window bytes i (suc n) m =
    ap (λ k. drop (suc n) (window bytes i k)) {y = suc (n + m)} (omega arith)
    ∙ drop-window bytes (i + 1) n m
    ∙ ap (λ k. window bytes k m) (omega arith)

-- A write `j` places on spares the run of the `n` bytes before it.
window-set_ne :
    (bytes : List ℕ) (i n j x : ℕ)
    → n ≤ j
    → j < buffer_size
    → window (set bytes (mask (i + j)) x) i n ≡ window bytes i n
window-set_ne bytes i zero j x h k = refl
window-set_ne bytes i (suc n) zero x h k = absurd (omega arith)
window-set_ne bytes i (suc n) (suc j) x h k = ap₂ ◌∷◌ (get_or-set_ne bytes x 0 (omega arith)) (
    ap (λ s. window (set bytes (mask s) x) (i + 1) n) (omega arith)
    ∙ window-set_ne bytes (i + 1) n j x (omega arith) (omega arith))

-- Writing just past a run extends it.
window-set :
    (bytes : List ℕ) (i n x : ℕ)
    → length bytes ≡ buffer_size
    → n < buffer_size
    → window (set bytes (mask (i + n)) x) i (n + 1) ≡ window bytes i n ++ (x ∷ [])
window-set bytes i n x l h =
    window-add (set bytes (mask (i + n)) x) i n 1
    ∙ ap₂ ◌++◌ (window-set_ne bytes i n n x (omega arith) h)
        (ap (λ y. y ∷ []) (get_or-set_self bytes (mask (i + n)) x 0 (omega arith)))

pub window-overwrite :
    (bytes : List ℕ) (i n : ℕ) (xs : List ℕ)
    → length bytes ≡ buffer_size
    → n + length xs ≤ buffer_size
    → window (overwrite bytes (i + n) xs) i (n + length xs) ≡ window bytes i n ++ xs
unfolding overwrite
window-overwrite bytes i n [] l h = ap (window bytes i) (omega arith) ∙ sym (append-nil _)
window-overwrite bytes i n (x ∷ xs) l h =
    ap₂ (λ k m. window (overwrite written k xs) i m) (omega arith) (omega arith)
    ∙ window-overwrite written i (n + 1) xs (length-set bytes (mask (i + n)) x ∙ l) (omega arith)
    ∙ ap (λ w. w ++ xs) (window-set bytes i n x l (omega arith))
    ∙ append_assoc (window bytes i n) (x ∷ []) xs
  where
    written : List ℕ
    written = set bytes (mask (i + n)) x

pub overwrite_of_mask :
    (bytes : List ℕ) (i j : ℕ) (xs : List ℕ)
    → mask i ≡ mask j
    → overwrite bytes i xs ≡ overwrite bytes j xs
unfolding overwrite
overwrite_of_mask bytes i j [] h = refl
overwrite_of_mask bytes i j (x ∷ xs) h =
    ap (λ k. overwrite (set bytes k x) (i + 1) xs) h
    ∙ overwrite_of_mask (set bytes (mask j) x) (i + 1) (j + 1) xs (omega arith)

overwrite-append :
    (bytes : List ℕ) (i : ℕ) (xs ys : List ℕ)
    → overwrite bytes i (xs ++ ys) ≡ overwrite (overwrite bytes i xs) (i + length xs) ys
unfolding overwrite
overwrite-append bytes i [] ys = ap (λ k. overwrite bytes k ys) (omega arith)
overwrite-append bytes i (x ∷ xs) ys =
    overwrite-append (set bytes (mask i) x) (i + 1) xs ys
    ∙ ap (λ k. overwrite (overwrite bytes i (x ∷ xs)) k ys) (omega arith)

-- A `memcpy` within the storage writes what `overwrite` writes.
pub write_at-overwrite :
    (bytes : List ℕ) (i j : ℕ) (xs : List ℕ)
    → mask i ≡ mask j
    → j + length xs ≤ buffer_size
    → write_at bytes j xs ≡ overwrite bytes i xs
unfolding write_at overwrite
write_at-overwrite bytes i j [] m h = refl
write_at-overwrite bytes i j (x ∷ xs) m h =
    ap (λ k. write_at (set bytes k x) (j + 1) xs) (omega arith)
    ∙ write_at-overwrite (set bytes (mask i) x) (i + 1) (j + 1) xs (omega arith) (omega arith)

-- The two copies that the code makes, up to the end of the storage and from its start.
pub write_at_twice :
    (bytes : List ℕ) (i : ℕ) (xs : List ℕ)
    → length xs ≤ buffer_size
    → let first = buffer_size - mask i in
      write_at (write_at bytes (mask i) (take first xs)) 0 (drop first xs) ≡ overwrite bytes i xs
unfolding write_at
write_at_twice bytes i xs h = elim (dec_lt (buffer_size - mask i) (length xs)) [
  | yes more ↦
      ap (λ w. write_at w 0 (drop (buffer_size - mask i) xs))
        (write_at-overwrite bytes i (mask i) (take (buffer_size - mask i) xs) (omega arith)
          (omega (arith, length-take (buffer_size - mask i) xs)))
      ∙ write_at-overwrite (overwrite bytes i (take (buffer_size - mask i) xs))
          (i + length (take (buffer_size - mask i) xs)) 0 (drop (buffer_size - mask i) xs)
          (omega (arith, length-take (buffer_size - mask i) xs))
          (omega (arith, length-drop (buffer_size - mask i) xs))
      ∙ sym (
          overwrite-append bytes i (take (buffer_size - mask i) xs)
            (drop (buffer_size - mask i) xs))
      ∙ ap (overwrite bytes i) (take-append-drop (buffer_size - mask i) xs)
  | no less ↦
      ap₂ (λ u w. write_at (write_at bytes (mask i) u) 0 w)
        (take_of_length_le (buffer_size - mask i) xs (omega arith))
        (drop_of_length_le (buffer_size - mask i) xs (omega arith))
      ∙ write_at-overwrite bytes i (mask i) xs (omega arith) (omega arith)
]
