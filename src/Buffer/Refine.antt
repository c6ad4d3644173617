-- ===== src/Buffer/Refine.antt =====
-- The ring buffer holds a queue of bytes: what each function does to that queue.
use mathlib.Core.List.{append-nil}
use dde_seatd.Prelude.{
  length-drop, take_of_length_le, ℕ, ◌+◌, ◌-◌, ◌%◌, ◌≤◌, ◌<◌, ◌≡◌, refl, sym, ap, ap₂, ◌∙◌, inl,
  inr, List, ◌++◌, some, arith, Bool-cases, ltb, leb, ◌==◌, length, take, drop,
}
use dde_seatd.Buffer.{
  put_bytes, Buffer, buffer_size, u32_mod, mask, empty, size, consume, restore, read_at, write_at,
  get_iov, put_iov, gather, scatter, iov_len, copy, put,
}
use dde_seatd.Buffer.Window.{
  window, overwrite, length-window, window-add, window_of_mask, read_at-window, length-overwrite,
  take-window, drop-window, window-overwrite, write_at-overwrite, write_at_twice, overwrite_of_mask,
}

-- The counters are uint32_t values at most one buffer apart.
pub record IsValid (b : Buffer) : Type 0 where
  pub head_range : b.head < u32_mod
  pub tail_range : b.tail < u32_mod
  pub fits : size b ≤ buffer_size
  pub storage : length b.bytes ≡ buffer_size

-- The bytes that are queued, oldest first.
unfoldable pub contents : Buffer → List ℕ
contents b = window b.bytes b.tail (size b)

pub length-contents : (b : Buffer) → length (contents b) ≡ size b
unfolding contents
length-contents b = length-window b.bytes b.tail (size b)

empty-IsValid : IsValid empty
unfolding size
empty-IsValid = record {
  head_range = omega arith;
  tail_range = omega arith;
  fits = omega arith;
  storage = refl;
}

-- One `memcpy` from the place of a counter.
piece :
    (bytes : List ℕ) (i n : ℕ)
    → length bytes ≡ buffer_size
    → mask i + n ≤ buffer_size
    → read_at bytes (mask i) n ≡ window bytes i n
piece bytes i n l h =
    read_at-window bytes (mask i) n l h ∙ window_of_mask bytes (mask i) i n (omega arith)

-- Whether or not the run goes round, a copy is the window at the tail.
copy-window :
    (b : Buffer) (n : ℕ)
    → length b.bytes ≡ buffer_size
    → n ≤ buffer_size
    → copy b n ≡ window b.bytes b.tail n
unfolding copy
copy-window b n l h = elim (Bool-cases (leb (mask b.tail + n) buffer_size)) [
  | inl flat ↦ rw flat (piece b.bytes b.tail n l (ground arith))
  | inr round ↦ rw round (
      ap₂ ◌++◌ (piece b.bytes b.tail first l (omega arith)) (
        read_at-window b.bytes 0 (n - first) l (ground arith)
        ∙ window_of_mask b.bytes 0 (b.tail + first) (n - first) (omega arith))
      ∙ sym (window-add b.bytes b.tail first (n - first))
      ∙ ap (window b.bytes b.tail) (ground arith))
]
  where
    first : ℕ
    first = buffer_size - mask b.tail

-- `connection_buffer_copy` of no more bytes than a valid buffer holds yields the oldest ones, also
-- where they go round the end of the array.
pub copy-contents : (b : Buffer) (n : ℕ) → IsValid b → n ≤ size b → copy b n ≡ take n (contents b)
unfolding contents
copy-contents b n v h =
    copy-window b n v.storage (omega arith) ∙ sym (take-window b.bytes b.tail n (size b) h)

same_place : (b : Buffer) → IsValid b → mask b.head ≡ mask (b.tail + size b)
unfolding size
same_place b v = omega arith

pub size-consume : (b : Buffer) (n : ℕ) → IsValid b → n ≤ size b → size (consume b n) ≡ size b - n
unfolding size consume
size-consume b n v h = omega arith

-- Consuming no more bytes than a valid buffer holds drops the oldest ones, and only those.
pub contents-consume :
    (b : Buffer) (n : ℕ) → IsValid b → n ≤ size b → contents (consume b n) ≡ drop n (contents b)
unfolding contents consume
contents-consume b n v h =
    ap (window b.bytes ((b.tail + n) % u32_mod)) (size-consume b n v h)
    ∙ window_of_mask b.bytes ((b.tail + n) % u32_mod) (b.tail + n) (size b - n) (omega arith)
    ∙ sym (drop-window b.bytes b.tail n (size b - n))
    ∙ ap (λ k. drop n (window b.bytes b.tail k)) (omega arith)

pub consume-IsValid : (b : Buffer) (n : ℕ) → IsValid b → n ≤ size b → IsValid (consume b n)
unfolding consume
consume-IsValid b n v h = record {
  head_range = v.head_range;
  tail_range = omega arith;
  fits = omega (arith, size-consume b n v h);
  storage = v.storage;
}

-- On a valid buffer, `connection_buffer_restore` undoes a consume of fewer than 2^32 bytes,
-- counters included.
pub restore-consume : (b : Buffer) (n : ℕ) → IsValid b → n < u32_mod → restore (consume b n) n ≡ b
unfolding restore consume
restore-consume b n v h = ap (λ t. record b { tail = t }) (omega arith)

-- The buffer after a put of `src`.
abbrev appended : Buffer → List ℕ → Buffer
appended b src = record b { head = (b.head + length src) % u32_mod; bytes = put_bytes b src }

put_bytes-overwrite :
    (b : Buffer) (src : List ℕ)
    → length src ≤ buffer_size
    → put_bytes b src ≡ overwrite b.bytes b.head src
unfolding put_bytes
put_bytes-overwrite b src h = elim (Bool-cases (leb (mask b.head + length src) buffer_size)) [
  | inl flat ↦
      rw flat (write_at-overwrite b.bytes b.head (mask b.head) src (omega arith) (ground arith))
  | inr round ↦ rw round (write_at_twice b.bytes b.head src h)
]

size-appended :
    (b : Buffer) (src : List ℕ)
    → IsValid b
    → size b + length src ≤ buffer_size
    → size (appended b src) ≡ size b + length src
unfolding size
size-appended b src v h = omega arith

-- Writing at the head of a valid buffer appends to what is queued.
contents-overwrite :
    (b : Buffer) (src : List ℕ)
    → IsValid b
    → size b + length src ≤ buffer_size
    → window (overwrite b.bytes b.head src) b.tail (size b + length src) ≡ contents b ++ src
unfolding contents
contents-overwrite b src v h =
    ap (λ w. window w b.tail (size b + length src))
      (overwrite_of_mask b.bytes b.head (b.tail + size b) src (same_place b v))
    ∙ window-overwrite b.bytes b.tail (size b) src v.storage h

contents-appended :
    (b : Buffer) (src : List ℕ)
    → IsValid b
    → size b + length src ≤ buffer_size
    → contents (appended b src) ≡ contents b ++ src
contents-appended b src v h =
    unfold contents in
    ap₂ (λ w n. window w b.tail n) (put_bytes-overwrite b src (omega arith))
      (size-appended b src v h)
    ∙ contents-overwrite b src v h

appended-IsValid :
    (b : Buffer) (src : List ℕ)
    → IsValid b
    → size b + length src ≤ buffer_size
    → IsValid (appended b src)
appended-IsValid b src v h = record {
  head_range = omega arith;
  tail_range = v.tail_range;
  fits = omega (arith, size-appended b src v h);
  storage =
      ap length (put_bytes-overwrite b src (omega arith))
      ∙ length-overwrite b.bytes b.head src
      ∙ v.storage;
}

-- `connection_buffer_put` of a source that fits into the free part of a valid buffer succeeds,
-- appends the source to the bytes that are queued, and keeps the buffer valid, also where head and
-- tail wrap.
pub put-contents :
    (b : Buffer) (src : List ℕ)
    → IsValid b
    → size b + length src ≤ buffer_size
    → (b' : Buffer) × (put b src ≡ some b') × (contents b' ≡ contents b ++ src) × IsValid b'
unfolding put
put-contents b src v h =
    (appended b src, ground arith, contents-appended b src v h, appended-IsValid b src v h)

-- The vectors that `connection_buffer_get_iov` sets up for `sendmsg` cover exactly the queued bytes
-- of a valid buffer that is not empty, in their order.
pub gather-get_iov : (b : Buffer) → IsValid b → 0 < size b → gather b.bytes (get_iov b) ≡ contents b
unfolding gather get_iov contents size
gather-get_iov b v h = elim (Bool-cases (ltb (mask b.tail) (mask b.head))) [
  | inl flat ↦ rw flat (
      append-nil _
      ∙ piece b.bytes b.tail (mask b.head - mask b.tail) v.storage (ground arith)
      ∙ ap (window b.bytes b.tail) (ground arith))
  | inr round ↦ elim (Bool-cases (mask b.head == 0)) [
    | inl edge ↦
        rw (round, edge)
          (append-nil _
            ∙ piece b.bytes b.tail (buffer_size - mask b.tail) v.storage (ground arith)
            ∙ ap (window b.bytes b.tail) (ground arith))
    | inr wrapped ↦
        rw (round, wrapped)
          (ap₂ ◌++◌ (piece b.bytes b.tail (buffer_size - mask b.tail) v.storage (omega arith)) (
              append-nil _
              ∙ read_at-window b.bytes 0 (mask b.head) v.storage (omega arith)
              ∙ window_of_mask b.bytes 0 (b.tail + (buffer_size - mask b.tail)) (mask b.head)
                  (omega arith))
            ∙ sym (window-add b.bytes b.tail (buffer_size - mask b.tail) (mask b.head))
            ∙ ap (window b.bytes b.tail) (ground arith))
  ]
]

-- The vectors for `recvmsg` on a valid buffer that is not full have room for exactly the bytes that
-- are free.
pub iov_len-put_iov :
    (b : Buffer) → IsValid b → size b < buffer_size → iov_len (put_iov b) + size b ≡ buffer_size
unfolding iov_len put_iov size
iov_len-put_iov b v h = ground arith

-- What `recvmsg` writes through those vectors is what a put would write.
scatter-put_iov :
    (b : Buffer) (src : List ℕ)
    → IsValid b
    → size b < buffer_size
    → size b + length src ≤ buffer_size
    → scatter b.bytes (put_iov b) src ≡ overwrite b.bytes b.head src
unfolding scatter put_iov size
scatter-put_iov b src v n h = elim (Bool-cases (ltb (mask b.head) (mask b.tail))) [
  | inl flat ↦ rw flat (
      ap (write_at b.bytes (mask b.head)) (take_of_length_le _ src (ground arith))
      ∙ write_at-overwrite b.bytes b.head (mask b.head) src (omega arith) (ground arith))
  | inr round ↦ elim (Bool-cases (mask b.tail == 0)) [
    | inl edge ↦
        rw (round, edge)
          (ap (write_at b.bytes (mask b.head)) (take_of_length_le _ src (ground arith))
            ∙ write_at-overwrite b.bytes b.head (mask b.head) src (omega arith) (ground arith))
    | inr wrapped ↦
        rw (round, wrapped)
          (ap (write_at (write_at b.bytes (mask b.head) (take (buffer_size - mask b.head) src)) 0) (
              take_of_length_le (mask b.tail) (drop (buffer_size - mask b.head) src)
                (ground (arith, length-drop (buffer_size - mask b.head) src)))
            ∙ write_at_twice b.bytes b.head src (omega arith))
  ]
]

-- If `recvmsg` writes some bytes through the vectors of `connection_buffer_put_iov`, no more than
-- are free in a valid buffer that is not full, then moving the head by their number appends them to
-- the queued bytes, and the buffer is valid.
pub received :
    (b : Buffer) (src : List ℕ)
    → IsValid b
    → size b < buffer_size
    → size b + length src ≤ buffer_size
    → let b' = record b {
      head = (b.head + length src) % u32_mod;
      bytes = scatter b.bytes (put_iov b) src;
    } in
      (contents b' ≡ contents b ++ src) × IsValid b'
received b src v n h =
    rw (scatter-put_iov b src v n h ∙ sym (put_bytes-overwrite b src (omega arith)))
      (contents-appended b src v h, appended-IsValid b src v h)
