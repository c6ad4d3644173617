-- ===== src/Buffer.antt =====
-- The ring buffer of common/connection.c and include/connection.h: `struct connection_buffer` and
-- its static functions. `head` and `tail` are free-running uint32_t counters; an I/O vector is the
-- pair of an offset into `data` and a length, so a client sees where the kernel would read or write.
pub mod Window
pub mod Refine
use dde_seatd.Prelude.{
  ℕ, ◌+◌, ◌-◌, ◌%◌, ◌^◌, List, [], ◌∷◌, ◌++◌, Option, none, some, ltb, leb, ◌==◌, if◌then◌else◌,
  length, take, drop, set, replicate,
}

-- CONNECTION_BUFFER_SIZE
abbrev pub buffer_size : ℕ
buffer_size = 256

-- MAX_FDS, with `sizeof(int)` 4
abbrev pub max_fds : ℕ
max_fds = 64

abbrev pub u32_mod : ℕ
u32_mod = 2 ^ 32

pub record Buffer : Type 0 where
  pub head : ℕ
  pub tail : ℕ
  pub bytes : List ℕ

-- What `calloc` makes of the struct.
abbrev pub empty : Buffer
empty = record { head = 0; tail = 0; bytes = replicate buffer_size 0 }

-- `idx & (CONNECTION_BUFFER_SIZE - 1)`, which is the remainder for a power of two.
abbrev pub mask : ℕ → ℕ
mask idx = idx % buffer_size

-- `head - tail` in uint32_t
unfoldable pub size : Buffer → ℕ
size b = (b.head + u32_mod - b.tail) % u32_mod

unfoldable pub consume : Buffer → ℕ → Buffer
consume b n = record b { tail = (b.tail + n) % u32_mod }

-- `tail -= size` in uint32_t, for a `size` that is a `uint32_t` itself
unfoldable pub restore : Buffer → ℕ → Buffer
restore b n = record b { tail = (b.tail + u32_mod - n % u32_mod) % u32_mod }

-- `memcpy(dst, src + offset, n)` and `memcpy(dst + offset, src, n)`
abbrev pub read_at : List ℕ → ℕ → ℕ → List ℕ
read_at src offset n = take n (drop offset src)

unfoldable pub write_at : List ℕ → ℕ → List ℕ → List ℕ
write_at dst offset [] = dst
write_at dst offset (x ∷ xs) = write_at (set dst offset x) (offset + 1) xs

abbrev pub Iov : Type 0
Iov = ℕ × ℕ

unfoldable pub get_iov : Buffer → List Iov
get_iov b =
    let head = mask b.head in
    let tail = mask b.tail in
    if ltb tail head
    then (tail, head - tail) ∷ []
    else if head == 0
    then (tail, buffer_size - tail) ∷ []
    else (tail, buffer_size - tail) ∷ (0, head) ∷ []

unfoldable pub put_iov : Buffer → List Iov
put_iov b =
    let head = mask b.head in
    let tail = mask b.tail in
    if ltb head tail
    then (head, tail - head) ∷ []
    else if tail == 0
    then (head, buffer_size - head) ∷ []
    else (head, buffer_size - head) ∷ (0, tail) ∷ []

-- What `sendmsg` reads through a list of vectors.
unfoldable pub gather : List ℕ → List Iov → List ℕ
gather bytes [] = []
gather bytes ((offset, n) ∷ iov) = read_at bytes offset n ++ gather bytes iov

unfoldable pub iov_len : List Iov → ℕ
iov_len [] = 0
iov_len ((offset, n) ∷ iov) = n + iov_len iov

-- What `recvmsg` writes through a list of vectors.
unfoldable pub scatter : List ℕ → List Iov → List ℕ → List ℕ
unfolding write_at
scatter bytes [] src = bytes
scatter bytes ((offset, n) ∷ iov) src =
    scatter (write_at bytes offset (take n src)) iov (drop n src)

unfoldable pub copy : Buffer → ℕ → List ℕ
copy b count =
    let tail = mask b.tail in
    if leb (tail + count) buffer_size
    then read_at b.bytes tail count
    else let first = buffer_size - tail in
      read_at b.bytes tail first ++ read_at b.bytes 0 (count - first)

-- The one or two `memcpy` calls of `connection_buffer_put`.
unfoldable pub put_bytes : Buffer → List ℕ → List ℕ
put_bytes b src =
    let head = mask b.head in
    let first = buffer_size - head in
    if leb (head + length src) buffer_size
    then write_at b.bytes head src
    else write_at (write_at b.bytes head (take first src)) 0 (drop first src)

-- `none` is the return of -1 with EOVERFLOW.
unfoldable pub put : Buffer → List ℕ → Option Buffer
put b src =
    if ltb buffer_size (length src)
    then none
    else some (record b { head = (b.head + length src) % u32_mod; bytes = put_bytes b src })
