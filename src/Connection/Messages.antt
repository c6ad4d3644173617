-- ===== src/Connection/Messages.antt =====
-- common/connection.c, seatd/client.c: integers and headers as bytes, and reading from a connection.
use dde_seatd.Prelude.{
  fail-ne_ok, ℕ, ◌+◌, ◌^◌, ◌≤◌, ◌<◌, ◌≡◌, refl, sym, ap, subst, length, ◌∙◌, List, [], ◌∷◌, ◌++◌,
  Option, none, some, true, ltb, if_ind, Option_ind, arith, ℤ, pos, negsuc, take, drop, Status, ok,
}
use mathlib.Core.Option.{some-injective}
use dde_seatd.Kernel.{Kernel, Sys}
use dde_seatd.Buffer.{Buffer, put, buffer_size, size, consume}
use dde_seatd.Buffer.Refine.{
  put-contents, IsValid, contents, copy-contents, contents-consume, restore-consume,
  consume-IsValid,
}
use dde_seatd.Connection.Sending.{Sends}
use dde_seatd.Connection.Flush.{connection_flush-Empties}
use dde_seatd.Connection.{
  connection_flush, Connection, connection_get, connection_put, put_out, connection_restore,
  bytes_of_int, ints_of_bytes,
}
use dde_seatd.Daemon.{bytes_of_u16, header_bytes}
use dde_seatd.Events.{bytes_of_i32}
use dde_seatd.Client.Dispatch.{u16_of_bytes, i32_of_bytes}

-- An opcode and a size below 2^16 come back from the bytes of the header that holds them.
pub header_round_trip :
    (opcode n : ℕ)
    → opcode < 2 ^ 16
    → n < 2 ^ 16
    → (u16_of_bytes (header_bytes opcode n) ≡ opcode)
      × (u16_of_bytes (drop 2 (header_bytes opcode n)) ≡ n)
unfolding u16_of_bytes header_bytes bytes_of_u16
header_round_trip opcode n ho hn = (omega arith, omega arith)

-- The values of an `int32_t`.
abbrev pub IsI32 : ℤ → Type 0
IsI32 (pos n) = n < 2 ^ 31
IsI32 (negsuc n) = n < 2 ^ 31

-- Every value of a 32-bit signed integer, negative ones included, comes back from its bytes.
pub i32_round_trip : (z : ℤ) → IsI32 z → i32_of_bytes (bytes_of_i32 z) ≡ z
unfolding i32_of_bytes bytes_of_i32
i32_round_trip (pos n) h = ground arith
i32_round_trip (negsuc n) h = ground arith

-- A descriptor below 2^31 comes back from the bytes under which it is queued.
descriptor_round_trip : (n : ℕ) → n < 2 ^ 31 → ints_of_bytes (bytes_of_int n) ≡ n ∷ []
unfolding ints_of_bytes bytes_of_int
descriptor_round_trip n h = ap (λ k. k ∷ []) (omega arith)

-- What `connection_get` of `count` bytes comes to.
pub data Gets (count : ℕ) (c : Connection) : Option (List ℕ) × Connection → Type 0 where
  -- too few have arrived, and all of them stay
  waits : size c.inbox < count → Gets count c (none, c)
  -- the oldest ones, which leave the inbox; `connection_restore` would bring them back
  gets :
      (c' : Connection)
      → count ≤ size c.inbox
      → contents c'.inbox ≡ drop count (contents c.inbox)
      → IsValid c'.inbox
      → connection_restore count c' ≡ c
      → Gets count c (some (take count (contents c.inbox)), c')

-- `connection_get` on a valid inbox yields nothing and changes nothing if too few bytes have
-- arrived; otherwise it yields the oldest ones and leaves the rest in a valid inbox, from which
-- `connection_restore` leads back.
pub connection_get-Gets :
    (count : ℕ) (c : Connection) (s : Sys)
    → IsValid c.inbox
    → Gets count c (connection_get count c s).0
unfolding connection_get connection_restore
connection_get-Gets count c s v =
    if_ind (λ (r : (Option (List ℕ) × Connection) × Sys). Gets count c r.0)
      (ltb (size c.inbox) count) (λ e. waits (ground arith))
      λ e.
        subst (λ (bytes : List ℕ). Gets count c (some bytes, after))
          (sym (copy-contents c.inbox count v (ground arith)))
          (gets after (ground arith) (contents-consume c.inbox count v (ground arith))
            (consume-IsValid c.inbox count v (ground arith)) (restored (ground arith)))
  where
    after : Connection
    after = record c { inbox = consume c.inbox count }

    restored : count ≤ size c.inbox → connection_restore count after ≡ c
    restored l =
        ap (λ b. record c { inbox = b }) (restore-consume c.inbox count v (omega (arith, v.fits)))

-- What is expected of a `connection_put` of `src`: it succeeds, queues `src` behind what was there, and
-- asks for a flush.
pub record Puts (src : List ℕ) (c : Connection) (r : (Status × Connection) × Sys) : Type 0 where
  pub success : r.0.0 ≡ ok
  pub queued : contents r.0.1.outbox ≡ contents c.outbox ++ src
  pub valid : IsValid r.0.1.outbox
  pub wants_flush : r.0.1.want_flush ≡ true

put_out-Puts :
    (src : List ℕ) (c : Connection) (s : Sys)
    → IsValid c.outbox
    → size c.outbox + length src ≤ buffer_size
    → Puts src c (put_out src c s)
unfolding put_out
put_out-Puts src c s v h =
    Option_ind (Puts src c) (put c.outbox src) (λ n. ground (arith, n, fits.1))
      λ b e. record {
        success = refl;
        queued = ap contents (some-injective b fits.0 (sym e ∙ fits.1)) ∙ fits.2;
        valid = subst IsValid (sym (some-injective b fits.0 (sym e ∙ fits.1))) fits.3;
        wants_flush = refl;
      }
  where
    fits :
        (b : Buffer) × (put c.outbox src ≡ some b)
        × (contents b ≡ contents c.outbox ++ src)
        × IsValid b
    fits = put-contents c.outbox src v h

-- `connection_put` of a message that fits into what is free of a valid outbox succeeds, queues it
-- behind what was there, keeps the outbox valid and asks for a flush.
connection_put-Puts :
    (src : List ℕ) (c : Connection) (s : Sys)
    → IsValid c.outbox
    → size c.outbox + length src ≤ buffer_size
    → Puts src c (connection_put src c s)
unfolding connection_put
connection_put-Puts src c s v h =
    if_ind (Puts src c) (ltb buffer_size (size c.outbox + length src)) (λ e. ground arith)
      (λ e. put_out-Puts src c s v h)

-- What a `connection_put` of `src` that succeeds leaves on a kernel `k`: behind `earlier`, which is what was
-- there, or nothing where that had to be flushed, stands `src`.
pub record Queues (k : Kernel) (src : List ℕ) (c : Connection) (s : Sys) : Type 0 where
  pub earlier : List ℕ
  pub queued : contents c.outbox ≡ earlier ++ src
  pub valid : IsValid c.outbox
  pub wants_flush : c.want_flush ≡ true
  pub same_kernel : s.kernel ≡ k

kernel-put_out : (src : List ℕ) (c : Connection) (s : Sys) → (put_out src c s).1.kernel ≡ s.kernel
unfolding put_out
kernel-put_out src c s =
    Option_ind (λ (r : (Status × Connection) × Sys). r.1.kernel ≡ s.kernel) (put c.outbox src)
      (λ n. refl) (λ b e. refl)

put_out-Queues :
    (k : Kernel) (src : List ℕ) (c : Connection) (s : Sys)
    → s.kernel ≡ k
    → IsValid c.outbox
    → size c.outbox + length src ≤ buffer_size
    → (let r = put_out src c s in Queues k src r.0.1 r.1)
put_out-Queues k src c s e v h =
    let done = put_out-Puts src c s v h in
    record {
      earlier = contents c.outbox;
      queued = done.queued;
      valid = done.valid;
      wants_flush = done.wants_flush;
      same_kernel = kernel-put_out src c s ∙ e;
    }

-- Whether or not the outbox is flushed first.
pub connection_put-Queues :
    (src : List ℕ) (c : Connection) (s : Sys)
    → Sends s.kernel
    → IsValid c.outbox
    → length src ≤ buffer_size
    → (connection_put src c s).0.0 ≡ ok
    → (let r = connection_put src c s in Queues s.kernel src r.0.1 r.1)
unfolding connection_put
connection_put-Queues src c s h v l =
    if_ind Goal (ltb buffer_size (size c.outbox + length src))
      (λ e.
        Option_ind Goal (connection_flush (record c { want_flush = true }) s).0.0
          (λ f q. absurd (fail-ne_ok q))
          λ n f q.
            let done = connection_flush-Empties (record c { want_flush = true }) s h v refl n f in
            put_out-Queues s.kernel src _ _ done.same_kernel done.valid
              (omega (arith, done.empty, l)))
      (λ e q. put_out-Queues s.kernel src c s refl v (ground arith))
  where
    Goal : (Status × Connection) × Sys → Type 0
    Goal r = r.0.0 ≡ ok → Queues s.kernel src r.0.1 r.1
