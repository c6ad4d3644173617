-- ===== src/Connection/Flush.antt =====
-- common/connection.c: how `connection_flush` ends.
use dde_seatd.Prelude.{
  ℕ, zero, suc, ◌+◌, ◌-◌, ◌%◌, ◌≤◌, ◌<◌, ◌≡◌, refl, sym, ap, subst, ◌∙◌, Option, none, some, true,
  false, Bool_ind, Option_ind, if_ind, ◌==◌, not, arith, length, Status, ok, fail,
}
use mathlib.Core.Option.{some-injective}
use dde_seatd.Kernel.{Bytes, sendmsg, Kernel, Sys, retry, retries}
use dde_seatd.Buffer.{Buffer, u32_mod, size, consume, get_iov, gather}
use dde_seatd.Buffer.Refine.{
  IsValid, length-contents, size-consume, consume-IsValid, gather-get_iov,
}
use dde_seatd.Connection.{
  Connection, close_fds, build_cmsg, flush_loop, flush_fuel, connection_flush,
}
use dde_seatd.Connection.Sending.{Sends, retry-kernel, close_fds-kernel, retry-Moved}

-- How a flush of an outbox with the given head ends: everything has gone, or the last `sendmsg` failed.
data Flushed (k : Kernel) (head : ℕ) : (Status × Connection) × Sys → Type 0 where
  sent_all :
      (c : Connection) (s : Sys)
      → c.outbox.head ≡ head
      → size c.outbox ≡ 0
      → c.want_flush ≡ false
      → IsValid c.outbox
      → s.kernel ≡ k
      → Flushed k head ((ok, c), s)
  send_failed :
      (c : Connection) (fd : ℕ) (bytes cmsg : Bytes) (s : Sys)
      → (retry retries (sendmsg fd bytes cmsg) s).0 ≡ none
      → Flushed k head ((fail, c), (retry retries (sendmsg fd bytes cmsg) s).1)

-- A round that sends something leaves less to send.
flush_loop-Flushed :
    (fuel : ℕ) (c : Connection) (s : Sys)
    → Sends s.kernel
    → IsValid c.outbox
    → size c.outbox < fuel
    → Flushed s.kernel c.outbox.head (flush_loop fuel c s)
unfolding flush_loop consume
flush_loop-Flushed zero c s h v l = ground arith
flush_loop-Flushed (suc fuel) c s h v l =
    Bool_ind Outcome (size c.outbox == 0)
      (λ e. sent_all (record c { want_flush = false }) s refl (ground arith) refl v refl)
      λ e.
        Option_ind Outcome sent.0 (λ n. send_failed c c.fd bytes (build_cmsg c.fds_out) s n)
          λ len n.
            subst (λ k. Flushed k c.outbox.head (flush_loop fuel (rest len) closed.1)) kernel_kept
              (flush_loop-Flushed fuel (rest len) closed.1 (subst Sends (sym kernel_kept) h)
                (kept len n (ground arith)) (omega (arith, fewer len n (ground arith))))
  where
    bytes : Bytes
    bytes = gather c.outbox.bytes (get_iov c.outbox)

    sent : Option ℕ × Sys
    sent = retry retries (sendmsg c.fd bytes (build_cmsg c.fds_out)) s

    Outcome : (Status × Connection) × Sys → Type 0
    Outcome = Flushed s.kernel c.outbox.head

    all : 0 < size c.outbox → length bytes ≡ size c.outbox
    all q = ap length (gather-get_iov c.outbox v q) ∙ length-contents c.outbox

    moved : (len : ℕ) → sent.0 ≡ some len → 0 < size c.outbox → (0 < len) × (len ≤ size c.outbox)
    moved len n q =
        subst (λ k. (0 < len) × (len ≤ k)) (all q)
          (retry-Moved c.fd bytes (build_cmsg c.fds_out) (subst (λ k. 0 < k) (sym (all q)) q)
            retries s h len n)

    closed : Buffer × Sys
    closed = close_fds c.fds_out sent.1

    kernel_kept : closed.1.kernel ≡ s.kernel
    kernel_kept =
        close_fds-kernel c.fds_out sent.1
        ∙ retry-kernel retries (sendmsg c.fd bytes (build_cmsg c.fds_out)) s

    rest : ℕ → Connection
    rest len = record c { fds_out = closed.0; outbox = consume c.outbox len }

    kept : (len : ℕ) → sent.0 ≡ some len → 0 < size c.outbox → IsValid (consume c.outbox len)
    kept len n q = consume-IsValid c.outbox len v (moved len n q).1

    fewer :
        (len : ℕ)
        → sent.0 ≡ some len
        → 0 < size c.outbox
        → size (consume c.outbox len) < size c.outbox
    fewer len n q = omega (arith, moved len n q, size-consume c.outbox len v (moved len n q).1)

-- How `connection_flush` of `c` ends.
pub data Ends (c : Connection) : (Option ℕ × Connection) × Sys → Type 0 where
  all_sent :
      (c' : Connection) (s : Sys)
      → size c'.outbox ≡ 0
      → c'.want_flush ≡ false
      → Ends c ((some (size c.outbox), c'), s)
  not_sent :
      (c' : Connection) (fd : ℕ) (bytes cmsg : Bytes) (s : Sys)
      → (retry retries (sendmsg fd bytes cmsg) s).0 ≡ none
      → Ends c ((none, c'), (retry retries (sendmsg fd bytes cmsg) s).1)

-- The end of `connection_flush`.
abbrev returned_by : Connection → (Status × Connection) × Sys → (Option ℕ × Connection) × Sys
returned_by c r = elim r.0.0 [
  | ok ↦ ((some ((r.0.1.outbox.head + u32_mod - c.outbox.tail) % u32_mod), r.0.1), r.1)
  | fail ↦ ((none, r.0.1), r.1)
]

-- If a successful `sendmsg` of some bytes sends one at least and no more than all of them,
-- `connection_flush` of a connection that wants it and whose outbox is valid ends: it returns the
-- number of bytes that were queued, with an empty outbox and `want_flush` cleared, or it returns -1
-- because a `sendmsg`, repeated while it is interrupted, has no result.
pub connection_flush-all :
    (c : Connection) (s : Sys)
    → Sends s.kernel
    → IsValid c.outbox
    → c.want_flush ≡ true
    → Ends c (connection_flush c s)
unfolding connection_flush size
connection_flush-all c s h v w =
    if_ind (Ends c) (not c.want_flush) (λ e. ground arith)
      (λ e.
        ending (flush_loop flush_fuel c s)
          (flush_loop-Flushed flush_fuel c s h v (omega (arith, v.fits))))
  where
    ending :
        (r : (Status × Connection) × Sys)
        → Flushed s.kernel c.outbox.head r
        → Ends c (returned_by c r)
    ending _ (sent_all c' t e z f v' k) =
        subst (λ n. Ends c ((some n, c'), t)) (ground arith) (all_sent c' t z f)
    ending _ (send_failed c' fd bytes cmsg t n) = not_sent c' fd bytes cmsg t n

-- What a flush that succeeds leaves, on a kernel `k`: the number of bytes that were queued is returned.
pub record Emptied (k : Kernel) (c : Connection) (n : ℕ) (c' : Connection) (s : Sys) : Type 0 where
  pub count : n ≡ size c.outbox
  pub empty : size c'.outbox ≡ 0
  pub valid : IsValid c'.outbox
  pub same_kernel : s.kernel ≡ k

abbrev pub Empties : Kernel → Connection → (Option ℕ × Connection) × Sys → Type 0
Empties k c r = (n : ℕ) → r.0.0 ≡ some n → Emptied k c n r.0.1 r.1

pub connection_flush-Empties :
    (c : Connection) (s : Sys)
    → Sends s.kernel
    → IsValid c.outbox
    → c.want_flush ≡ true
    → Empties s.kernel c (connection_flush c s)
unfolding connection_flush size
connection_flush-Empties c s h v w =
    if_ind (Empties s.kernel c) (not c.want_flush) (λ e. ground arith)
      (λ e.
        ending (flush_loop flush_fuel c s)
          (flush_loop-Flushed flush_fuel c s h v (omega (arith, v.fits))))
  where
    ending :
        (r : (Status × Connection) × Sys)
        → Flushed s.kernel c.outbox.head r
        → Empties s.kernel c (returned_by c r)
    ending _ (sent_all c' t e z f v' k) n q = record {
      count = ground (arith, some-injective _ n q);
      empty = z;
      valid = v';
      same_kernel = k;
    }
    ending _ (send_failed c' fd bytes cmsg t x) n q = ground (arith, q)
