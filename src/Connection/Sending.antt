-- ===== src/Connection/Sending.antt =====
-- common/connection.c: what the calls of a flush leave of the kernel, and how much a `sendmsg` sends.
use dde_seatd.Prelude.{
  ℕ, zero, suc, ◌≤◌, ◌<◌, ◌≡◌, refl, sym, subst, ◌∙◌, List, [], ◌∷◌, Option, some, Bool_ind,
  Option_ind, if_ind, ◌==◌, arith, length,
}
use mathlib.Core.Option.{some-injective}
use dde_seatd.Kernel.{
  Bytes, Call, close, sendmsg, Answer, returned, failed, Kernel, Sys, eintr, after_answer, syscall,
  retry,
}
use dde_seatd.Buffer.{Buffer, size, copy}
use dde_seatd.Connection.{ints_of_bytes, close_all, close_fds}

-- `sendmsg` of some bytes on a stream socket sends one at least, if it succeeds, and no more than all.
pub record Sends (k : Kernel) : Type 0 where
  pub sends :
      (trace : List Call) (fd : ℕ) (bytes cmsg : Bytes) (n : ℕ)
      → k.answer trace (sendmsg fd bytes cmsg) ≡ returned n
      → 0 < length bytes
      → (0 < n) × (n ≤ length bytes)

pub syscall-kernel : (c : Call) (s : Sys) → (syscall c s).1.kernel ≡ s.kernel
unfolding syscall after_answer
syscall-kernel c s = ground arith

pub retry-kernel : (fuel : ℕ) (c : Call) (s : Sys) → (retry fuel c s).1.kernel ≡ s.kernel
unfolding retry
retry-kernel zero c s = refl
retry-kernel (suc fuel) c s =
    Option_ind Outcome (syscall c s).0
      (λ n.
        Bool_ind Outcome ((syscall c s).1.errno == eintr)
          (λ e. retry-kernel fuel c (syscall c s).1 ∙ syscall-kernel c s) (λ e. syscall-kernel c s))
      λ k n. syscall-kernel c s
  where
    Outcome : Option ℕ × Sys → Type 0
    Outcome r = r.1.kernel ≡ s.kernel

close_all-kernel : (fds : List ℕ) (s : Sys) → (close_all fds s).kernel ≡ s.kernel
unfolding close_all
close_all-kernel [] s = refl
close_all-kernel (fd ∷ fds) s =
    close_all-kernel fds (syscall (close fd) s).1 ∙ syscall-kernel (close fd) s

pub close_fds-kernel : (b : Buffer) (s : Sys) → (close_fds b s).1.kernel ≡ s.kernel
unfolding close_fds
close_fds-kernel b s =
    if_ind (λ (r : Buffer × Sys). r.1.kernel ≡ s.kernel) (size b == 0) (λ e. refl)
      (λ e. close_all-kernel (ints_of_bytes (copy b (size b))) s)

abbrev pub Moved : Bytes → Option ℕ → Type 0
Moved bytes o = (n : ℕ) → o ≡ some n → (0 < n) × (n ≤ length bytes)

module _ (fd : ℕ) (bytes cmsg : Bytes) (some_bytes : 0 < length bytes) where
  after_answer-Moved :
      (a : Answer) (s : Sys)
      → ((n : ℕ) → a ≡ returned n → (0 < n) × (n ≤ length bytes))
      → Moved bytes (after_answer a (sendmsg fd bytes cmsg) s).0
  unfolding after_answer
  after_answer-Moved (returned k) s h n e =
      subst (λ m. (0 < m) × (m ≤ length bytes)) (some-injective k n e) (h k refl)
  after_answer-Moved (failed k) s h n e = ground arith

  pub retry-Moved :
      (fuel : ℕ) (s : Sys) → Sends s.kernel → Moved bytes (retry fuel (sendmsg fd bytes cmsg) s).0
  unfolding retry
  retry-Moved zero s h = λ n e. ground arith
  retry-Moved (suc fuel) s h =
      Option_ind Outcome (syscall call s).0
        (λ x.
          Bool_ind Outcome ((syscall call s).1.errno == eintr)
            (λ e. retry-Moved fuel (syscall call s).1 (subst Sends (sym (syscall-kernel call s)) h))
            (λ e n z. ground arith))
        λ k x n z. first n (x ∙ z)
    where
      call : Call
      call = sendmsg fd bytes cmsg

      Outcome : Option ℕ × Sys → Type 0
      Outcome r = Moved bytes r.0

      first : Moved bytes (syscall call s).0
      first =
          after_answer-Moved (s.kernel.answer s.trace call) s
            (λ n a. h.sends s.trace fd bytes cmsg n a some_bytes)
