-- ===== src/Libseat/Inbox.antt =====
-- libseat/backend/seatd.c: the bytes that come next in the inbox, and `conn_get` of them.

use dde_seatd.Prelude.{
  ℕ, ◌+◌, ◌≡◌, refl, sym, ap, ◌∙◌, subst, List, [], ◌∷◌, ◌++◌, Option, none, some, ltb, if_ind,
  take, drop, length, length-append, arith,
}
use dde_seatd.Kernel.{Bytes, Sys, ebadmsg}
use dde_seatd.Buffer.{consume, size}
use dde_seatd.Buffer.Refine.{
  IsValid, contents, length-contents, copy-contents, contents-consume, consume-IsValid,
  restore-consume,
}
use dde_seatd.Connection.{Connection, connection_get, connection_restore}
use dde_seatd.Libseat.State.{Side, with_errno, set_error, conn_get}

-- A connection without the oldest `n` bytes of its inbox.
abbrev pub after : ℕ → Connection → Connection
after n c = record c { inbox = consume c.inbox n }

pub take-append {ℓ} : {A : Type ℓ} (xs ys : List A) → take (length xs) (xs ++ ys) ≡ xs
take-append [] ys = refl
take-append (x ∷ xs) ys = ap (◌∷◌ x) (take-append xs ys)

drop-append {ℓ} : {A : Type ℓ} (xs ys : List A) → drop (length xs) (xs ++ ys) ≡ ys
drop-append [] ys = refl
drop-append (x ∷ xs) ys = drop-append xs ys

-- The bytes `xs` are next in the inbox, and `rest` follows.
pub record Next (xs rest : Bytes) (c : Connection) : Type 0 where
  pub valid : IsValid c.inbox
  pub next : contents c.inbox ≡ xs ++ rest

module _ (xs rest : Bytes) (c : Connection) (h : Next xs rest c) where
  pub Next-size : length xs + length rest ≡ size c.inbox
  Next-size = sym (length-append xs rest) ∙ ap length (sym h.next) ∙ length-contents c.inbox

  pub connection_get-next :
      (s : Sys) → connection_get (length xs) c s ≡ ((some xs, after (length xs) c), s)
  unfolding connection_get
  connection_get-next s =
      if_ind (λ r. r ≡ ((some xs, after (length xs) c), s)) (ltb (size c.inbox) (length xs))
        (λ e. absurd (ground (arith, Next-size)))
        λ e.
          ap (λ ys. ((some ys, after (length xs) c), s))
            (copy-contents c.inbox (length xs) h.valid (omega (arith, Next-size))
              ∙ ap (take (length xs)) h.next
              ∙ take-append xs rest)

  pub contents-after : contents (after (length xs) c).inbox ≡ rest
  contents-after =
      contents-consume c.inbox (length xs) h.valid (omega (arith, Next-size))
      ∙ ap (drop (length xs)) h.next
      ∙ drop-append xs rest

  pub after-IsValid : IsValid (after (length xs) c).inbox
  after-IsValid = consume-IsValid c.inbox (length xs) h.valid (omega (arith, Next-size))

  pub restore-after : connection_restore (length xs) (after (length xs) c) ≡ c
  unfolding connection_restore
  restore-after =
      ap (λ b. record c { inbox = b })
        (restore-consume c.inbox (length xs) h.valid (omega (arith, Next-size, h.valid.fits)))

pub conn_get-next :
    (xs rest : Bytes) (n : ℕ) (w : Side)
    → Next xs rest w.backend.connection
    → length xs ≡ n
    → conn_get n w ≡ (
      some xs,
      record w { backend = record w.backend { connection = after n w.backend.connection } },
    )
unfolding conn_get
conn_get-next xs rest n w h l =
    ap
      (λ (x : (Option Bytes × Connection) × Sys).
        let w' : Side = record { backend = record w.backend { connection = x.0.1 }; sys = x.1 } in
        elim x.0.0 as (λ y. Option Bytes × Side) [
          | some bytes ↦ (some bytes, w')
          | none ↦ (none, with_errno ebadmsg (set_error w'))
        ])
      (subst
        (λ k.
          connection_get k w.backend.connection w.sys
          ≡ ((some xs, after k w.backend.connection), w.sys))
        l (connection_get-next xs rest w.backend.connection h w.sys))
