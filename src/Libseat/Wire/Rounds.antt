-- ===== src/Libseat/Wire/Rounds.antt =====
-- seatd/client.c: a round of the loop over the messages that takes a request.
use mathlib.Core.List.{append_assoc}
use dde_seatd.Prelude.{
  ℕ, suc, ◌≤◌, ◌≡◌, refl, sym, ap, ap₂, ◌∙◌, ◌++◌, Option, none, some, true, false, ltb, Bool_ind,
  drop, arith, Status, ok, fail,
}
use dde_seatd.Kernel.{Bytes}
use dde_seatd.Connection.{connection_pending, connection_restore}
use dde_seatd.Connection.Messages.{header_round_trip}
use dde_seatd.Daemon.{Ptr, Daemon, update, header_bytes, bytes_of_u16}
use dde_seatd.Client.Lifecycle.{client_flush}
use dde_seatd.Client.Dispatch.{u16_of_bytes, client_handle_opcode, handle_messages}
use dde_seatd.Libseat.Inbox.{Next, Next-size}
use dde_seatd.Libseat.Wire.{
  taken, on_connection-next, taken-Next, Request, parts_of, joined, handler_of, Fits, taken_all,
  code_of, size_of, body_of, parts_of-eq, length-body_of, header-Fits,
}
use dde_seatd.Libseat.Wire.Fields.{dispatch-next}

-- Flushing the reply, and going on with the next message.
abbrev pub go_on : ℕ → Ptr → Status × Daemon → Status × Daemon
go_on fuel p (fail, d) = (fail, d)
go_on fuel p (ok, d) =
    let (r, d₁) = client_flush p d in elim r [ fail ↦ (fail, d₁) | ok ↦ handle_messages fuel p d₁ ]

-- If the message of a request that libseat's backend writes (a path has no NUL and fewer than 256
-- bytes, a number is an `int32_t`) is next in a client's inbox, then a round of the daemon's loop
-- takes exactly that message, runs the request's handler with the same path or number, and goes on
-- behind it, once the reply is flushed.
pub handle_messages-request :
    (q : Request) (fuel : ℕ) (p : Ptr) (rest : Bytes) (d : Daemon)
    → Fits q
    → Next (joined (parts_of q)) rest (d.connection p)
    → handle_messages (suc fuel) p d ≡ go_on fuel p (handler_of q p (taken_all p (parts_of q) d))
unfolding handle_messages client_handle_opcode connection_pending header_bytes bytes_of_u16
handle_messages-request q fuel p rest d f h =
    ap
      (λ (r : Option Bytes × Daemon). elim r.0 as (λ y. Status × Daemon) [
        | none ↦ (ok, r.1)
        | some header ↦
            elim (ltb (connection_pending (r.1.connection p)) (u16_of_bytes (drop 2 header)))
              as (λ y. Status × Daemon) [
                | true ↦ (
                  ok,
                  record r.1 {
                    connection = update r.1.connection p (connection_restore 4 (r.1.connection p));
                  },
                )
                | false ↦ next_round (
                    client_handle_opcode p (u16_of_bytes header) (u16_of_bytes (drop 2 header)) r.1)
              ]
      ])
      (on_connection-next p header (joined (body_of q) ++ rest) 4 d first refl)
    ∙ Bool_ind Goal (ltb (connection_pending (there.connection p)) (u16_of_bytes (drop 2 header)))
        (λ e. absurd (ground (arith, pending, read.1)))
        λ e.
          ap₂ (λ o z. next_round (client_handle_opcode p o z there)) read.0 read.1
          ∙ ap
              (λ (r : Status × Daemon). next_round (elim r.0 as (λ y. Status × Daemon) [
                | fail ↦ (fail, r.1)
                | ok ↦ client_flush p r.1
              ]))
              (dispatch-next q p rest there f second)
          ∙ rounds (handler_of q p (taken_all p (body_of q) there))
          ∙ ap (λ parts. go_on fuel p (handler_of q p (taken_all p parts d))) (sym (parts_of-eq q))
  where
    header : Bytes
    header = header_bytes (code_of q) (size_of q)

    there : Daemon
    there = taken p 4 d

    next_round : Status × Daemon → Status × Daemon
    next_round r = elim r.0 [ fail ↦ (fail, r.1) | ok ↦ handle_messages fuel p r.1 ]

    Goal : Status × Daemon → Type 0
    Goal r = r ≡ go_on fuel p (handler_of q p (taken_all p (parts_of q) d))

    rounds :
        (r : Status × Daemon)
        → next_round
            (elim r.0 as (λ y. Status × Daemon) [ fail ↦ (fail, r.1) | ok ↦ client_flush p r.1 ])
          ≡ go_on fuel p r
    rounds (fail, d₁) = refl
    rounds (ok, d₁) = refl

    first : Next header (joined (body_of q) ++ rest) (d.connection p)
    first = record {
      valid = h.valid;
      next =
          h.next
          ∙ ap (λ parts. joined parts ++ rest) (parts_of-eq q)
          ∙ append_assoc header (joined (body_of q)) rest;
    }

    second : Next (joined (body_of q)) rest (there.connection p)
    second = taken-Next p header (joined (body_of q) ++ rest) 4 d first refl _ _ refl

    read : (u16_of_bytes header ≡ code_of q) × (u16_of_bytes (drop 2 header) ≡ size_of q)
    read = header_round_trip (code_of q) (size_of q) (header-Fits q f).0 (header-Fits q f).1

    pending : size_of q ≤ connection_pending (there.connection p)
    pending =
        omega
          (arith, length-body_of q, Next-size (joined (body_of q)) rest (there.connection p) second)
