-- ===== src/Libseat/Response.antt =====
-- libseat/backend/seatd.c: a request whose response has arrived, behind background messages.

use dde_seatd.Prelude.{
  ℕ, suc, ◌+◌, ◌*◌, ◌-◌, ◌^◌, ◌≤◌, ◌<◌, ◌≡◌, refl, sym, ap, ap₂, ◌∙◌, List, ◌++◌, Option, none,
  some, Bool, true, false, leb, ◌==◌, if_ind, Bool_ind, drop, length, length-append, arith, Status,
  ok, fail,
}
use dde_seatd.Kernel.{Bytes}
use dde_seatd.Buffer.{size, buffer_size}
use dde_seatd.Buffer.Refine.{length-contents}
use dde_seatd.Connection.{connection_pending}
use dde_seatd.Connection.Messages.{header_round_trip}
use dde_seatd.Daemon.{header_bytes, bytes_of_u16}
use dde_seatd.Client.Dispatch.{u16_of_bytes}
use dde_seatd.Libseat.State.{Side, L, set_error}
use dde_seatd.Libseat.Reading.{
  other_message, message_of, other, after_header, read_loop, read_fuel, read_and_queue,
  response_loop, poll_connection, check_header, read_header,
}
use dde_seatd.Libseat.Inbox.{
  after, Next, after-IsValid, contents-after, restore-after, conn_get-next, Next-size,
}
use dde_seatd.Libseat.Arrival.{
  Background, background_bytes, Allocates, noted_all, noted_all-Next, read_loop-next,
  read_loop-noted_all, length-background_bytes,
}

-- The inbox holds background messages and then a response, of which all has arrived.
pub record Answered (ms : List Background) (opcode : ℕ) (payload rest : Bytes) (w : Side)
    : Type 0 where
  pub arrived :
      Next
        (background_bytes ms)
        (header_bytes opcode (length payload) ++ (payload ++ rest))
        w.backend.connection
  pub is_response : message_of opcode ≡ other
  pub opcode_positive : 0 < opcode
  pub opcode_range : opcode < 2 ^ 16
  pub allocates : Allocates w.sys.kernel

-- `n` bytes later.
abbrev pub read_more : ℕ → Side → Side
read_more n w = record w {
  backend = record w.backend { connection = after n w.backend.connection };
}

module _ (ms : List Background) (opcode : ℕ) (payload rest : Bytes) (w : Side)
    (h : Answered ms opcode payload rest w) where
  abbrev pub response_header : Bytes
  response_header = header_bytes opcode (length payload)

  abbrev pub ready : Side
  ready = noted_all ms w

  abbrev pub headed : Side
  headed = read_more 4 ready

  pub response-Next : Next response_header (payload ++ rest) ready.backend.connection
  unfolding header_bytes bytes_of_u16
  response-Next =
      let n = noted_all-Next ms (response_header ++ (payload ++ rest)) w h.arrived in
      record { valid = n.valid; next = n.next }

  length-header : length response_header ≡ 4
  unfolding header_bytes bytes_of_u16
  length-header = refl

  pub sizes : 4 * length ms + (4 + (length payload + length rest)) ≤ buffer_size
  sizes =
      let total : 4 * length ms + length (response_header ++ (payload ++ rest))
          ≡ size w.backend.connection.inbox =
        ap (λ n. n + length (response_header ++ (payload ++ rest)))
          (sym (length-background_bytes ms))
        ∙ Next-size (background_bytes ms) (response_header ++ (payload ++ rest))
            w.backend.connection h.arrived in
      let tail : length (response_header ++ (payload ++ rest))
          ≡ 4 + (length payload + length rest) =
        length-append response_header (payload ++ rest)
        ∙ ap₂ ◌+◌ length-header (length-append payload rest) in
      omega (arith, total, tail, h.arrived.valid.fits)

  pub header-read :
      (u16_of_bytes response_header ≡ opcode)
      × (u16_of_bytes (drop 2 response_header) ≡ length payload)
  header-read = header_round_trip opcode (length payload) h.opcode_range (omega (arith, sizes))

  -- All of the payload is there.
  payload-pending : length payload ≤ connection_pending headed.backend.connection
  unfolding connection_pending header_bytes bytes_of_u16
  payload-pending =
      let left : length payload + length rest ≡ size headed.backend.connection.inbox =
        sym (length-append payload rest)
        ∙ sym (
            ap length (
              contents-after response_header (payload ++ rest) ready.backend.connection
                response-Next))
        ∙ length-contents headed.backend.connection.inbox in
      omega (arith, left)

  -- Behind the header comes the payload.
  pub behind_header : Next payload rest headed.backend.connection
  unfolding header_bytes bytes_of_u16
  behind_header = record {
    valid = after-IsValid response_header (payload ++ rest) ready.backend.connection response-Next;
    next = contents-after response_header (payload ++ rest) ready.backend.connection response-Next;
  }

  other_message-response :
      (n : ℕ) → other_message true n response_header headed ≡ ((some n, opcode), ready)
  unfolding other_message connection_pending header_bytes bytes_of_u16
  other_message-response n =
      ap₂ (λ o c. ((some n, o), record ready { backend = record ready.backend { connection = c } }))
        (if_ind (λ o. o ≡ opcode)
          (leb (u16_of_bytes (drop 2 response_header))
            (connection_pending headed.backend.connection))
          (λ e. header-read.0) (λ e. absurd (ground (arith, header-read.1, payload-pending))))
        (restore-after response_header (payload ++ rest) ready.backend.connection response-Next)

  after_header-response :
      (go_on : ℕ → L (Option ℕ × ℕ)) (n : ℕ)
      → after_header go_on true n (some response_header) headed ≡ ((some (n + 1), opcode), ready)
  unfolding after_header
  after_header-response go_on n =
      rw (after_header, ap message_of header-read.0 ∙ h.is_response)
        (other_message-response (n + 1))

  -- Reading stops at the response, which stays in the inbox.
  pub read_and_queue-response : read_and_queue true w ≡ ((some (length ms + 1), opcode), ready)
  unfolding read_and_queue
  read_and_queue-response =
      ap (λ fuel. read_loop fuel true 0 w) {x = read_fuel} {y = length ms + suc (64 - length ms)}
        (omega (arith, sizes))
      ∙ read_loop-noted_all ms (suc (64 - length ms)) true 0 (response_header ++ (payload ++ rest))
          w h.allocates h.arrived
      ∙ read_loop-next response_header (payload ++ rest) (64 - length ms) true (0 + length ms) ready
          response-Next length-header
      ∙ after_header-response (read_loop (64 - length ms) true) (0 + length ms)
      ∙ ap (λ n. ((some (n + 1), opcode), ready)) (omega arith)

  -- Waiting for the response ends at once.
  pub response_loop-response : (rounds : ℕ) → response_loop (suc rounds) w ≡ (ok, ready)
  unfolding response_loop
  response_loop-response rounds =
      ap
        (λ (x : (Option ℕ × ℕ) × Side). elim x.0.0 as (λ y. Status × Side) [
          | none ↦ (fail, x.1)
          | some packets ↦ elim (x.0.1 == 0) as (λ y. Status × Side) [
            | false ↦ (ok, x.1)
            | true ↦ elim (poll_connection x.1).0 as (λ y. Status × Side) [
              | none ↦ (fail, (poll_connection x.1).1)
              | some n ↦ response_loop rounds (poll_connection x.1).1
            ]
          ]
        ])
        read_and_queue-response
      ∙ Bool_ind (λ y. y ≡ (ok, ready)) (opcode == 0)
          (λ e. absurd (ground (arith, h.opcode_positive))) (λ e. refl)

  pub read_header-response :
      (expected_opcode expected_size : ℕ) (variable : Bool)
      → read_header expected_opcode expected_size variable ready
        ≡ check_header expected_opcode expected_size variable response_header headed
  unfolding read_header
  read_header-response expected_opcode expected_size variable =
      ap
        (λ (x : Option Bytes × Side). elim x.0 as (λ y. Option ℕ × Side) [
          | none ↦ (none, set_error x.1)
          | some bytes ↦ check_header expected_opcode expected_size variable bytes x.1
        ])
        (conn_get-next response_header (payload ++ rest) 4 ready response-Next length-header)
