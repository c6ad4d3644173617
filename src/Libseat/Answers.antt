-- ===== src/Libseat/Answers.antt =====
-- libseat/backend/seatd.c: what an operation makes of the daemon's response.

use dde_seatd.Prelude.{
  ℕ, suc, ◌-◌, ◌^◌, ◌<◌, ◌≡◌, ◌≢◌, refl, ap, ◌∙◌, List, [], Option, none, some, Bool, true, false,
  ◌==◌, ◌||◌, not, if_ind, drop, length, arith, Status, ok, fail, ℤ, pos, negsuc,
}
use dde_seatd.Kernel.{Bytes, ebadmsg}
use dde_seatd.Connection.{ints_of_bytes}
use dde_seatd.Events.{bytes_of_i32}
use dde_seatd.Client.Dispatch.{u16_of_bytes}
use dde_seatd.Libseat.State.{Side, with_errno, set_error, conn_put_all, conn_flush}
use dde_seatd.Libseat.Reading.{
  server_error, fits, error_of, check_header, read_error, response_loop, read_until_response,
}
use dde_seatd.Libseat.Requests.{
  request, minus_errno, read_void, finish_void, request_void, check_pending_events,
}
use dde_seatd.Libseat.Inbox.{Next, conn_get-next}
use dde_seatd.Libseat.Arrival.{Background, noted_all}
use dde_seatd.Libseat.Response.{
  Answered, read_more, ready, headed, response_header, behind_header, response_loop-response,
  read_header-response, header-read,
}

-- A request is on its way: all its parts are in the connection, and it is flushed.
pub record Sent (parts : List Bytes) (w w' : Side) : Type 0 where
  pub queued : Side
  pub put : conn_put_all parts w ≡ (ok, queued)
  pub flushed : conn_flush queued ≡ (ok, w')

-- The opcode and the size are those that are expected.
check_header-accepted :
    (header : Bytes) (expected_opcode expected_size : ℕ) (variable : Bool) (w : Side)
    → u16_of_bytes header ≡ expected_opcode
    → fits variable expected_size (u16_of_bytes (drop 2 header)) ≡ true
    → check_header expected_opcode expected_size variable header w
      ≡ (some (u16_of_bytes (drop 2 header)), w)
unfolding check_header
check_header-accepted header expected_opcode expected_size variable w o f =
    if_ind Goal (not (u16_of_bytes header == expected_opcode)) (λ e. absurd (ground (arith, o)))
      λ e.
        if_ind Goal (not (fits variable expected_size (u16_of_bytes (drop 2 header))))
          (λ u. absurd (ground (arith, f))) (λ u. refl)
  where
    Goal : Option ℕ × Side → Type 0
    Goal r = r ≡ (some (u16_of_bytes (drop 2 header)), w)

-- The daemon's error instead: its code becomes `errno`, and the backend goes on.
check_header-refused :
    (header msg rest : Bytes) (expected_opcode expected_size : ℕ) (variable : Bool) (w : Side)
    → u16_of_bytes header ≡ server_error
    → u16_of_bytes (drop 2 header) ≡ 4
    → expected_opcode ≢ server_error
    → length msg ≡ 4
    → Next msg rest w.backend.connection
    → check_header expected_opcode expected_size variable header w
      ≡ (none, with_errno (error_of msg w.sys.errno) (read_more 4 w))
unfolding check_header read_error
check_header-refused header msg rest expected_opcode expected_size variable w o z ne l h =
    if_ind Goal (not (u16_of_bytes header == expected_opcode))
      (λ e.
        if_ind Goal
          (not (u16_of_bytes header == server_error) || not (u16_of_bytes (drop 2 header) == 4))
          (λ b. absurd (ground (arith, o, z)))
          λ b.
            ap
              (λ (x : Option Bytes × Side). elim x.0 as (λ y. Option ℕ × Side) [
                | none ↦ (none, with_errno ebadmsg (set_error x.1))
                | some msg ↦ (none, with_errno (error_of msg x.1.sys.errno) x.1)
              ])
              (conn_get-next msg rest 4 w h l))
      λ e. absurd (ne (ground (arith, o)))
  where
    Goal : Option ℕ × Side → Type 0
    Goal r = r ≡ (none, with_errno (error_of msg w.sys.errno) (read_more 4 w))

-- `errno` is the code, if it is one.
minus_errno-positive : (e : ℕ) → 0 < e → e < 2 ^ 31 → minus_errno e ≡ negsuc (e - 1)
unfolding minus_errno
minus_errno-positive e h l = ground arith

error_of-bytes : (e old : ℕ) → e < 2 ^ 31 → error_of (bytes_of_i32 (pos e)) old ≡ e
unfolding ints_of_bytes bytes_of_i32
error_of-bytes e old h = omega arith

module _ {parts : List Bytes} {before w : Side} (sent : Sent parts before w) {ms : List Background}
    {opcode : ℕ} {payload rest : Bytes} (h : Answered ms opcode payload rest w) (rounds : ℕ) where
  request-answered : request (suc rounds) parts before ≡ (ok, ready ms opcode payload rest w h)
  unfolding request read_until_response
  request-answered =
      ap
        (λ (x : Status × Side). elim x.0 as (λ y. Status × Side) [
          | fail ↦ (fail, x.1)
          | ok ↦ read_until_response (suc rounds) x.1
        ])
        sent.put
      ∙ ap
          (λ (x : Status × Side). elim x.0 as (λ y. Status × Side) [
            | fail ↦ (fail, x.1)
            | ok ↦ response_loop (suc rounds) x.1
          ])
          sent.flushed
      ∙ response_loop-response ms opcode payload rest w h rounds

  -- What `request_void` makes of the response's header.
  request_void-answered :
      (response : ℕ) (r : Option ℕ × Side)
      → check_header response 0 false
          (response_header ms opcode payload rest w h)
          (headed ms opcode payload rest w h)
        ≡ r
      → request_void (suc rounds) parts response before ≡ (
          let res : ℤ × Side = elim r.0 as (λ y. ℤ × Side) [
            | none ↦ (minus_errno r.1.sys.errno, r.1)
            | some size ↦ (pos 0, r.1)
          ] in
          finish_void res.0 res.1)
  unfolding request_void read_void
  request_void-answered response r e =
      ap
        (λ (x : Status × Side). elim x.0 as (λ y. Status × Side) [
          | fail ↦ (fail, x.1)
          | ok ↦ finish_void (read_void response x.1).0 (read_void response x.1).1
        ])
        request-answered
      ∙ ap
          (λ (x : Option ℕ × Side).
            let res : ℤ × Side = elim x.0 as (λ y. ℤ × Side) [
              | none ↦ (minus_errno x.1.sys.errno, x.1)
              | some size ↦ (pos 0, x.1)
            ] in
            finish_void res.0 res.1)
          (read_header-response ms opcode payload rest w h response 0 false ∙ e)

length-bytes_of_i32 : (e : ℕ) → length (bytes_of_i32 (pos e)) ≡ 4
unfolding bytes_of_i32
length-bytes_of_i32 e = refl

-- A request without an answer of its own, of which all parts could be put and flushed: if the
-- response has arrived whole, possibly behind background messages, and memory can be allocated, the
-- request returns 0 without polling, after the background messages were noted and the response was
-- taken.
pub request_void-accepted :
    {parts : List Bytes} {before w : Side} {ms : List Background} {rest : Bytes}
    (response rounds : ℕ)
    → Sent parts before w
    → Answered ms response [] rest w
    → request_void (suc rounds) parts response before
      ≡ (ok, check_pending_events (read_more 4 (noted_all ms w)))
unfolding finish_void
request_void-accepted {w = w} {ms = ms} {rest = rest} response rounds sent h =
    request_void-answered sent h rounds response _ (
      check_header-accepted (response_header ms response [] rest w h) response 0 false
        (headed ms response [] rest w h) (header-read ms response [] rest w h).0
        (ground (arith, (header-read ms response [] rest w h).1)))

-- The same with the daemon's error instead of the response: the request returns -1 with the
-- daemon's code, if positive, as `errno`, after taking the error's message; the connection goes on
-- as before.
pub request_void-refused :
    {parts : List Bytes} {before w : Side} {ms : List Background} {rest : Bytes}
    (response rounds e : ℕ)
    → response ≢ server_error
    → 0 < e
    → e < 2 ^ 31
    → Sent parts before w
    → Answered ms server_error (bytes_of_i32 (pos e)) rest w
    → request_void (suc rounds) parts response before ≡ (
      fail,
      with_errno e
          (check_pending_events (with_errno e (read_more 4 (read_more 4 (noted_all ms w))))),
    )
unfolding finish_void
request_void-refused {w = w} {ms = ms} {rest = rest} response rounds e ne h l sent a =
    request_void-answered sent a rounds response _ (
      check_header-refused (response_header ms server_error code rest w a) code rest response 0
        false (headed ms server_error code rest w a) read.0 (read.1 ∙ length-code) ne length-code
        behind)
    ∙ ap
        (λ n.
          finish_void (minus_errno n) (with_errno n (read_more 4 (read_more 4 (noted_all ms w)))))
        (error_of-bytes e (noted_all ms w).sys.errno l)
    ∙ ap (λ res. finish_void res (with_errno e (read_more 4 (read_more 4 (noted_all ms w)))))
        (minus_errno-positive e h l)
    ∙ ap
        (λ n. (
          fail,
          with_errno n
              (check_pending_events (with_errno e (read_more 4 (read_more 4 (noted_all ms w))))),
        ))
        (omega arith)
  where
    code : Bytes
    code = bytes_of_i32 (pos e)

    read :
        (u16_of_bytes (response_header ms server_error code rest w a) ≡ server_error)
        × (u16_of_bytes (drop 2 (response_header ms server_error code rest w a)) ≡ length code)
    read = header-read ms server_error code rest w a

    length-code : length code ≡ 4
    length-code = length-bytes_of_i32 e

    behind : Next code rest (headed ms server_error code rest w a).backend.connection
    behind = behind_header ms server_error code rest w a
