-- ===== src/Tests/Backends.antt =====
-- The backend of libseat with a message from the daemon in its inbox.

use dde_seatd.Prelude.{
  ℕ, ◌+◌, ◌-◌, ◌≡◌, refl, List, [], ◌∷◌, ◌++◌, none, false, true, suc, length, length-append,
  length-replicate, ◌≤◌, ◌∙◌, replicate, arith, pos, ok, fail, inl, inr,
}
use dde_seatd.Kernel.{Bytes, after_answer, retry, ebadmsg, sendmsg}
use dde_seatd.Buffer
use dde_seatd.Buffer.{Buffer, buffer_size, empty, size, consume, copy, gather, get_iov}
use dde_seatd.Buffer.Refine.{IsValid, contents}
use dde_seatd.Connection.{
  connection_on, connection_put, put_out, connection_flush, flush_loop, build_cmsg, close_fds,
}
use dde_seatd.Daemon.{header_bytes, bytes_of_u16}
use dde_seatd.Events.{server_event, bytes_of_i32}
use dde_seatd.Client.Dispatch.{u16_of_bytes}
use dde_seatd.Libseat.State.{Side, Listener, with_errno, conn_put, conn_put_all, conn_flush}
use dde_seatd.Libseat.Reading.{
  check_header, execute_all, execute_events, message_of, read_and_queue, server_error,
  server_disable_seat, server_enable_seat,
}
use dde_seatd.Libseat.Requests.{request_void, int_request, check_pending_events}
use dde_seatd.Libseat.Arrival.{enable_message, disable_message, Allocates, noted_all}
use dde_seatd.Libseat.Response.{Answered, read_more}
use dde_seatd.Libseat.Answers.{Sent, request_void-accepted, request_void-refused}
use dde_seatd.Libseat.Errors.{
  Operation, dispatching, opening, closing, disabling, perform_all, StaysBroken, check_header-final,
}
use dde_seatd.Terminal.{codes}
use dde_seatd.Libseat.Sound.{Sound}
use dde_seatd.Libseat.Pending.{Awake, check_pending_events-Awake, execute_events-reversed}
use dde_seatd.Tests.Scene.{generous-Sends, generous, quiet}

-- An inbox with these bytes.
abbrev pub inbox_of : Bytes → Buffer
inbox_of bytes = record empty {
  head = length bytes;
  bytes = bytes ++ replicate (256 - length bytes) 0;
}

abbrev told : Bytes → Side
told bytes = record {
  backend = record {
    connection = record (connection_on 7) { inbox = inbox_of bytes };
    pending_events = [];
    awaiting_pong = false;
    error = false;
    seat_name = [];
  };
  sys = quiet;
}

generous-Allocates : Allocates generous
generous-Allocates = λ trace. (50 + length trace, refl)

-- The seat is enabled, and the request to close a device is refused with EBUSY.
abbrev refused : Bytes
refused =
    header_bytes server_enable_seat 0 ++ (header_bytes server_error 4 ++ bytes_of_i32 (pos 16))

-- The seat is enabled, then disabled, and the device is closed.
abbrev accepted : Bytes
accepted =
    header_bytes server_enable_seat 0
    ++ (header_bytes server_disable_seat 0 ++ header_bytes (server_event 4) 0)

abbrev queued : Bytes → Side
queued bytes = (conn_put_all (int_request 4 (pos 3)) (told bytes)).1

accepted-fits : length accepted ≤ 256
unfolding header_bytes bytes_of_u16
accepted-fits = omega arith

-- The bytes of the request, which the kernel takes at once.
abbrev sent : Bytes
sent = 4 ∷ 0 ∷ 4 ∷ 0 ∷ 3 ∷ 0 ∷ 0 ∷ 0 ∷ []

abbrev asked : Bytes → Side
asked bytes = record {
  backend = record (told bytes).backend {
    connection = record (connection_on 7) {
      inbox = inbox_of bytes;
      outbox = record { head = 8; tail = 8; bytes = sent ++ replicate 248 0 };
    };
  };
  sys = record quiet { trace = sendmsg 7 sent [] ∷ [] };
}

refused-Sent : Sent (int_request 4 (pos 3)) (told refused) (asked refused)
unfolding conn_put_all conn_put conn_flush connection_put put_out connection_flush flush_loop size
    retry after_answer close_fds Buffer.consume Buffer.put Buffer.gather Buffer.get_iov header_bytes
    bytes_of_u16 bytes_of_i32 Buffer.put_bytes Buffer.write_at build_cmsg
refused-Sent = record { queued = queued refused; put = refl; flushed = refl }

inbox-IsValid : (bytes : Bytes) → length bytes ≤ 256 → IsValid (inbox_of bytes)
unfolding size
inbox-IsValid bytes h = record {
  head_range = omega arith;
  tail_range = omega arith;
  fits = omega arith;
  storage =
      length-append bytes (replicate (256 - length bytes) 0)
      ∙ omega (arith, length-replicate {A = ℕ} (256 - length bytes) 0);
}

refused-Answered :
    Answered (enable_message ∷ []) server_error (bytes_of_i32 (pos 16)) [] (asked refused)
unfolding header_bytes bytes_of_u16 bytes_of_i32 contents size message_of
refused-Answered = record {
  arrived = record { valid = inbox-IsValid refused (omega arith); next = refl };
  is_response = refl;
  opcode_positive = omega arith;
  opcode_range = omega arith;
  allocates = generous-Allocates;
}

request_void-refused_example :
    request_void (suc 0) (int_request 4 (pos 3)) (server_event 4) (told refused) ≡ (
      fail,
      with_errno 16 (
          check_pending_events (
            with_errno 16
              (read_more 4 (read_more 4 (noted_all (enable_message ∷ []) (asked refused)))))),
    )
request_void-refused_example =
    request_void-refused (server_event 4) 0 16 (λ e. absurd (ground (arith, e))) (omega arith)
      (omega arith) refused-Sent refused-Answered

accepted-Sent : Sent (int_request 4 (pos 3)) (told accepted) (asked accepted)
unfolding conn_put_all conn_put conn_flush connection_put put_out connection_flush flush_loop size
    retry after_answer close_fds Buffer.consume Buffer.put Buffer.gather Buffer.get_iov header_bytes
    bytes_of_u16 bytes_of_i32 Buffer.put_bytes Buffer.write_at build_cmsg
accepted-Sent = record { queued = queued accepted; put = refl; flushed = refl }

accepted-Answered :
    Answered (enable_message ∷ disable_message ∷ []) (server_event 4) [] [] (asked accepted)
unfolding header_bytes bytes_of_u16 contents size message_of
accepted-Answered = record {
  arrived = record { valid = inbox-IsValid accepted (omega arith); next = refl };
  is_response = refl;
  opcode_positive = omega arith;
  opcode_range = omega arith;
  allocates = generous-Allocates;
}

request_void-accepted_example :
    request_void (suc 0) (int_request 4 (pos 3)) (server_event 4) (told accepted) ≡ (
      ok,
      check_pending_events
          (read_more 4 (noted_all (enable_message ∷ disable_message ∷ []) (asked accepted))),
    )
request_void-accepted_example =
    request_void-accepted (server_event 4) 0 accepted-Sent accepted-Answered

-- The seat is enabled, then disabled, and no response is due.
abbrev noticed : Bytes
noticed = header_bytes server_enable_seat 0 ++ header_bytes server_disable_seat 0

noticed-fits : length noticed ≤ 256
unfolding header_bytes bytes_of_u16
noticed-fits = omega arith

told-Sound : (bytes : Bytes) → Sound (told bytes)
unfolding size
told-Sound bytes = record {
  no_error = refl;
  outbox_valid = record {
    head_range = omega arith;
    tail_range = omega arith;
    fits = omega arith;
    storage = omega arith;
  };
  sends = generous-Sends;
}

check_pending_events-Awake_example :
    Awake (read_and_queue false (told noticed)).1 (check_pending_events (told noticed))
check_pending_events-Awake_example =
    check_pending_events-Awake (told noticed) (told-Sound noticed)
      (inbox-IsValid noticed noticed-fits)

-- A program that writes down in `errno` which event came last.
abbrev noting : Listener
noting = record { enable_seat = λ w. with_errno 1 w; disable_seat = λ w. with_errno 2 w }

execute_events-reversed_example :
    (execute_events noting (read_and_queue true (asked accepted)).1).1
    ≡ execute_all noting
        (server_disable_seat ∷ server_enable_seat ∷ [])
        (record (noted_all (enable_message ∷ disable_message ∷ []) (asked accepted)) {
          backend =
              record (noted_all (enable_message ∷ disable_message ∷ []) (asked accepted)).backend {
                pending_events = [];
              };
        })
execute_events-reversed_example =
    execute_events-reversed noting (enable_message ∷ disable_message ∷ []) (server_event 4) [] []
      (asked accepted) refl accepted-Answered

-- A program that asks for devices although it has been told of the failure.
abbrev asking_again : List Operation
asking_again =
    dispatching noting true
    ∷ opening 1 (codes "/dev/dri/card0")
    ∷ closing 1 (pos 3)
    ∷ disabling 1
    ∷ []

-- The daemon answers a request for a device with the response to another request.
check_header-final_example :
    (let r =
        check_header (server_event 3) 4 false (header_bytes (server_event 4) 0) (told accepted) in
      (r.0 ≡ none)
      × (r.1.sys.errno ≡ ebadmsg)
      × (r.1.backend.pending_events ≡ [])
      × StaysBroken r.1 (perform_all asking_again r.1))
unfolding u16_of_bytes header_bytes bytes_of_u16
check_header-final_example =
    check_header-final (server_event 3) 4 false (header_bytes (server_event 4) 0) (told accepted)
      asking_again refl
      (inr ((λ e. absurd (ground (arith, e))), inl (λ e. absurd (ground (arith, e)))))
