-- ===== src/Libseat/Requests.antt =====
-- libseat/backend/seatd.c: the operations on an open seat. `rounds` bounds how often one of them may
-- poll for its response; `none` and `fail` are returns of -1.
use dde_seatd.Prelude.{
  ℕ, ◌+◌, ◌-◌, ◌^◌, List, [], ◌∷◌, ◌++◌, Option, none, some, Bool, true, false, ltb, ◌==◌, ◌||◌,
  if◌then◌else◌, length, ℤ, pos, negsuc, Status, ok, fail,
}
use dde_seatd.Kernel.{Bytes, Sys, stop, failed_assert, eagain, einval, enotconn}
use dde_seatd.Connection.{connection_read}
use dde_seatd.Daemon.{bytes_of_u16, header_bytes}
use dde_seatd.Events.{server_event, bytes_of_i32}
use dde_seatd.Client.Dispatch.{i32_of_bytes, max_path_len}
use dde_seatd.Libseat.State.{
  Backend, Side, L, Listener, on_conn, with_errno, conn_put_all, conn_flush, conn_get, conn_get_fd,
  destroy,
}
use dde_seatd.Libseat.Reading.{
  execute_events, read_and_queue, poll_connection, read_until_response, read_header,
}

unfoldable pub get_fd : Backend → ℕ
get_fd b = b.connection.fd

abbrev pub get_seat_name : Backend → Bytes
get_seat_name b = b.seat_name

-- The second half of `dispatch`, after the read.
unfoldable pub postdispatch : Listener → ℕ → L (Option ℕ)
postdispatch listener predispatch w =
    let ((r, opcode), w₁) = read_and_queue false w in
    let (executed, w₂) = execute_events listener w₁ in
    elim r [ none ↦ (none, w₁) | some packets ↦ (some (predispatch + (packets + executed)), w₂) ]

-- What follows the read, whose result is none for -1.
unfoldable pub after_read : Listener → ℕ → Option ℕ → L (Option ℕ)
unfolding postdispatch
after_read listener predispatch none w =
    if w.sys.errno == eagain then postdispatch listener predispatch w else (none, w)
after_read listener predispatch (some n) w =
    if n == 0 then (some predispatch, w) else postdispatch listener predispatch w

-- `at_once` is a timeout of 0.
unfoldable pub dispatch : Listener → Bool → L (Option ℕ)
unfolding after_read
dispatch listener at_once w =
    let ((r, opcode), w₁) = read_and_queue false w in
    let (executed, w₂) = execute_events listener w₁ in
    if w.backend.error then (none, with_errno enotconn w) else elim r [
      | none ↦ (none, w₁)
      | some packets ↦
          let predispatch = packets + executed in
          let (read, w₃) =
            if ltb 0 predispatch || at_once
            then on_conn connection_read w₂
            else poll_connection w₂ in
          after_read listener predispatch read w₃
    ]

-- Sends a request and waits for its response.
unfoldable pub request : ℕ → List Bytes → L Status
unfolding conn_put_all read_until_response
request rounds parts w =
    let (r, w') = conn_put_all parts w in
    elim r [ fail ↦ (fail, w') | ok ↦ read_until_response rounds w' ]

-- A request that carries nothing.
abbrev pub empty_request : ℕ → List Bytes
empty_request opcode = header_bytes opcode 0 ∷ []

unfoldable pub send_ping : L Status
unfolding conn_put_all conn_flush
send_ping w =
    let (r, w') = conn_put_all (empty_request 7) w in
    elim r [ fail ↦ (fail, w') | ok ↦ conn_flush w' ]

-- What `check_pending_events` does once the events are on the list.
unfoldable pub wake : Side → Side
unfolding send_ping
wake w =
    let (r, w') = send_ping w in
    elim w.backend.pending_events [
      | [] ↦ w
      | opcode ∷ opcodes ↦ if w.backend.awaiting_pong then w else elim r [
        | fail ↦ w'
        | ok ↦ record w' { backend = record w'.backend { awaiting_pong = true } }
      ]
    ]

unfoldable pub check_pending_events : Side → Side
unfolding read_and_queue wake
check_pending_events w =
    let ((r, opcode), w') = read_and_queue false w in elim r [ none ↦ w' | some packets ↦ wake w' ]

-- `res = -errno` of an `int`.
unfoldable pub minus_errno : ℕ → ℤ
minus_errno e =
    if e == 0 then pos 0 else if ltb e (2 ^ 31) then negsuc (e - 1) else pos (2 ^ 32 - e)

-- `check_pending_events(backend); if (res < 0) { errno = -res; return -1; } return res`
unfoldable pub finish : ℤ → L (Option ℤ)
unfolding check_pending_events
finish (pos n) w = (some (pos n), check_pending_events w)
finish (negsuc n) w = (none, with_errno (n + 1) (check_pending_events w))

-- The same with `return 0`.
unfoldable pub finish_void : ℤ → L Status
unfolding check_pending_events
finish_void (pos n) w = (ok, check_pending_events w)
finish_void (negsuc n) w = (fail, with_errno (n + 1) (check_pending_events w))

-- The response to a request that has no answer but this.
unfoldable pub read_void : ℕ → L ℤ
read_void opcode w =
    let (r, w') = read_header opcode 0 false w in
    elim r [ none ↦ (minus_errno w'.sys.errno, w') | some size ↦ (pos 0, w') ]

unfoldable pub request_void : ℕ → List Bytes → ℕ → L Status
unfolding request read_void finish_void
request_void rounds parts opcode w =
    let (r, w₁) = request rounds parts w in
    let (res, w₂) = read_void opcode w₁ in elim r [ fail ↦ (fail, w₁) | ok ↦ finish_void res w₂ ]

-- The parts of the requests.
abbrev pub open_device_request : Bytes → List Bytes
open_device_request path =
    let pathlen = length path + 1 in
    header_bytes 3 (2 + pathlen) ∷ bytes_of_u16 pathlen ∷ (path ++ (0 ∷ [])) ∷ []

abbrev pub int_request : ℕ → ℤ → List Bytes
int_request opcode n = header_bytes opcode 4 ∷ bytes_of_i32 n ∷ []

abbrev pub is_negative : ℤ → Bool
is_negative (pos n) = false
is_negative (negsuc n) = true

-- `res = -errno; assert(res < 0)`
unfoldable pub device_failed : L (ℤ × List ℕ)
device_failed w =
    let res = minus_errno w.sys.errno in
    ((res, []), if is_negative res then w else record w { sys = stop failed_assert w.sys })

-- The response to `open_device`: the device's id and the descriptor, or `-errno`.
unfoldable pub read_device : L (ℤ × List ℕ)
unfolding read_header device_failed
read_device w =
    let (h, w₁) = read_header (server_event 3) 4 false w in
    let (m, w₂) = conn_get 4 w₁ in
    let (f, w₃) = conn_get_fd w₂ in
    elim h [
      | none ↦ device_failed w₁
      | some size ↦ elim m [
        | none ↦ device_failed w₂
        | some msg ↦ elim f [ none ↦ device_failed w₃ | some fd ↦ ((i32_of_bytes msg, fd), w₃) ]
      ]
    ]

-- The path without its NUL; the result is the device's id, beside what is written to `*fd`.
unfoldable pub open_device : ℕ → Bytes → L (Option ℤ × List ℕ)
unfolding request read_device finish
open_device rounds path w =
    let (r, w₁) = request rounds (open_device_request path) w in
    let ((res, fd), w₂) = read_device w₁ in
    let (id, w₃) = finish res w₂ in
    if w.backend.error
    then ((none, []), with_errno enotconn w)
    else if ltb max_path_len (length path + 1)
    then ((none, []), with_errno einval w)
    else elim r [ fail ↦ ((none, []), w₁) | ok ↦ ((id, fd), w₃) ]

-- A request with an `int` that must not be negative.
unfoldable pub int_operation : ℕ → ℕ → ℕ → ℤ → L Status
unfolding request_void
int_operation rounds opcode response (pos n) w =
    if w.backend.error
    then (fail, with_errno enotconn w)
    else request_void rounds (int_request opcode (pos n)) response w
int_operation rounds opcode response (negsuc n) w =
    (fail, with_errno (if w.backend.error then enotconn else einval) w)

unfoldable pub close_device : ℕ → ℤ → L Status
unfolding int_operation
close_device rounds device_id = int_operation rounds 4 (server_event 4) device_id

unfoldable pub switch_session : ℕ → ℤ → L Status
unfolding int_operation
switch_session rounds session = int_operation rounds 6 (server_event 8) session

unfoldable pub disable_seat : ℕ → L Status
unfolding request_void
disable_seat rounds w =
    if w.backend.error
    then (fail, with_errno enotconn w)
    else request_void rounds (empty_request 5) (server_event 9) w

-- `res` of `close_seat`: the response is read even when the request failed.
unfoldable pub ask_to_close : ℕ → L ℤ
unfolding request read_void
ask_to_close rounds w =
    let (r, w₁) = request rounds (empty_request 2) w in
    let (h, w₂) = read_header (server_event 2) 0 false w₁ in
    elim h [
      | none ↦ (minus_errno w₂.sys.errno, w₂)
      | some size ↦ (elim r [ ok ↦ pos 0 | fail ↦ minus_errno w₁.sys.errno ], w₂)
    ]

-- From `done:` on.
unfoldable pub end_seat : Listener → ℤ × Side → Status × Sys
unfolding destroy
end_seat listener (pos n, w) = (ok, destroy (execute_events listener w).1)
end_seat listener (negsuc n, w) =
    (fail, record (destroy (execute_events listener w).1) { errno = n + 1 })

unfoldable pub close_seat : ℕ → Listener → Side → Status × Sys
unfolding ask_to_close end_seat
close_seat rounds listener w =
    end_seat listener (if w.backend.error then (minus_errno enotconn, w) else ask_to_close rounds w)
