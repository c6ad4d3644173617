-- ===== src/Libseat/Reading.antt =====
-- libseat/backend/seatd.c: reading the daemon's messages. Events wait on a list until the program
-- dispatches; a response is left in the connection for the request that waits for it.
use dde_seatd.Prelude.{
  ℕ, zero, suc, ◌+◌, List, [], ◌∷◌, Option, none, some, Bool, true, false, leb, ◌==◌, ◌||◌, not,
  if◌then◌else◌, drop, length, Status, ok, fail,
}
use dde_seatd.Kernel.{
  has_bit, pollin, pollerr, pollhup, Bytes, poll, calloc, syscall, stop, out_of_fuel, failed_assert,
  eagain, eintr, epipe, eio, ebadmsg,
}
use dde_seatd.Connection.{
  connection_get, connection_read, connection_pending, connection_restore, ints_of_bytes,
}
use dde_seatd.Events.{server_event}
use dde_seatd.Client.Dispatch.{u16_of_bytes}
use dde_seatd.Libseat.State.{
  Side, L, Listener, on_conn, with_errno, set_error, conn_flush, conn_get,
}

-- SERVER_DISABLE_SEAT, SERVER_ENABLE_SEAT, SERVER_PONG, SERVER_ERROR
abbrev pub server_disable_seat : ℕ
server_disable_seat = server_event 5

abbrev pub server_enable_seat : ℕ
server_enable_seat = server_event 6

abbrev pub server_pong : ℕ
server_pong = server_event 7

abbrev pub server_error : ℕ
server_error = server_event 0x7fff

-- `error_code`, an `int`; as `errno` it is the number with the same bits.
abbrev pub error_of : Bytes → ℕ → ℕ
error_of bytes old = elim (ints_of_bytes bytes) [ [] ↦ old | n ∷ ns ↦ n ]

-- The sizes that fit a message.
abbrev pub fits : Bool → ℕ → ℕ → Bool
fits true expected size = leb expected size
fits false expected size = size == expected

-- What a header with another opcode comes to: the daemon's error, or a protocol error.
unfoldable pub read_error : Bytes → L (Option ℕ)
unfolding conn_get set_error u16_of_bytes
read_error header w =
    let (r, w') = conn_get 4 w in
    if not (u16_of_bytes header == server_error) || not (u16_of_bytes (drop 2 header) == 4)
    then (none, with_errno ebadmsg (set_error w))
    else elim r [
      | none ↦ (none, with_errno ebadmsg (set_error w'))
      | some msg ↦ (none, with_errno (error_of msg w'.sys.errno) w')
    ]

-- What the header must be; `none` is SIZE_MAX.
unfoldable pub check_header : ℕ → ℕ → Bool → Bytes → L (Option ℕ)
unfolding read_error
check_header expected_opcode expected_size variable header w =
    let size = u16_of_bytes (drop 2 header) in
    if not (u16_of_bytes header == expected_opcode)
    then read_error header w
    else if not (fits variable expected_size size)
    then (none, with_errno ebadmsg (set_error w))
    else (some size, w)

unfoldable pub read_header : ℕ → ℕ → Bool → L (Option ℕ)
unfolding check_header
read_header expected_opcode expected_size variable w =
    let (r, w') = conn_get 4 w in
    elim r [
      | none ↦ (none, set_error w')
      | some header ↦ check_header expected_opcode expected_size variable header w'
    ]

unfoldable pub queue_event : ℕ → L Status
queue_event opcode w =
    let (r, s) = syscall calloc w.sys in
    elim r [
      | none ↦ (fail, record w { sys = s })
      | some ev ↦ (
        ok,
        record {
          backend = record w.backend { pending_events = opcode ∷ w.backend.pending_events };
          sys = s;
        },
      )
    ]

-- One call of the listener; another opcode is an `abort`.
unfoldable pub execute_event : Listener → ℕ → Side → Side
execute_event listener opcode w =
    if opcode == server_disable_seat
    then listener.disable_seat w
    else if opcode == server_enable_seat
    then listener.enable_seat w
    else record w { sys = stop failed_assert w.sys }

unfoldable pub execute_all : Listener → List ℕ → Side → Side
unfolding execute_event
execute_all listener [] w = w
execute_all listener (opcode ∷ opcodes) w =
    execute_all listener opcodes (execute_event listener opcode w)

-- The list is taken whole before the first call, so what a call queues waits.
unfoldable pub execute_events : Listener → L ℕ
unfolding execute_all
execute_events listener w =
    let list = w.backend.pending_events in
    (
      length list,
      execute_all listener list (record w { backend = record w.backend { pending_events = [] } }),
    )

-- What the loop does with a message that is no background event. The answer is the number of packets, or
-- none for -1, with `*opcode`, which is 0 as long as the message has not arrived whole.
unfoldable pub other_message : Bool → ℕ → Bytes → L (Option ℕ × ℕ)
unfolding set_error
other_message wanted packets header w =
    let restored = λ (x : Side). record x {
      backend = record x.backend { connection = connection_restore 4 x.backend.connection };
    } in
    let whole = leb (u16_of_bytes (drop 2 header)) (connection_pending w.backend.connection) in
    if wanted
    then ((some packets, if whole then u16_of_bytes header else 0), restored w)
    else ((none, 0), restored (with_errno ebadmsg (set_error w)))

pub data Message : Type 0 where
  pong event other : Message

unfoldable pub message_of : ℕ → Message
message_of opcode =
    if opcode == server_pong
    then pong
    else if opcode == server_disable_seat || opcode == server_enable_seat
    then event
    else other

-- The `switch` on a header, with what goes on reading; without a header the loop ends.
unfoldable pub after_header : (ℕ → L (Option ℕ × ℕ)) → Bool → ℕ → Option Bytes → L (Option ℕ × ℕ)
unfolding other_message message_of queue_event
after_header go_on wanted packets none w = ((some packets, 0), w)
after_header go_on wanted packets (some header) w =
    let opcode = u16_of_bytes header in
    let (q, w') = queue_event opcode w in
    elim (message_of opcode) [
      | pong ↦
          go_on (packets + 1) (record w { backend = record w.backend { awaiting_pong = false } })
      | event ↦ elim q [ ok ↦ go_on (packets + 1) w' | fail ↦ ((none, 0), set_error w') ]
      | other ↦ other_message wanted (packets + 1) header w
    ]

-- The loop of `read_and_queue`, each round of which takes the four bytes of a header, or ends.
unfoldable pub read_loop : ℕ → Bool → ℕ → L (Option ℕ × ℕ)
unfolding after_header
read_loop zero wanted packets w = ((none, 0), record w { sys = stop out_of_fuel w.sys })
read_loop (suc fuel) wanted packets w =
    let (r, w') = on_conn (connection_get 4) w in
    after_header (read_loop fuel wanted) wanted packets r w'

-- One more than the headers that fit into the buffer.
abbrev pub read_fuel : ℕ
read_fuel = 65

-- `wanted` tells whether there is an opcode pointer.
unfoldable pub read_and_queue : Bool → L (Option ℕ × ℕ)
unfolding read_loop
read_and_queue wanted = read_loop read_fuel wanted 0

-- The read at the end of `poll_connection`.
unfoldable pub read_polled : L (Option ℕ)
unfolding set_error
read_polled w =
    let (r, w') = on_conn connection_read w in
    elim r [
      | some n ↦ if n == 0 then (none, with_errno eio (set_error w')) else (some n, w')
      | none ↦ if w'.sys.errno == eagain then (none, w') else (none, set_error w')
    ]

unfoldable pub poll_connection : L (Option ℕ)
unfolding read_polled
poll_connection w =
    let fd = w.backend.connection.fd in
    let (r, s) = syscall (poll ((fd, pollin) ∷ [])) w.sys in
    let revents = s.kernel.revents s.trace 0 in
    let w' = record w { sys = s } in
    elim r [
      | none ↦ if s.errno == eagain || s.errno == eintr then (some 0, w') else (none, w')
      | some n ↦
          if has_bit revents pollerr || has_bit revents pollhup
          then (none, with_errno epipe (set_error w'))
          else if has_bit revents pollin
          then read_polled w'
          else (some 0, w')
    ]

-- The loop of `read_until_response`, which may wait for ever; `rounds` bounds how often it polls.
unfoldable pub response_loop : ℕ → L Status
unfolding read_and_queue poll_connection
response_loop zero w = (fail, record w { sys = stop out_of_fuel w.sys })
response_loop (suc rounds) w =
    let ((r, opcode), w₁) = read_and_queue true w in
    let (p, w₂) = poll_connection w₁ in
    elim r [
      | none ↦ (fail, w₁)
      | some packets ↦ elim (opcode == 0) [
        | false ↦ (ok, w₁)
        | true ↦ elim p [ none ↦ (fail, w₂) | some n ↦ response_loop rounds w₂ ]
      ]
    ]

unfoldable pub read_until_response : ℕ → L Status
unfolding response_loop conn_flush
read_until_response rounds w =
    let (r, w') = conn_flush w in elim r [ fail ↦ (fail, w') | ok ↦ response_loop rounds w' ]
