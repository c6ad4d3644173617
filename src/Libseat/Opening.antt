-- ===== src/Libseat/Opening.antt =====
-- libseat/backend/seatd.c: connecting to the daemon and opening a seat.
use dde_seatd.Prelude.{
  ℕ, ◌+◌, ◌-◌, ◌^◌, ◌%◌, [], ◌++◌, Option, none, some, Bool, true, false, ltb, ◌==◌, ◌&&◌, ◌||◌,
  not, if◌then◌else◌, take, set, get_or, replicate, St, ok, fail,
}
use dde_seatd.Kernel.{Bytes, Sys, socket, connect, calloc, close, syscall, ebadmsg}
use dde_seatd.Connection.{connection_on}
use dde_seatd.Events.{server_event}
use dde_seatd.Client.Dispatch.{u16_of_bytes, strnlen}
use dde_seatd.Libseat.State.{Backend, Side, L, Listener, with_errno, conn_get, destroy}
use dde_seatd.Libseat.Reading.{execute_events, read_header}
use dde_seatd.Libseat.Requests.{request, empty_request}

-- `path` is SEATD_SOCK, or SEATD_DEFAULTPATH where that is not set; `sun_path` holds 107 bytes of it.
unfoldable pub seatd_connect : Bytes → St Sys (Option ℕ)
seatd_connect path s =
    let (r, s₁) = syscall socket s in
    elim r [
      | none ↦ (none, s₁)
      | some fd ↦
          let (c, s₂) = syscall (connect fd (take 107 path)) s₁ in
          elim c [ none ↦ (none, (syscall (close fd) s₂).1) | some n ↦ (some fd, s₂) ]
    ]

-- MAX_SEAT_LEN
abbrev pub max_seat_len : ℕ
max_seat_len = 64

-- The array of the name after `len` bytes were read into it, and `seat_name_len`: a name of an old daemon
-- gets its NUL here.
unfoldable pub terminate : Bytes → ℕ → Bytes × ℕ
terminate name len =
    let array = name ++ replicate (max_seat_len - len) 0 in
    if len == 0 || (ltb len max_seat_len && not (get_or array (len - 1) 0 == 0))
    then (set array len 0, (len + 1) % 2 ^ 16)
    else (array, len)

-- Whether the name ends with its first NUL.
unfoldable pub is_terminated : Bytes × ℕ → Bool
unfolding strnlen
is_terminated (array, len) = not (len == 0) && (strnlen (take len array) == (len - 1) % 2 ^ 16)

abbrev bad_message : L (Option Bytes)
bad_message w = (none, with_errno ebadmsg w)

-- The name, or -1 with `errno` as the code's `res` gives it.
unfoldable pub read_name : ℕ → ℕ → L (Option Bytes)
unfolding terminate is_terminated
read_name size len w =
    let (r, w') = conn_get len w in
    if not (len == size - 2) || ltb max_seat_len len then bad_message w else elim r [
      | none ↦ (none, w')
      | some name ↦
          let named = terminate name len in
          if is_terminated named then (some named.0, w') else bad_message w'
    ]

-- The response to CLIENT_OPEN_SEAT.
unfoldable pub read_opened : L (Option Bytes)
unfolding read_header read_name u16_of_bytes
read_opened w =
    let (h, w₁) = read_header (server_event 1) 2 true w in
    let (m, w₂) = conn_get 2 w₁ in
    elim h [
      | none ↦ (none, w₁)
      | some size ↦ elim m [ none ↦ (none, w₂) | some rmsg ↦ read_name size (u16_of_bytes rmsg) w₂ ]
    ]

abbrev pub backend_on : ℕ → Backend
backend_on fd = record {
  connection = connection_on fd;
  pending_events = [];
  awaiting_pong = false;
  error = false;
  seat_name = replicate max_seat_len 0;
}

-- `errno` is that of the failure, whatever the clean-up does to it.
abbrev pub backend_error : Side → Option Side × Sys
backend_error w = (none, record (destroy w) { errno = w.sys.errno })

-- `_open_seat`; the listener's functions are there.
unfoldable pub open_seat_on : ℕ → Listener → ℕ → Sys → Option Side × Sys
unfolding request read_opened execute_events
open_seat_on rounds listener fd s =
    let (a, s₁) = syscall calloc s in
    let (r, w₁) = request rounds (empty_request 1) (record { backend = backend_on fd; sys = s₁ }) in
    let (name, w₂) = read_opened w₁ in
    elim a [
      | none ↦ (none, (syscall (close fd) s₁).1)
      | some ptr ↦ elim r [
        | fail ↦ backend_error w₁
        | ok ↦ elim name [
          | none ↦ backend_error w₂
          | some array ↦
              let w₃ =
                (execute_events listener
                  (record w₂ { backend = record w₂.backend { seat_name = array } })).1 in
              (some w₃, w₃.sys)
        ]
      ]
    ]

unfoldable pub open_seat : ℕ → Bytes → Listener → Sys → Option Side × Sys
unfolding open_seat_on seatd_connect
open_seat rounds path listener s =
    let (r, s') = seatd_connect path s in
    elim r [ none ↦ (none, s') | some fd ↦ open_seat_on rounds listener fd s' ]
