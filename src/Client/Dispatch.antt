-- ===== src/Client/Dispatch.antt =====
-- seatd/client.c: from the bytes of the socket to the handlers.
use dde_seatd.Prelude.{
  ℕ, zero, suc, ◌+◌, ◌-◌, ◌*◌, ◌^◌, [], ◌∷◌, none, some, Bool, true, false, ltb, ◌==◌, ◌||◌, not,
  if◌then◌else◌, ℤ, pos, negsuc, take, drop, Status, ok, fail,
}
use dde_seatd.Kernel.{Bytes, out_of_fuel, stop, eagain}
use dde_seatd.Connection.{
  connection_read, connection_flush, connection_get, connection_pending, connection_restore,
}
use dde_seatd.Daemon.{Ptr, M, update, effect, on_connection, event_readable, event_source_fd_update}
use dde_seatd.Client.Lifecycle.{client_destroy, client_flush}
use dde_seatd.Client.Handlers.{
  handle_open_seat, handle_close_seat, handle_open_device, handle_close_device,
  handle_switch_session, handle_disable_seat, handle_ping,
}

-- A little-endian `uint16_t`, and the `int` in two's complement.
unfoldable pub u16_of_bytes : Bytes → ℕ
u16_of_bytes (a ∷ b ∷ rest) = a + b * 256
u16_of_bytes _ = 0

unfoldable pub i32_of_bytes : Bytes → ℤ
i32_of_bytes (a ∷ b ∷ c ∷ d ∷ rest) =
    let n = a + b * 256 + c * 65536 + d * 16777216 in
    if ltb n (2 ^ 31) then pos n else negsuc (2 ^ 32 - 1 - n)
i32_of_bytes _ = pos 0

-- `strnlen(path, path_len)`
unfoldable pub strnlen : Bytes → ℕ
strnlen [] = 0
strnlen (b ∷ bs) = let more = suc (strnlen bs) in if b == 0 then 0 else more

-- MAX_PATH_LEN of include/protocol.h
abbrev pub max_path_len : ℕ
max_path_len = 256

-- `connection_get` of a fixed-size message, and what to do with it.
abbrev pub with_message : {A : Type 0} → Ptr → ℕ → A → (Bytes → M A) → M A
with_message p count failure k d =
    let (r, d₁) = on_connection p (connection_get count) d in
    elim r [ none ↦ (failure, d₁) | some bytes ↦ k bytes d₁ ]

-- `(uint16_t)(path_len - 1)` of a length that is not 0.
unfoldable pub read_path : Ptr → ℕ → M Status
unfolding strnlen
read_path p path_len = with_message p path_len fail λ path.
    if path_len == 0 || not (strnlen path == path_len - 1)
    then (λ d. (fail, d))
    else handle_open_device p (take (path_len - 1) path)

unfoldable pub read_open_device : Ptr → ℕ → M Status
unfolding read_path u16_of_bytes
read_open_device p size d =
    if ltb size 2
    then (fail, d)
    else with_message p 2 fail
        (λ msg.
          if not (u16_of_bytes msg == size - 2)
          then (λ d₁. (fail, d₁))
          else if ltb max_path_len (u16_of_bytes msg)
          then (λ d₁. (fail, d₁))
          else read_path p (u16_of_bytes msg))
        d

-- A request that carries one `int`.
abbrev pub read_int : Ptr → ℕ → (ℤ → M Status) → M Status
read_int p size k d =
    if size == 4 then with_message p 4 fail (λ msg. k (i32_of_bytes msg)) d else (fail, d)

-- A request that carries nothing.
abbrev pub read_none : ℕ → M Status → M Status
read_none size k d = if size == 0 then k d else (fail, d)

-- The labels of the `switch`: CLIENT_EVENT(1) to CLIENT_EVENT(7) of include/protocol.h, and `default`.
pub data Opcode : Type 0 where
  open_seat close_seat open_device close_device disable_seat switch_session ping other : Opcode

unfoldable pub opcode_of : ℕ → Opcode
opcode_of n =
    if n == 1
    then open_seat
    else if n == 2
    then close_seat
    else if n == 3
    then open_device
    else if n == 4
    then close_device
    else if n == 5
    then disable_seat
    else if n == 6
    then switch_session
    else if n == 7
    then ping
    else other

unfoldable pub dispatch : Ptr → ℕ → Opcode → M Status
unfolding read_open_device i32_of_bytes
dispatch p size open_seat d = read_none size (handle_open_seat p) d
dispatch p size close_seat d = read_none size (handle_close_seat p) d
dispatch p size open_device d = read_open_device p size d
dispatch p size close_device d = read_int p size (handle_close_device p) d
dispatch p size switch_session d = read_int p size (handle_switch_session p) d
dispatch p size disable_seat d = read_none size (handle_disable_seat p) d
dispatch p size ping d = read_none size (handle_ping p) d
dispatch p size other d = (fail, d)

unfoldable pub client_handle_opcode : Ptr → ℕ → ℕ → M Status
unfolding dispatch opcode_of
client_handle_opcode p opcode size d =
    let (r, d₁) = dispatch p size (opcode_of opcode) d in
    elim r [ fail ↦ (fail, d₁) | ok ↦ client_flush p d₁ ]

-- The loop over the messages that have arrived whole. Each round takes a header's four bytes at least.
unfoldable pub handle_messages : ℕ → Ptr → M Status
unfolding client_handle_opcode
handle_messages zero p d = (fail, effect (stop out_of_fuel) d)
handle_messages (suc fuel) p d =
    let (r, d₁) = on_connection p (connection_get 4) d in
    elim r [
      | none ↦ (ok, d₁)
      | some header ↦
          let opcode = u16_of_bytes header in
          let size = u16_of_bytes (drop 2 header) in
          let back = record d₁ {
            connection = update d₁.connection p (connection_restore 4 (d₁.connection p));
          } in
          elim (ltb (connection_pending (d₁.connection p)) size) [
            | true ↦ (ok, back)
            | false ↦
                let (s, d₂) = client_handle_opcode p opcode size d₁ in
                elim s [ fail ↦ (fail, d₂) | ok ↦ handle_messages fuel p d₂ ]
          ]
    ]

-- The bits of an event's mask.
pub record Mask : Type 0 where
  pub error : Bool
  pub hangup : Bool
  pub writable : Bool
  pub readable : Bool

unfoldable pub on_writable : Ptr → M Status
on_writable p d =
    let (r, d₁) = on_connection p connection_flush d in
    elim r [
      | none ↦ if d₁.sys.errno == eagain then (ok, d₁) else (fail, d₁)
      | some n ↦ (ok, event_source_fd_update p event_readable d₁)
    ]

-- One more than the messages that fit into the buffer.
abbrev pub message_fuel : ℕ
message_fuel = 65

unfoldable pub on_readable : Ptr → M Status
unfolding handle_messages
on_readable p d =
    let (r, d₁) = on_connection p connection_read d in
    elim r [
      | none ↦ if d₁.sys.errno == eagain then handle_messages message_fuel p d₁ else (fail, d₁)
      | some n ↦ if n == 0 then (fail, d₁) else handle_messages message_fuel p d₁
    ]

unfoldable pub handle_events : Mask → Ptr → M Status
unfolding on_writable on_readable
handle_events mask p d =
    let (w, d₁) = if mask.writable then on_writable p d else (ok, d) in
    if mask.error || mask.hangup
    then (fail, d)
    else elim w [ fail ↦ (fail, d₁) | ok ↦ if mask.readable then on_readable p d₁ else (ok, d₁) ]

unfoldable pub client_handle_connection : Mask → Ptr → M Status
unfolding handle_events
client_handle_connection mask p d =
    let (r, d₁) = handle_events mask p d in
    elim r [ ok ↦ (ok, d₁) | fail ↦ (fail, client_destroy p d₁) ]
