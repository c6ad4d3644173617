-- ===== src/Events.antt =====
-- What seatd/seat.c sends on its own account: the enable and disable events of seatd/client.c, and the
-- broadcast of VT changes to the control clients, with the sending functions of seatd/control.c.
use dde_seatd.Prelude.{
  ℕ, ◌+◌, ◌-◌, ◌/◌, ◌%◌, ◌^◌, List, [], ◌∷◌, ◌++◌, none, some, ◌==◌, if◌then◌else◌, ℤ, pos, negsuc,
  Status, ok, fail, length,
}
use dde_seatd.Kernel.{Bytes, close, eagain, syscall}
use dde_seatd.Connection.{connection_flush, connection_close_fds}
use dde_seatd.Daemon.{
  Ptr, Daemon, M, update, on_connection, remove, event_readable, event_writable,
  event_source_fd_update, header_bytes, put_parts,
}

-- include/protocol.h: SERVER_EVENT(n)
abbrev pub server_event : ℕ → ℕ
server_event n = n + 2 ^ 15

-- `connection_put(header) == -1 || connection_flush() == -1`
unfoldable pub client_send_event : ℕ → Ptr → M Status
client_send_event opcode p d =
    let (r, d') = put_parts p (header_bytes opcode 0 ∷ []) d in
    let (n, d'') = on_connection p connection_flush d' in
    elim r [ fail ↦ (fail, d') | ok ↦ elim n [ none ↦ (fail, d'') | some sent ↦ (ok, d'') ] ]

unfoldable pub client_send_disable_seat : Ptr → M Status
unfolding client_send_event
client_send_disable_seat = client_send_event (server_event 5)

unfoldable pub client_send_enable_seat : Ptr → M Status
unfolding client_send_event
client_send_enable_seat = client_send_event (server_event 6)

-- `int32_t`, little-endian in two's complement
unfoldable pub bytes_of_i32 : ℤ → Bytes
bytes_of_i32 (pos n) = n % 256 ∷ n / 256 % 256 ∷ n / 65536 % 256 ∷ n / 16777216 % 256 ∷ []
bytes_of_i32 (negsuc n) =
    (255 - n % 256)
    ∷ (255 - n / 256 % 256)
    ∷ (255 - n / 65536 % 256)
    ∷ (255 - n / 16777216 % 256)
    ∷ []

unfoldable pub control_client_destroy : Ptr → Daemon → Daemon
unfolding remove
control_client_destroy p d =
    let d₁ = record d { control_clients = remove p d.control_clients } in
    let (c, s) = connection_close_fds (d₁.connection p) d₁.sys in
    record d₁ { sys = (syscall (close c.fd) s).1; connection = update d₁.connection p c }

unfoldable pub control_client_flush : Ptr → M Status
control_client_flush p d =
    let (r, d') = on_connection p connection_flush d in
    elim r [
      | none ↦
          if d'.sys.errno == eagain
          then (ok, event_source_fd_update p (event_readable + event_writable) d')
          else (fail, d')
      | some n ↦ (ok, event_source_fd_update p event_readable d')
    ]

unfoldable pub control_send_message : Ptr → ℕ → Bytes → M Status
unfolding control_client_flush
control_send_message p opcode payload d =
    let (r, d') = put_parts p (header_bytes opcode (length payload) ∷ payload ∷ []) d in
    elim r [ fail ↦ (fail, d') | ok ↦ control_client_flush p d' ]

-- CONTROL_VT_CHANGED
unfoldable pub control_send_vt_change : Ptr → ℤ → ℤ → M Status
unfolding control_send_message
control_send_vt_change p old_vt new_vt =
    control_send_message p 101 (bytes_of_i32 old_vt ++ bytes_of_i32 new_vt)

-- A failed send destroys the control client.
abbrev pub after_send : Ptr → Status × Daemon → Daemon
after_send p (ok, d) = d
after_send p (fail, d) = control_client_destroy p d

unfoldable pub broadcast_to : List Ptr → ℤ → ℤ → Daemon → Daemon
unfolding control_send_vt_change control_client_destroy
broadcast_to [] old_vt new_vt d = d
broadcast_to (p ∷ ps) old_vt new_vt d =
    broadcast_to ps old_vt new_vt (after_send p (control_send_vt_change p old_vt new_vt d))

-- The loop holds the next element before it destroys one, so it visits the list it began with.
unfoldable pub control_broadcast_vt_change : ℤ → ℤ → Daemon → Daemon
unfolding broadcast_to
control_broadcast_vt_change old_vt new_vt d = broadcast_to d.control_clients old_vt new_vt d
