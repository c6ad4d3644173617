-- ===== src/Control.antt =====
-- seatd/control.c and include/control.h: the control socket, over which a session manager creates and
-- destroys grouped VTs and switches between VTs. (What `Events` holds of seatd/control.c is what the
-- seat calls.)
pub mod Connections
pub mod Frames
pub mod Requests
pub mod Isolation
use dde_seatd.Prelude.{
  ℕ, zero, suc, List, [], ◌∷◌, ◌++◌, Option, none, some, true, false, ltb, ◌==◌, not, if◌then◌else◌,
  ℤ, pos, eqb_ℤ, minus_one, take, drop, Status, ok, fail,
}
use dde_seatd.Kernel.{Bytes, out_of_fuel, stop, esrch, enoent, eproto}
use dde_seatd.Connection.{connection_get, connection_pending, connection_restore, bytes_of_int}
use dde_seatd.Daemon.{Ptr, Daemon, M, update, effect, on_connection, header_bytes, put_parts}
use dde_seatd.Events.{bytes_of_i32, control_client_flush, control_send_message}
use dde_seatd.Seat.Switching.{seat_get_active_vt, seat_switch_vt}
use dde_seatd.Seat.GroupVts.{seat_create_group_vt, seat_destroy_group_vt, seat_find_available_vt}
use dde_seatd.Client.Handlers.{seat0, server_has_seat}
use dde_seatd.Client.Dispatch.{u16_of_bytes, i32_of_bytes, strnlen, with_message}

-- CONTROL_ERROR
unfoldable pub control_send_error : Ptr → ℕ → M Status
control_send_error p error_code = control_send_message p 255 (bytes_of_int error_code)

abbrev pub control_send_errno : Ptr → M Status
control_send_errno p d = control_send_error p d.sys.errno d

-- CONTROL_OK
unfoldable pub control_send_ok : Ptr → M Status
control_send_ok p d =
    let (r, d₁) = put_parts p (header_bytes 102 0 ∷ []) d in
    elim r [ fail ↦ (fail, d₁) | ok ↦ control_client_flush p d₁ ]

-- CONTROL_GROUP_VT_CREATED
unfoldable pub control_send_group_vt_created : Ptr → ℕ → ℤ → M Status
control_send_group_vt_created p owner_pid vt =
    control_send_message p 100 (bytes_of_int owner_pid ++ bytes_of_i32 vt)

unfoldable pub control_send_vt_state : Ptr → ℕ → ℤ → M Status
control_send_vt_state p opcode vt = control_send_message p opcode (bytes_of_i32 vt)

unfoldable pub find_owner : Daemon → ℤ → List Ptr → Option Ptr
find_owner d owner_pid [] = none
find_owner d owner_pid (p ∷ ps) =
    if eqb_ℤ (pos (d.client p).pid) owner_pid then some p else find_owner d owner_pid ps

unfoldable pub control_find_owner_client : Daemon → ℤ → Option Ptr
unfolding find_owner
control_find_owner_client d owner_pid = find_owner d owner_pid d.seat.clients

-- A name of CONTROL_NAME_MAX bytes, whose last one the handler sets to 0.
abbrev pub name_field : Bytes → Bytes
name_field field = let bytes = take 63 field in take (strnlen bytes) bytes

unfoldable pub create_group_vt : Ptr → Bytes → M Status
unfolding strnlen i32_of_bytes
create_group_vt p request d = elim (control_find_owner_client d (i32_of_bytes request)) [
  | none ↦ control_send_error p esrch d
  | some owner ↦
      let user = name_field (drop 8 request) in
      let session = name_field (drop 72 request) in
      let (r, d₁) = seat_create_group_vt owner (i32_of_bytes (drop 4 request)) user session d in
      if not (d.client owner).in_seat then control_send_error p esrch d else elim r [
        | none ↦ control_send_errno p d₁
        | some vt ↦ control_send_group_vt_created p (d.client owner).pid vt d₁
      ]
]

-- A request that has not arrived is passed over: the return is 0.
unfoldable pub handle_create_group_vt : Ptr → M Status
unfolding create_group_vt
handle_create_group_vt p = with_message p 136 ok (create_group_vt p)

-- `server_get_seat`, and the reply to a client that asks for the seat when there is none.
abbrev pub with_seat : Ptr → M Status → M Status
with_seat p k d = if server_has_seat d seat0 then k d else control_send_error p enoent d

unfoldable pub destroy_group_vt : Ptr → ℤ → M Status
destroy_group_vt p vt d =
    let (r, d₁) = seat_destroy_group_vt vt d in
    elim r [ fail ↦ control_send_errno p d₁ | ok ↦ (ok, d₁) ]

unfoldable pub handle_destroy_group_vt : Ptr → M Status
unfolding destroy_group_vt i32_of_bytes
handle_destroy_group_vt p =
    with_message p 4 ok λ request. with_seat p (destroy_group_vt p (i32_of_bytes request))

-- The reply with a VT, where -1 stands for an error.
abbrev pub send_vt_or_error : Ptr → ℕ → ℤ → M Status
send_vt_or_error p opcode vt =
    if eqb_ℤ vt minus_one then control_send_errno p else control_send_vt_state p opcode vt

unfoldable pub handle_get_active_vt : Ptr → M Status
unfolding control_send_vt_state
handle_get_active_vt p =
    with_seat p λ d. let (vt, d₁) = seat_get_active_vt d in send_vt_or_error p 103 vt d₁

unfoldable pub handle_find_free_vt : Ptr → M Status
unfolding control_send_vt_state
handle_find_free_vt p =
    with_seat p λ d. let (vt, d₁) = seat_find_available_vt d in send_vt_or_error p 104 vt d₁

unfoldable pub switch_vt : Ptr → ℤ → M Status
switch_vt p vt d =
    let (r, d₁) = seat_switch_vt vt d in
    elim r [ fail ↦ control_send_errno p d₁ | ok ↦ control_send_ok p d₁ ]

unfoldable pub handle_switch_vt : Ptr → M Status
unfolding switch_vt i32_of_bytes
handle_switch_vt p = with_message p 4 ok λ request. with_seat p (switch_vt p (i32_of_bytes request))

unfoldable pub control_client_handle_opcode : Ptr → ℕ → ℕ → M Status
unfolding handle_create_group_vt handle_destroy_group_vt handle_switch_vt
control_client_handle_opcode p opcode size =
    let sized = λ (n : ℕ) (k : M Status). if size == n then k else control_send_error p eproto in
    if opcode == 1
    then sized 136 (handle_create_group_vt p)
    else if opcode == 2
    then sized 4 (handle_destroy_group_vt p)
    else if opcode == 3
    then sized 0 (handle_get_active_vt p)
    else if opcode == 4
    then sized 0 (handle_find_free_vt p)
    else if opcode == 5
    then sized 4 (handle_switch_vt p)
    else control_send_error p eproto

unfoldable pub handle_control_messages : ℕ → Ptr → M Status
unfolding control_client_handle_opcode
handle_control_messages zero p d = (fail, effect (stop out_of_fuel) d)
handle_control_messages (suc fuel) p d =
    let (r, d₁) = on_connection p (connection_get 4) d in
    elim r [
      | none ↦ (ok, d₁)
      | some header ↦
          let opcode = u16_of_bytes header in
          let size = u16_of_bytes (drop 2 header) in
          let back = record d₁ {
            connection = update d₁.connection p (connection_restore 4 (d₁.connection p));
          } in
          elim (ltb (connection_pending (d₁.connection p)) size) [
            | true ↦ (ok, back)
            | false ↦
                let (s, d₂) = control_client_handle_opcode p opcode size d₁ in
                elim s [ fail ↦ (fail, d₂) | ok ↦ handle_control_messages fuel p d₂ ]
          ]
    ]
