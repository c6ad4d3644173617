-- ===== src/Daemon.antt =====
-- The state of the daemon: the structs of include/seat.h, include/client.h, include/server.h and
-- include/control.h. A pointer to a client is a number, under which the stores hold the client and its
-- connection; a linked list of clients is the list of their pointers. There is one seat, as
-- `server_init` creates one, so a client's seat is that seat or NULL.
use dde_seatd.Prelude.{
  ℕ, ◌/◌, ◌%◌, List, [], ◌∷◌, ◌++◌, Option, none, some, Bool, false, ◌==◌, if◌then◌else◌, ℤ, St,
  Status, ok, fail,
}
use dde_seatd.Kernel.{Bytes, Sys, set_errno, check}
use dde_seatd.Connection.{Connection, connection_put}

abbrev pub Ptr : Type 0
Ptr = ℕ

pub data DeviceType : Type 0 where
  normal evdev hidraw drm wscons : DeviceType

pub record Device : Type 0 where
  pub device_id : ℕ
  pub fd : ℕ
  pub ref_cnt : ℕ
  pub active : Bool
  pub path : Bytes
  pub type : DeviceType

pub data ClientState : Type 0 where
  client_new client_active client_pending_disable client_disabled client_closed : ClientState

pub record Client : Type 0 where
  pub pid : ℕ
  pub uid : ℕ
  pub gid : ℕ
  -- whether `seat` is the seat and not NULL
  pub in_seat : Bool
  pub session : ℤ
  pub state : ClientState
  pub devices : List Device

pub record GroupVt : Type 0 where
  pub owner : Ptr
  pub vt : ℤ
  pub user : Bytes
  pub session : Bytes

pub record Seat : Type 0 where
  pub seat_name : Bytes
  pub clients : List Ptr
  pub active_client : Option Ptr
  pub next_client : Option Ptr
  pub vt_bound : Bool
  pub cur_vt : ℤ
  pub pending_vt_switch : ℤ
  pub group_vts : List GroupVt

pub record Daemon : Type 0 where
  pub sys : Sys
  pub seat : Seat
  pub running : Bool
  pub idle_clients : List Ptr
  pub control_clients : List Ptr
  pub client : Ptr → Client
  pub connection : Ptr → Connection
  -- `event_source->mask` of each client
  pub event_mask : Ptr → ℕ

abbrev pub M : Type 0 → Type 0
M = St Daemon

abbrev pub update {ℓ} : {A : Type ℓ} → (Ptr → A) → Ptr → A → Ptr → A
update f p v q = if p == q then v else f q

abbrev pub set_client : Ptr → Client → Daemon → Daemon
set_client p c d = record d { client = update d.client p c }

abbrev pub set_seat : Seat → Daemon → Daemon
set_seat s d = record d { seat = s }

abbrev pub set_sys : Sys → Daemon → Daemon
set_sys s d = record d { sys = s }

abbrev pub on_sys : {A : Type 0} → St Sys A → M A
on_sys m d = ((m d.sys).0, set_sys (m d.sys).1 d)

abbrev pub effect : (Sys → Sys) → Daemon → Daemon
effect f d = set_sys (f d.sys) d

-- A function on the connection of a client.
abbrev pub on_connection : {A : Type 0} → Ptr → (Connection → St Sys (A × Connection)) → M A
on_connection p f d =
    let r = f (d.connection p) d.sys in
    (r.0.0, record d { sys = r.1; connection = update d.connection p r.0.1 })

-- `errno = e; return -1` and the like
abbrev pub refuse : {A : Type 0} → A → ℕ → M A
refuse a e d = (a, effect (set_errno e) d)

abbrev pub assert : Bool → Daemon → Daemon
assert condition = effect (check condition)

-- The lists of include/linked_list.h: an insertion is at the front.
unfoldable pub remove : Ptr → List Ptr → List Ptr
remove p [] = []
remove p (q ∷ qs) = if q == p then qs else q ∷ remove p qs

abbrev pub is_ptr : Option Ptr → Ptr → Bool
is_ptr none q = false
is_ptr (some p) q = p == q

-- include/poller.h
abbrev pub event_readable : ℕ
event_readable = 1

abbrev pub event_writable : ℕ
event_writable = 4

-- `event_source_fd_update`; it cannot fail.
unfoldable pub event_source_fd_update : Ptr → ℕ → Daemon → Daemon
event_source_fd_update p mask d = record d { event_mask = update d.event_mask p mask }

-- A little-endian `uint16_t`.
unfoldable pub bytes_of_u16 : ℕ → Bytes
bytes_of_u16 n = n % 256 ∷ n / 256 % 256 ∷ []

-- `struct proto_header` and `struct control_header`
unfoldable pub header_bytes : ℕ → ℕ → Bytes
unfolding bytes_of_u16
header_bytes opcode size = bytes_of_u16 opcode ++ bytes_of_u16 size

-- `connection_put(...) == -1 || connection_put(...) == -1 || ...` for the parts of a message
unfoldable pub put_parts : Ptr → List Bytes → M Status
put_parts p [] d = (ok, d)
put_parts p (part ∷ parts) d =
    let (r, d') = on_connection p (connection_put part) d in
    let rest = put_parts p parts d' in elim r [ ok ↦ rest | fail ↦ (fail, d') ]
