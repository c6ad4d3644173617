-- ===== src/Libseat/State.antt =====
-- libseat/backend/seatd.c: the state of the backend, its clean-up and its use of the connection.
use dde_seatd.Prelude.{
  ℕ, List, [], ◌∷◌, Option, none, some, Bool, true, if◌then◌else◌, St, Status, ok, fail,
}
use dde_seatd.Kernel.{Bytes, Sys, shutdown, close, syscall, set_errno, ebadmsg}
use dde_seatd.Connection.{
  Connection, connection_close_fds, connection_put, connection_flush, connection_get,
  connection_get_fd,
}

-- `struct backend_seatd`; a pending event is its opcode, the list's front first.
pub record Backend : Type 0 where
  pub connection : Connection
  pub pending_events : List ℕ
  pub awaiting_pong : Bool
  pub error : Bool
  pub seat_name : Bytes

-- The backend, and what its calls of the kernel touch.
pub record Side : Type 0 where
  pub backend : Backend
  pub sys : Sys

abbrev pub L : Type 0 → Type 0
L = St Side

-- `seat_listener`: the program's own functions, which may use the library as well.
pub record Listener : Type 0 where
  pub enable_seat : Side → Side
  pub disable_seat : Side → Side

-- A function on the connection.
abbrev pub on_conn : {A : Type 0} → (Connection → St Sys (A × Connection)) → L A
on_conn f w =
    let r = f w.backend.connection w.sys in
    (r.0.0, record { backend = record w.backend { connection = r.0.1 }; sys = r.1 })

abbrev pub with_errno : ℕ → Side → Side
with_errno e w = record w { sys = set_errno e w.sys }

-- Of a connection that still has its socket.
unfoldable pub cleanup : Side → Side
cleanup w =
    let s = (syscall (shutdown w.backend.connection.fd) w.sys).1 in
    let (c, s') = connection_close_fds w.backend.connection s in
    record { backend = record w.backend { connection = c; pending_events = [] }; sys = s' }

-- The socket goes first, so no `shutdown` follows; the backend is gone with its events.
unfoldable pub destroy : Side → Sys
destroy w =
    let s = (syscall (close w.backend.connection.fd) w.sys).1 in
    (connection_close_fds w.backend.connection s).1

-- `errno` stays.
unfoldable pub set_error : Side → Side
unfolding cleanup
set_error w =
    let b = record w.backend { error = true } in
    if w.backend.error then w else with_errno w.sys.errno (cleanup (record w { backend = b }))

-- An error on the connection is an error of the backend.
unfoldable pub conn_put : Bytes → L Status
unfolding set_error
conn_put bytes w =
    let (r, w') = on_conn (connection_put bytes) w in
    elim r [ ok ↦ (ok, w') | fail ↦ (fail, set_error w') ]

unfoldable pub conn_flush : L Status
unfolding set_error
conn_flush w =
    let (r, w') = on_conn connection_flush w in
    elim r [ some n ↦ (ok, w') | none ↦ (fail, set_error w') ]

unfoldable pub conn_get : ℕ → L (Option Bytes)
unfolding set_error
conn_get count w =
    let (r, w') = on_conn (connection_get count) w in
    elim r [ some bytes ↦ (some bytes, w') | none ↦ (none, with_errno ebadmsg (set_error w')) ]

unfoldable pub conn_get_fd : L (Option (List ℕ))
unfolding set_error
conn_get_fd w =
    let (r, w') = on_conn connection_get_fd w in
    elim r [ some fd ↦ (some fd, w') | none ↦ (none, with_errno ebadmsg (set_error w')) ]

-- `conn_put(..) == -1 || conn_put(..) == -1 || ..`
unfoldable pub conn_put_all : List Bytes → L Status
unfolding conn_put
conn_put_all [] w = (ok, w)
conn_put_all (part ∷ parts) w =
    let (r, w') = conn_put part w in
    let rest = conn_put_all parts w' in elim r [ ok ↦ rest | fail ↦ (fail, w') ]
