-- ===== src/Libseat/Wire.antt =====
-- The requests that libseat/backend/seatd.c writes, for seatd/client.c to read. The children follow
-- the daemon through one of them.
pub mod Fields
pub mod Rounds
use mathlib.Core.List.{append_assoc, append-nil}
use dde_seatd.Prelude.{
  ℕ, zero, suc, ◌+◌, ◌*◌, ◌-◌, ◌^◌, ◌≤◌, ◌<◌, ◌≡◌, ◌≢◌, refl, sym, ap, ap₂, ◌∙◌, subst, List, [],
  ◌∷◌, ◌++◌, Option, none, some, Bool, true, false, ltb, leb, ◌==◌, ◌||◌, not, if◌then◌else◌,
  if_ind, Bool_ind, take, drop, length, length-append, arith, Status, ok, fail, ℤ, pos, negsuc,
}
use dde_seatd.Kernel.{Bytes, Sys}
use dde_seatd.Buffer.{size}
use dde_seatd.Buffer.Refine.{length-contents}
use dde_seatd.Connection.{Connection, connection_get, connection_pending, connection_restore}
use dde_seatd.Connection.Messages.{header_round_trip, i32_round_trip, IsI32}
use dde_seatd.Daemon.{Ptr, Daemon, M, update, on_connection, header_bytes, bytes_of_u16}
use dde_seatd.Events.{bytes_of_i32}
use dde_seatd.Client.Lifecycle.{client_flush}
use dde_seatd.Client.Handlers.{
  handle_open_seat, handle_close_seat, handle_open_device, handle_close_device,
  handle_switch_session, handle_disable_seat, handle_ping,
}
use dde_seatd.Client.Dispatch.{
  u16_of_bytes, i32_of_bytes, strnlen, max_path_len, read_path, read_open_device, with_message,
  read_int, opcode_of, dispatch, client_handle_opcode, handle_messages,
}
use dde_seatd.Libseat.Requests.{open_device_request, int_request, empty_request}
use dde_seatd.Libseat.Inbox.{
  after, Next, connection_get-next, contents-after, after-IsValid, take-append, Next-size,
}

-- The daemon once it has taken `n` bytes from a client's connection.
abbrev pub taken : Ptr → ℕ → Daemon → Daemon
taken p n d = record d { connection = update d.connection p (after n (d.connection p)) }

connection-taken :
    (p : Ptr) (n : ℕ) (d : Daemon) → (taken p n d).connection p ≡ after n (d.connection p)
connection-taken p n d =
    if_ind (λ (c : Connection). c ≡ after n (d.connection p)) (p == p) (λ e. refl)
      (λ e. absurd (ground arith))

module _ (p : Ptr) (xs rest : Bytes) (n : ℕ) (d : Daemon) (h : Next xs rest (d.connection p))
    (l : length xs ≡ n) where
  pub on_connection-next : on_connection p (connection_get n) d ≡ (some xs, taken p n d)
  on_connection-next =
      subst (λ k. on_connection p (connection_get k) d ≡ (some xs, taken p k d)) l
        (ap
          (λ (r : (Option Bytes × Connection) × Sys).
            (r.0.0, record d { sys = r.1; connection = update d.connection p r.0.1 }))
          (connection_get-next xs rest (d.connection p) h d.sys))

  pub taken-Next : (ys zs : Bytes) → rest ≡ ys ++ zs → Next ys zs ((taken p n d).connection p)
  taken-Next ys zs e = subst (Next ys zs) (sym (connection-taken p n d)) (
      subst (λ k. Next ys zs (after k (d.connection p))) l
        (record {
          valid = after-IsValid xs rest (d.connection p) h;
          next = contents-after xs rest (d.connection p) h ∙ e;
        }))

-- What the program may ask for; the paths are without their NUL.
pub data Request : Type 0 where
  open_seat close_seat disable_seat ping : Request
  open_device : Bytes → Request
  close_device switch_session : ℤ → Request

-- The parts of the request's message, as the operations of the backend put them.
abbrev pub parts_of : Request → List Bytes
parts_of open_seat = empty_request 1
parts_of close_seat = empty_request 2
parts_of (open_device path) = open_device_request path
parts_of (close_device n) = int_request 4 n
parts_of disable_seat = empty_request 5
parts_of (switch_session n) = int_request 6 n
parts_of ping = empty_request 7

abbrev pub joined : List Bytes → Bytes
joined [] = []
joined (part ∷ parts) = part ++ joined parts

-- The daemon's function for it.
abbrev pub handler_of : Request → Ptr → M Status
handler_of open_seat p = handle_open_seat p
handler_of close_seat p = handle_close_seat p
handler_of (open_device path) p = handle_open_device p path
handler_of (close_device n) p = handle_close_device p n
handler_of disable_seat p = handle_disable_seat p
handler_of (switch_session n) p = handle_switch_session p n
handler_of ping p = handle_ping p

-- No byte is a NUL.
abbrev pub NoNul : Bytes → Type 0
NoNul [] = Unit
NoNul (b ∷ bs) = (0 < b) × NoNul bs

-- What a request can hold.
abbrev pub Fits : Request → Type 0
Fits (open_device path) = NoNul path × (length path < max_path_len)
Fits (close_device n) = IsI32 n
Fits (switch_session n) = IsI32 n
Fits _ = Unit

-- The daemon once it has taken the parts one by one.
abbrev pub taken_all : Ptr → List Bytes → Daemon → Daemon
taken_all p [] d = d
taken_all p (part ∷ parts) d = taken_all p parts (taken p (length part) d)

-- The header of a request, and what follows it.
abbrev pub code_of : Request → ℕ
code_of open_seat = 1
code_of close_seat = 2
code_of (open_device path) = 3
code_of (close_device n) = 4
code_of disable_seat = 5
code_of (switch_session n) = 6
code_of ping = 7

abbrev pub size_of : Request → ℕ
size_of (open_device path) = 2 + (length path + 1)
size_of (close_device n) = 4
size_of (switch_session n) = 4
size_of _ = 0

abbrev pub body_of : Request → List Bytes
body_of (open_device path) = bytes_of_u16 (length path + 1) ∷ (path ++ (0 ∷ [])) ∷ []
body_of (close_device n) = bytes_of_i32 n ∷ []
body_of (switch_session n) = bytes_of_i32 n ∷ []
body_of _ = []

pub parts_of-eq : (q : Request) → parts_of q ≡ header_bytes (code_of q) (size_of q) ∷ body_of q
parts_of-eq open_seat = refl
parts_of-eq close_seat = refl
parts_of-eq (open_device path) = refl
parts_of-eq (close_device n) = refl
parts_of-eq disable_seat = refl
parts_of-eq (switch_session n) = refl
parts_of-eq ping = refl

pub length-bytes_of_i32 : (n : ℤ) → length (bytes_of_i32 n) ≡ 4
unfolding bytes_of_i32
length-bytes_of_i32 (pos n) = refl
length-bytes_of_i32 (negsuc n) = refl

pub length-body_of : (q : Request) → length (joined (body_of q)) ≡ size_of q
unfolding bytes_of_u16
length-body_of open_seat = refl
length-body_of close_seat = refl
length-body_of (open_device path) =
    omega (arith, ap length (append-nil (path ++ (0 ∷ []))), length-append path (0 ∷ []))
length-body_of (close_device n) = ap length (append-nil (bytes_of_i32 n)) ∙ length-bytes_of_i32 n
length-body_of disable_seat = refl
length-body_of (switch_session n) = ap length (append-nil (bytes_of_i32 n)) ∙ length-bytes_of_i32 n
length-body_of ping = refl

pub header-Fits : (q : Request) → Fits q → (code_of q < 2 ^ 16) × (size_of q < 2 ^ 16)
header-Fits open_seat f = (omega arith, omega arith)
header-Fits close_seat f = (omega arith, omega arith)
header-Fits (open_device path) f = (omega arith, omega arith)
header-Fits (close_device n) f = (omega arith, omega arith)
header-Fits disable_seat f = (omega arith, omega arith)
header-Fits (switch_session n) f = (omega arith, omega arith)
header-Fits ping f = (omega arith, omega arith)

pub strnlen-append_nul : (path : Bytes) → NoNul path → strnlen (path ++ (0 ∷ [])) ≡ length path
unfolding strnlen
strnlen-append_nul [] h = refl
strnlen-append_nul (b ∷ bs) h =
    if_ind (λ n. n ≡ suc (length bs)) (b == 0) (λ e. absurd (ground (arith, h.0)))
      (λ e. ap suc (strnlen-append_nul bs h.1))
