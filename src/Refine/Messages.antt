-- ===== src/Refine/Messages.antt =====
-- The loop over a client's messages, and a client's coming and going, as moves of the abstract seat.
use dde_seatd.Prelude.{
  ℕ, zero, suc, ◌-◌, ◌≡◌, refl, Bool, true, false, not, ◌==◌, ◌||◌, ltb, if◌then◌else◌, if_ind,
  Option_ind, Bool_ind, Status_ind, arith, take, drop, ℤ, Status, ok, fail,
}
use dde_seatd.Kernel.{Bytes, eagain}
use dde_seatd.Connection.{connection_get, connection_read, connection_pending}
use dde_seatd.Daemon.{Ptr, Daemon, M, on_connection, effect, event_source_fd_update}
use dde_seatd.Seat.Vt.{close_fd}
use dde_seatd.Client.Lifecycle.{close_connection_fds, client_destroy, client_flush}
use dde_seatd.Client.Handlers.{
  handle_open_seat, handle_close_seat, handle_open_device, handle_close_device,
  handle_switch_session, handle_disable_seat, handle_ping,
}
use dde_seatd.Client.Dispatch.{
  Opcode, open_seat, close_seat, open_device, close_device, disable_seat, switch_session, ping,
  other, opcode_of, u16_of_bytes, i32_of_bytes, strnlen, max_path_len, read_path, read_open_device,
  read_int, read_none, dispatch, client_handle_opcode, handle_messages, Mask, on_writable,
  on_readable, handle_events, client_handle_connection, message_fuel,
}
use dde_seatd.Protocol.{view, destroys, Reach, here}
use dde_seatd.Protocol.Inv.{Inv, Reach-trans, Reach-Move, Reach-eq}
use dde_seatd.Refine.Removal.{seat_remove_client-Reach}
use dde_seatd.Refine.Handlers.{
  Moves, after_moves, reply-Moves, handle_open_seat-Moves, handle_close_seat-Moves,
  handle_open_device-Moves, handle_close_device-Moves, handle_switch_session-Moves,
  handle_disable_seat-Moves,
}

if-Moves : (b : Bool) (f g : M Status) → Moves f → Moves g → Moves (if b then f else g)
if-Moves true f g hf hg = hf
if-Moves false f g hf hg = hg

fail-Moves : Moves (λ d. (fail, d))
fail-Moves d i = here

read_path-Moves : (p : Ptr) (n : ℕ) → Moves (read_path p n)
unfolding read_path
read_path-Moves p n d i =
    Option_ind (λ (r : Status × Daemon). Reach (view d) (view r.1))
      (on_connection p (connection_get n) d).0 (λ e. here)
      λ path e.
        if-Moves (n == 0 || not (strnlen path == n - 1)) (λ x. (fail, x))
          (handle_open_device p (take (n - 1) path)) fail-Moves
          (handle_open_device-Moves p (take (n - 1) path)) (on_connection p (connection_get n) d).1
          i

read_open_device-Moves : (p : Ptr) (size : ℕ) → Moves (read_open_device p size)
unfolding read_open_device
read_open_device-Moves p size d i =
    if_ind Outcome (ltb size 2) (λ e. here)
      λ e.
        Option_ind Outcome (on_connection p (connection_get 2) d).0 (λ n. here)
          λ msg n.
            if-Moves (not (u16_of_bytes msg == size - 2)) (λ x. (fail, x)) (bounded msg) fail-Moves
              (if-Moves (ltb max_path_len (u16_of_bytes msg)) (λ x. (fail, x))
                (read_path p (u16_of_bytes msg)) fail-Moves (read_path-Moves p (u16_of_bytes msg)))
              (on_connection p (connection_get 2) d).1 i
  where
    Outcome : Status × Daemon → Type 0
    Outcome r = Reach (view d) (view r.1)

    bounded : Bytes → M Status
    bounded msg =
        if ltb max_path_len (u16_of_bytes msg)
        then (λ x. (fail, x))
        else read_path p (u16_of_bytes msg)

read_int-Moves :
    (p : Ptr) (size : ℕ) (k : ℤ → M Status) → ((n : ℤ) → Moves (k n)) → Moves (read_int p size k)
read_int-Moves p size k h d i =
    if_ind Outcome (size == 4)
      (λ e.
        Option_ind Outcome (on_connection p (connection_get 4) d).0 (λ n. here)
          (λ msg n. h (i32_of_bytes msg) (on_connection p (connection_get 4) d).1 i))
      (λ e. here)
  where
    Outcome : Status × Daemon → Type 0
    Outcome r = Reach (view d) (view r.1)

read_none-Moves : (size : ℕ) (k : M Status) → Moves k → Moves (read_none size k)
read_none-Moves size k h d i =
    if_ind (λ (r : Status × Daemon). Reach (view d) (view r.1)) (size == 0) (λ e. h d i) (λ e. here)

handle_ping-Moves : (p : Ptr) → Moves (handle_ping p)
unfolding handle_ping
handle_ping-Moves p = reply-Moves p _

dispatch-Moves : (p : Ptr) (size : ℕ) (opcode : Opcode) → Moves (dispatch p size opcode)
unfolding dispatch
dispatch-Moves p size open_seat =
    read_none-Moves size (handle_open_seat p) (handle_open_seat-Moves p)
dispatch-Moves p size close_seat =
    read_none-Moves size (handle_close_seat p) (handle_close_seat-Moves p)
dispatch-Moves p size open_device = read_open_device-Moves p size
dispatch-Moves p size close_device =
    read_int-Moves p size (handle_close_device p) (handle_close_device-Moves p)
dispatch-Moves p size switch_session =
    read_int-Moves p size (handle_switch_session p) (handle_switch_session-Moves p)
dispatch-Moves p size disable_seat =
    read_none-Moves size (handle_disable_seat p) (handle_disable_seat-Moves p)
dispatch-Moves p size ping = read_none-Moves size (handle_ping p) (handle_ping-Moves p)
dispatch-Moves p size other = fail-Moves

view-client_flush : (p : Ptr) (d : Daemon) → view (client_flush p d).1 ≡ view d
unfolding client_flush event_source_fd_update
view-client_flush p d = ground arith

client_handle_opcode-Moves :
    (p : Ptr) (opcode size : ℕ) → Moves (client_handle_opcode p opcode size)
unfolding client_handle_opcode
client_handle_opcode-Moves p opcode size d i =
    Status_ind (λ (r : Status × Daemon). Reach (view d) (view r.1))
      (dispatch p size (opcode_of opcode) d).0
      (λ o.
        Reach-trans (dispatch-Moves p size (opcode_of opcode) d i)
          (Reach-eq (view-client_flush p (dispatch p size (opcode_of opcode) d).1)))
      (λ f. dispatch-Moves p size (opcode_of opcode) d i)

handle_messages-Moves : (fuel : ℕ) (p : Ptr) → Moves (handle_messages fuel p)
unfolding handle_messages
handle_messages-Moves zero p d i = here
handle_messages-Moves (suc fuel) p d i =
    Option_ind Outcome (on_connection p (connection_get 4) d).0 (λ e. here)
      λ header e.
        Bool_ind Outcome (ltb (connection_pending (d₁.connection p)) (u16_of_bytes (drop 2 header)))
          (λ c. here)
          λ c.
            Status_ind Outcome (handled header).0
              (λ s. after_moves i (first header) (handle_messages-Moves fuel p (handled header).1))
              (λ s. first header)
  where
    d₁ : Daemon
    d₁ = (on_connection p (connection_get 4) d).1

    Outcome : Status × Daemon → Type 0
    Outcome r = Reach (view d) (view r.1)

    handled : Bytes → Status × Daemon
    handled header = client_handle_opcode p (u16_of_bytes header) (u16_of_bytes (drop 2 header)) d₁

    first : (header : Bytes) → Reach (view d) (view (handled header).1)
    first header =
        client_handle_opcode-Moves p (u16_of_bytes header) (u16_of_bytes (drop 2 header)) d₁ i

on_writable-Moves : (p : Ptr) → Moves (on_writable p)
unfolding on_writable event_source_fd_update
on_writable-Moves p d i = Reach-eq (ground arith)

on_readable-Moves : (p : Ptr) → Moves (on_readable p)
unfolding on_readable
on_readable-Moves p d i =
    Option_ind Outcome (on_connection p connection_read d).0
      (λ n.
        if_ind Outcome (d₁.sys.errno == eagain) (λ e. handle_messages-Moves message_fuel p d₁ i)
          (λ e. here))
      (λ n e. if_ind Outcome (n == 0) (λ z. here) (λ z. handle_messages-Moves message_fuel p d₁ i))
  where
    d₁ : Daemon
    d₁ = (on_connection p connection_read d).1

    Outcome : Status × Daemon → Type 0
    Outcome r = Reach (view d) (view r.1)

handle_events-Moves : (mask : Mask) (p : Ptr) → Moves (handle_events mask p)
unfolding handle_events
handle_events-Moves mask p d i =
    if_ind Outcome (mask.error || mask.hangup) (λ e. here)
      λ e.
        Status_ind Outcome written.0
          (λ o.
            if_ind Outcome mask.readable (λ r. after_moves i wrote (on_readable-Moves p written.1))
              (λ r. wrote))
          (λ f. wrote)
  where
    written : Status × Daemon
    written = if mask.writable then on_writable p d else (ok, d)

    Outcome : Status × Daemon → Type 0
    Outcome r = Reach (view d) (view r.1)

    wrote : Reach (view d) (view written.1)
    wrote = if_ind Outcome mask.writable (λ w. on_writable-Moves p d i) (λ w. here)

pub client_destroy-Reach :
    (p : Ptr) (d : Daemon) → Inv (view d) → Reach (view d) (view (client_destroy p d))
unfolding client_destroy close_connection_fds
client_destroy-Reach p d i =
    Reach-trans
      (if_ind (λ (x : Daemon). Reach (view d) (view x)) (d.client p).in_seat
        (λ h. seat_remove_client-Reach p (effect (close_fd (d.connection p).fd) d) i h) (λ h. here))
      (Reach-Move (destroys p refl))

-- Whatever the event mask, the bytes received and the kernel's answers are, handling an event of a
-- client on a seat that satisfies the invariant takes the abstract seat along a sequence of its
-- moves, also where the client is destroyed at the end.
pub client_handle_connection-Reach :
    (mask : Mask) (p : Ptr) (d : Daemon)
    → Inv (view d)
    → Reach (view d) (view (client_handle_connection mask p d).1)
unfolding client_handle_connection
client_handle_connection-Reach mask p d i =
    Status_ind (λ (r : Status × Daemon). Reach (view d) (view r.1)) (handle_events mask p d).0
      (λ o. handle_events-Moves mask p d i)
      (λ f.
        after_moves i (handle_events-Moves mask p d i)
          (client_destroy-Reach p (handle_events mask p d).1))
