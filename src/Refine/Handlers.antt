-- ===== src/Refine/Handlers.antt =====
-- The handlers of seatd/client.c as moves of the abstract seat.
use dde_seatd.Prelude.{
  ℕ, ◌≡◌, refl, ap, ◌∙◌, List, [], ◌∷◌, ◌++◌, true, false, not, if_ind, Option_ind, Status_ind,
  arith, ℤ, Status, ok, fail,
}
use dde_seatd.Kernel.{Bytes, dup, ebadf, syscall}
use dde_seatd.Connection.{bytes_of_int, connection_put_fd}
use dde_seatd.Daemon.{
  Ptr, Device, Daemon, M, on_sys, on_connection, put_parts, header_bytes, bytes_of_u16,
}
use dde_seatd.Events.{server_event}
use dde_seatd.Seat.Devices.{seat_open_device, seat_close_device, seat_find_device}
use dde_seatd.Seat.Clients.{seat_add_client, seat_remove_client, seat_ack_disable_client}
use dde_seatd.Seat.Switching.{seat_set_next_session}
use dde_seatd.Client.Lifecycle.{client_send_error, reply}
use dde_seatd.Client.Handlers.{
  seat0, server_has_seat, send_seat_opened, handle_open_seat, handle_close_seat, send_device,
  handle_open_device, handle_close_device, handle_switch_session, handle_disable_seat,
}
use dde_seatd.Protocol.{View, view, has, opens, retires, Reach, here}
use dde_seatd.Protocol.Inv.{Inv, Reach-Inv, Reach-trans, Reach-Move, Reach-eq}
use dde_seatd.Refine.Frames.{
  view-put_parts, view-seat_open_device, view-seat_close_device, view-seat_find_device,
}
use dde_seatd.Refine.Clients.{Opens, refused, granted, seat_open_client-Opens}
use dde_seatd.Refine.Disabling.{seat_ack_disable_client-Reach}
use dde_seatd.Refine.Adding.{seat_add_client-Reach, seat_add_client-has}
use dde_seatd.Refine.Removal.{out_after_removal, idle_after_removal, seat_remove_client-Reach}
use dde_seatd.Refine.Switching.{seat_set_next_session-Reach}

-- A function all whose effect on the seat is moves.
abbrev pub Moves : M Status → Type 0
Moves f = (d : Daemon) → Inv (view d) → Reach (view d) (view (f d).1)

-- What follows a part of a handler goes on from the moves of that part.
pub after_moves : {v u w : View} → Inv v → Reach v u → (Inv u → Reach u w) → Reach v w
after_moves i r k = Reach-trans r (k (Reach-Inv i r))

put_parts-Moves : (p : Ptr) (parts : List Bytes) → Moves (put_parts p parts)
put_parts-Moves p parts d i = Reach-eq (view-put_parts p parts d)

pub reply-Moves : (p : Ptr) (opcode : ℕ) → Moves (reply p opcode)
unfolding reply
reply-Moves p opcode d i = Reach-eq (view-put_parts p (header_bytes opcode 0 ∷ []) d)

client_send_error-Moves : (p : Ptr) (e : ℕ) → Moves (client_send_error p e)
unfolding client_send_error
client_send_error-Moves p e d i =
    Reach-eq (view-put_parts p (header_bytes (server_event 0x7fff) 4 ∷ bytes_of_int e ∷ []) d)

Opens-Reach : {v w : View} (p : Ptr) → has p v.clients ≡ true → Opens p v w → Reach v w
Opens-Reach p h (refused e) = Reach-eq e
Opens-Reach p h (granted s a e) = Reach-Move (opens p h s a e)

view-send_seat_opened : (p : Ptr) (d : Daemon) → view (send_seat_opened p d).1 ≡ view d
unfolding send_seat_opened
view-send_seat_opened p d =
    view-put_parts p (header_bytes (server_event 1) 8 ∷ bytes_of_u16 6 ∷ (seat0 ++ 0 ∷ []) ∷ []) d

pub handle_open_seat-Moves : (p : Ptr) → Moves (handle_open_seat p)
unfolding handle_open_seat
handle_open_seat-Moves p d i =
    if_ind Outcome (not (server_has_seat d seat0)) (λ e. here)
      λ e.
        Status_ind Outcome (seat_add_client p d).0
          (λ a.
            Status_ind Outcome (send_seat_opened p d₁).0
              (λ s.
                Reach-trans (Reach-trans added (Reach-eq same))
                  (Opens-Reach p (there a) (seat_open_client-Opens p d₂)))
              (λ s. Reach-trans added (Reach-eq same)))
          (λ a. added)
  where
    d₁ : Daemon
    d₁ = (seat_add_client p d).1

    d₂ : Daemon
    d₂ = (send_seat_opened p d₁).1

    Outcome : Status × Daemon → Type 0
    Outcome r = Reach (view d) (view r.1)

    added : Reach (view d) (view d₁)
    added = seat_add_client-Reach p d

    same : view d₂ ≡ view d₁
    same = view-send_seat_opened p d₁

    there : (seat_add_client p d).0 ≡ ok → has p d₂.seat.clients ≡ true
    there a = ap (λ (v : View). has p v.clients) same ∙ seat_add_client-has p d a

pub handle_close_seat-Moves : (p : Ptr) → Moves (handle_close_seat p)
unfolding handle_close_seat
handle_close_seat-Moves p d i =
    if_ind Outcome (not (d.client p).in_seat) {x = (fail, d)} {y = reply p (server_event 2) idle}
      (λ e. here)
      λ e.
        let r : Reach (view d) (view d₁) = seat_remove_client-Reach p d i (ground arith) in
        after_moves i r λ i₁.
          let m : Reach (view d₁) (view idle) = Reach-Move (retires p left (apart e) refl) in
          after_moves i₁ m (reply-Moves p (server_event 2) idle)
  where
    d₁ : Daemon
    d₁ = seat_remove_client p d

    idle : Daemon
    idle = record d₁ { idle_clients = p ∷ d₁.idle_clients }

    Outcome : Status × Daemon → Type 0
    Outcome r = Reach (view d) (view r.1)

    left : (d₁.client p).in_seat ≡ false
    left = out_after_removal p d

    apart : not (d.client p).in_seat ≡ false → has p d₁.idle_clients ≡ false
    apart e = ap (has p) (idle_after_removal p d) ∙ ground (arith, i.idle_out p)

send_device-Moves : (p : Ptr) (dev : Device) (fd : ℕ) → Moves (send_device p dev fd)
unfolding send_device
send_device-Moves p dev fd d i =
    Status_ind (λ (r : Status × Daemon). Reach (view d) (view r.1))
      (on_connection p (connection_put_fd fd) d).0
      (λ o. Reach-eq (
        view-put_parts p (header_bytes (server_event 3) 4 ∷ bytes_of_int dev.device_id ∷ [])
          (on_connection p (connection_put_fd fd) d).1))
      (λ f. here)

pub handle_open_device-Moves : (p : Ptr) (path : Bytes) → Moves (handle_open_device p path)
unfolding handle_open_device
handle_open_device-Moves p path d i =
    if_ind Outcome (not (d.client p).in_seat) (λ e. here)
      λ e.
        Option_ind Outcome (seat_open_device p path d).0
          (λ n. after_moves i opened_dev (client_send_error-Moves p d₁.sys.errno d₁))
          λ dev n.
            Option_ind Outcome (syscall (dup dev.fd) d₁.sys).0
              (λ c.
                after_moves i
                  (Reach-trans opened_dev
                    (Reach-eq (view-seat_close_device p dev.device_id (duped dev))))
                  (client_send_error-Moves p (closed dev).sys.errno (closed dev)))
              (λ fd c. after_moves i opened_dev (send_device-Moves p dev fd (duped dev)))
  where
    d₁ : Daemon
    d₁ = (seat_open_device p path d).1

    duped : Device → Daemon
    duped dev = (on_sys (syscall (dup dev.fd)) d₁).1

    closed : Device → Daemon
    closed dev = seat_close_device p dev.device_id (duped dev)

    Outcome : Status × Daemon → Type 0
    Outcome r = Reach (view d) (view r.1)

    opened_dev : Reach (view d) (view d₁)
    opened_dev = Reach-eq (view-seat_open_device p path d)

pub handle_close_device-Moves : (p : Ptr) (id : ℤ) → Moves (handle_close_device p id)
unfolding handle_close_device
handle_close_device-Moves p id d i =
    if_ind Outcome (not (d.client p).in_seat) (λ e. here)
      λ e.
        Option_ind Outcome (seat_find_device p id d).0
          (λ n. after_moves i found (client_send_error-Moves p ebadf d₁))
          λ dev n.
            after_moves i (Reach-trans found (Reach-eq (view-seat_close_device p dev.device_id d₁)))
              (reply-Moves p (server_event 4) (seat_close_device p dev.device_id d₁))
  where
    d₁ : Daemon
    d₁ = (seat_find_device p id d).1

    Outcome : Status × Daemon → Type 0
    Outcome r = Reach (view d) (view r.1)

    found : Reach (view d) (view d₁)
    found = Reach-eq (view-seat_find_device p id d)

pub handle_switch_session-Moves : (p : Ptr) (session : ℤ) → Moves (handle_switch_session p session)
unfolding handle_switch_session
handle_switch_session-Moves p session d i =
    if_ind Outcome (not (d.client p).in_seat) (λ e. here)
      λ e.
        Status_ind Outcome (seat_set_next_session p session d).0
          (λ o. after_moves i switched (reply-Moves p (server_event 8) d₁))
          (λ f. after_moves i switched (client_send_error-Moves p d₁.sys.errno d₁))
  where
    d₁ : Daemon
    d₁ = (seat_set_next_session p session d).1

    Outcome : Status × Daemon → Type 0
    Outcome r = Reach (view d) (view r.1)

    switched : Reach (view d) (view d₁)
    switched = seat_set_next_session-Reach p session d

pub handle_disable_seat-Moves : (p : Ptr) → Moves (handle_disable_seat p)
unfolding handle_disable_seat
handle_disable_seat-Moves p d i =
    if_ind Outcome (not (d.client p).in_seat) (λ e. here)
      λ e.
        Status_ind Outcome (seat_ack_disable_client p d).0
          (λ o. after_moves i done (reply-Moves p (server_event 9) d₁))
          (λ f. after_moves i done (client_send_error-Moves p d₁.sys.errno d₁))
  where
    d₁ : Daemon
    d₁ = (seat_ack_disable_client p d).1

    Outcome : Status × Daemon → Type 0
    Outcome r = Reach (view d) (view r.1)

    done : Reach (view d) (view d₁)
    done = seat_ack_disable_client-Reach p d i
