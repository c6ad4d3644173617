-- ===== src/Libseat/Sound.antt =====
-- libseat/backend/seatd.c: reading leaves a backend that can send, or one in error without events.

use dde_seatd.Prelude.{
  ℕ, zero, suc, ◌+◌, ◌*◌, ◌<◌, ◌≡◌, refl, sym, subst, [], Option, none, some, Bool, true, false,
  ltb, if_ind, Option_ind, Status_ind, arith, Status,
}
use dde_seatd.Kernel.{Bytes, Sys, calloc, syscall}
use dde_seatd.Buffer.{size, copy}
use dde_seatd.Buffer.Refine.{IsValid, size-consume, consume-IsValid}
use dde_seatd.Connection.Sending.{Sends, syscall-kernel}
use dde_seatd.Connection.{connection_restore, Connection, connection_get}
use dde_seatd.Client.Dispatch.{u16_of_bytes}
use dde_seatd.Libseat.State.{Side, L}
use dde_seatd.Libseat.Reading.{
  queue_event, other_message, message_of, pong, event, other, Message, after_header, read_loop,
}
use dde_seatd.Libseat.Inbox.{after}
use dde_seatd.Libseat.Response.{read_more}
use dde_seatd.Libseat.Errors.{set_error-pending}

-- A backend that can send.
pub record Sound (w : Side) : Type 0 where
  pub no_error : w.backend.error ≡ false
  pub outbox_valid : IsValid w.backend.connection.outbox
  pub sends : Sends w.sys.kernel

-- What a reading leaves behind: no pending events if it failed, else a backend that can send.
pub data Reads : (Option ℕ × ℕ) × Side → Type 0 where
  broken : {opcode : ℕ} {w : Side} → w.backend.pending_events ≡ [] → Reads ((none, opcode), w)
  sound : {n opcode : ℕ} {w : Side} → Sound w → Reads ((some n, opcode), w)

other_message-Reads :
    (wanted : Bool) (n : ℕ) (header : Bytes) (w : Side)
    → Sound w
    → Reads (other_message wanted n header w)
unfolding other_message connection_restore
other_message-Reads true n header w h =
    sound record { no_error = h.no_error; outbox_valid = h.outbox_valid; sends = h.sends }
other_message-Reads false n header w h = broken (set_error-pending w h.no_error)

-- Whether or not the event is queued.
queue_event-Sound :
    (opcode : ℕ) (w : Side)
    → Sound w
    → Sound (queue_event opcode w).1
      × ((queue_event opcode w).1.backend.connection ≡ w.backend.connection)
unfolding queue_event
queue_event-Sound opcode w h =
    Option_ind (λ (r : Status × Side). Sound r.1 × (r.1.backend.connection ≡ w.backend.connection))
      (syscall calloc w.sys).0
      (λ f. (record { no_error = h.no_error; outbox_valid = h.outbox_valid; sends = kept }, refl))
      (λ ev e.
        (record { no_error = h.no_error; outbox_valid = h.outbox_valid; sends = kept }, refl))
  where
    kept : Sends (syscall calloc w.sys).1.kernel
    kept = subst Sends (sym (syscall-kernel calloc w.sys)) h.sends

after_header-Reads :
    (go_on : ℕ → L (Option ℕ × ℕ)) (wanted : Bool) (n : ℕ) (r : Option Bytes) (w : Side)
    → Sound w
    → ((k : ℕ) (w' : Side)
        → Sound w'
        → w'.backend.connection ≡ w.backend.connection
        → Reads (go_on k w'))
    → Reads (after_header go_on wanted n r w)
unfolding after_header
after_header-Reads go_on wanted n none w h goes = sound h
after_header-Reads go_on wanted n (some header) w h goes =
    Message_ind (message_of (u16_of_bytes header))
      (goes (n + 1) (record w { backend = record w.backend { awaiting_pong = false } })
        (record { no_error = h.no_error; outbox_valid = h.outbox_valid; sends = h.sends }) refl)
      (Status_ind Reads (queue_event (u16_of_bytes header) w).0
        (λ q. goes (n + 1) queued keeps.0 keeps.1)
        (λ q. broken (set_error-pending queued keeps.0.no_error)))
      (other_message-Reads wanted (n + 1) header w h)
  where
    queued : Side
    queued = (queue_event (u16_of_bytes header) w).1

    keeps : Sound queued × (queued.backend.connection ≡ w.backend.connection)
    keeps = queue_event-Sound (u16_of_bytes header) w h

    Message_ind :
        (m : Message) {x y z : (Option ℕ × ℕ) × Side}
        → Reads x
        → Reads y
        → Reads z
        → Reads (elim m [ pong ↦ x | event ↦ y | other ↦ z ])
    Message_ind pong x y z = x
    Message_ind event x y z = y
    Message_ind other x y z = z

-- Each round but the last takes four bytes.
pub read_loop-Reads :
    (fuel : ℕ) (wanted : Bool) (n : ℕ) (w : Side)
    → Sound w
    → IsValid w.backend.connection.inbox
    → size w.backend.connection.inbox < 4 * fuel
    → Reads (read_loop fuel wanted n w)
unfolding read_loop connection_get after_header
read_loop-Reads zero wanted n w h v l = absurd (omega arith)
read_loop-Reads (suc fuel) wanted n w h v l =
    if_ind
      (λ (r : (Option Bytes × Connection) × Sys). Reads (
        after_header (read_loop fuel wanted) wanted n r.0.0
          (record { backend = record w.backend { connection = r.0.1 }; sys = r.1 })))
      (ltb (size w.backend.connection.inbox) 4)
      (λ few.
        sound (record { no_error = h.no_error; outbox_valid = h.outbox_valid; sends = h.sends }))
      λ enough.
        after_header-Reads (read_loop fuel wanted) wanted n
          (some (copy w.backend.connection.inbox 4)) (read_more 4 w)
          (record { no_error = h.no_error; outbox_valid = h.outbox_valid; sends = h.sends })
          λ k w' h' (c : w'.backend.connection ≡ after 4 w.backend.connection).
            read_loop-Reads fuel wanted k w' h'
              (subst (λ (x : Connection). IsValid x.inbox) (sym c)
                (consume-IsValid w.backend.connection.inbox 4 v (ground arith)))
              (subst (λ (x : Connection). size x.inbox < 4 * fuel) (sym c)
                (let left = size-consume w.backend.connection.inbox 4 v (ground arith) in
                  ground (arith, left)))
