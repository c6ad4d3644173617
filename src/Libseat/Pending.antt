-- ===== src/Libseat/Pending.antt =====
-- libseat/backend/seatd.c: the events that wait for the program's dispatch.
use mathlib.Core.List.{reverse, reverse_aux}
use dde_seatd.Prelude.{
  ◌++◌, ℕ, ◌≡◌, refl, sym, ap, ◌∙◌, subst, List, [], ◌∷◌, Option, none, some, true, false, if_ind,
  Option_ind, Status_ind, arith, Status, ok, fail,
}
use dde_seatd.Kernel.{Bytes, Sys}
use dde_seatd.Buffer.{size}
use dde_seatd.Buffer.Refine.{contents, IsValid}
use dde_seatd.Connection.{Connection, connection_put, connection_flush}
use dde_seatd.Daemon.{header_bytes, bytes_of_u16}
use dde_seatd.Libseat.State.{Side, Listener, on_conn, conn_put, conn_put_all, conn_flush}
use dde_seatd.Libseat.Reading.{
  server_disable_seat, server_enable_seat, execute_all, execute_events, read_loop, read_fuel,
  read_and_queue,
}
use dde_seatd.Libseat.Sound.{Sound, Reads, broken, sound, read_loop-Reads}
use dde_seatd.Connection.Sending.{Sends}
use dde_seatd.Connection.Flush.{connection_flush-Empties}
use dde_seatd.Connection.Messages.{Queues, connection_put-Queues}
use dde_seatd.Libseat.Requests.{send_ping, wake, check_pending_events}
use dde_seatd.Libseat.Arrival.{
  Background, pong_message, disable_message, enable_message, noted, noted_all,
}
use dde_seatd.Libseat.Response.{Answered, read_and_queue-response}
use dde_seatd.Libseat.Errors.{set_error-pending}

-- The events among the background messages, in the order of their arrival.
abbrev pub events_of : List Background → List ℕ
events_of [] = []
events_of (pong_message ∷ ms) = events_of ms
events_of (disable_message ∷ ms) = server_disable_seat ∷ events_of ms
events_of (enable_message ∷ ms) = server_enable_seat ∷ events_of ms

pending-noted_all :
    (ms : List Background) (w : Side)
    → (noted_all ms w).backend.pending_events ≡ reverse_aux (events_of ms) w.backend.pending_events
unfolding noted_all
pending-noted_all [] w = refl
pending-noted_all (pong_message ∷ ms) w = pending-noted_all ms (noted pong_message w)
pending-noted_all (disable_message ∷ ms) w = pending-noted_all ms (noted disable_message w)
pending-noted_all (enable_message ∷ ms) w = pending-noted_all ms (noted enable_message w)

-- With no event pending and memory to allocate, let background messages arrive in some order before
-- a response. After they are read, `execute_events` hands the listener the events among them in the
-- reverse of that order.
pub execute_events-reversed :
    (listener : Listener) (ms : List Background) (opcode : ℕ) (payload rest : Bytes) (w : Side)
    → w.backend.pending_events ≡ []
    → Answered ms opcode payload rest w
    → (execute_events listener (read_and_queue true w).1).1
      ≡ execute_all listener (reverse (events_of ms)) (record (noted_all ms w) {
        backend = record (noted_all ms w).backend { pending_events = [] };
      })
unfolding execute_events
execute_events-reversed listener ms opcode payload rest w e h =
    ap (λ (r : (Option ℕ × ℕ) × Side). (execute_events listener r.1).1)
      (read_and_queue-response ms opcode payload rest w h)
    ∙ ap
        (λ opcodes. execute_all listener opcodes (record (noted_all ms w) {
          backend = record (noted_all ms w).backend { pending_events = [] };
        }))
        (pending-noted_all ms w ∙ ap (reverse_aux (events_of ms)) e)

-- Of the states before and after: the ping is queued, and all that is queued is sent.
pub record Pings (w : Side) (c' : Connection) (s' : Sys) : Type 0 where
  pub c : Connection
  pub s : Sys
  pub earlier : Bytes
  pub put : connection_put (7 ∷ 0 ∷ 0 ∷ 0 ∷ []) w.backend.connection w.sys ≡ ((ok, c), s)
  pub queued : contents c.outbox ≡ earlier ++ (7 ∷ 0 ∷ 0 ∷ 0 ∷ [])
  pub flushed : connection_flush c s ≡ ((some (size c.outbox), c'), s')
  pub emptied : size c'.outbox ≡ 0

-- What is left to do once all messages that have arrived are read, of which `w` is the state, and after it
-- `w'`: no event is pending; or the answer to an earlier ping is still to come, and nothing is done; or a
-- ping is sent, and the backend notes it.
pub data Awake (w w' : Side) : Type 0 where
  nothing_pending : w'.backend.pending_events ≡ [] → Awake w w'
  awaiting : w.backend.awaiting_pong ≡ true → w' ≡ w → Awake w w'
  pinged : Pings w w'.backend.connection w'.sys → w'.backend.awaiting_pong ≡ true → Awake w w'

-- What sending comes to: an error, which drops the events, or a ping.
abbrev SendsPing : Side → Status × Side → Type 0
SendsPing w (ok, w') = Pings w w'.backend.connection w'.sys
SendsPing w (fail, w') = w'.backend.pending_events ≡ []

-- The state after a `connection_put` of the ping.
abbrev put_ping : Side → Status × Side
put_ping w = on_conn (connection_put (header_bytes 7 0)) w

flush_ping : (w : Side) → Sound w → (put_ping w).0 ≡ ok → SendsPing w (conn_flush (put_ping w).1)
unfolding conn_flush header_bytes bytes_of_u16
flush_ping w h e =
    Option_ind (SendsPing w) (on_conn connection_flush p).0 (λ f. set_error-pending _ h.no_error)
      λ n f.
        let done =
          connection_flush-Empties p.backend.connection p.sys
            (subst Sends (sym q.same_kernel) h.sends) q.valid q.wants_flush n f in
        record {
          c = p.backend.connection;
          s = p.sys;
          earlier = q.earlier;
          put = ap (λ r. ((r, p.backend.connection), p.sys)) e;
          queued = q.queued;
          flushed =
              ap
                (λ (o : Option ℕ). (
                  (o, (connection_flush p.backend.connection p.sys).0.1),
                  (connection_flush p.backend.connection p.sys).1,
                ))
                (f ∙ ap some done.count);
          emptied = done.empty;
        }
  where
    p : Side
    p = (put_ping w).1

    q : Queues w.sys.kernel (header_bytes 7 0) p.backend.connection p.sys
    q =
        connection_put-Queues (header_bytes 7 0) w.backend.connection w.sys h.sends h.outbox_valid
          (omega arith) e

abbrev PutsPing : Side → Status × Side → Type 0
PutsPing w (ok, w') = ((put_ping w).0 ≡ ok) × (w' ≡ (put_ping w).1)
PutsPing w (fail, w') = w'.backend.pending_events ≡ []

conn_put-ping : (w : Side) → Sound w → PutsPing w (conn_put (header_bytes 7 0) w)
unfolding conn_put
conn_put-ping w h =
    Status_ind (PutsPing w) (put_ping w).0 (λ o. (o, refl)) (λ f. set_error-pending _ h.no_error)

send_ping-Sends : (w : Side) → Sound w → SendsPing w (send_ping w)
unfolding send_ping conn_put_all
send_ping-Sends w h = put (conn_put (header_bytes 7 0) w) (conn_put-ping w h)
  where
    put :
        (r : Status × Side)
        → PutsPing w r
        → SendsPing w
            (elim (elim r.0 as (λ x. Status × Side) [ ok ↦ (ok, r.1) | fail ↦ (fail, r.1) ]).0
              as (λ x. Status × Side) [
                | fail ↦ (
                  fail,
                  (elim r.0 as (λ x. Status × Side) [ ok ↦ (ok, r.1) | fail ↦ (fail, r.1) ]).1,
                )
                | ok ↦
                    conn_flush
                      (elim r.0 as (λ x. Status × Side) [ ok ↦ (ok, r.1) | fail ↦ (fail, r.1) ]).1
              ])
    put (ok, w') (e, same) = subst (λ x. SendsPing w (conn_flush x)) (sym same) (flush_ping w h e)
    put (fail, w') e = e

after_ping :
    (w : Side) (r : Status × Side)
    → SendsPing w r
    → Awake w (elim r.0 [
      | fail ↦ r.1
      | ok ↦ record r.1 { backend = record r.1.backend { awaiting_pong = true } }
    ])
after_ping w (fail, w') h = nothing_pending h
after_ping w (ok, w') h = pinged h refl

wake-Awake : (w : Side) → Sound w → Awake w (wake w)
unfolding wake
wake-Awake w h = by_events w.backend.pending_events nothing_pending (
    if_ind (Awake w) w.backend.awaiting_pong (λ t. awaiting t refl)
      (λ f. after_ping w (send_ping w) (send_ping-Sends w h)))
  where
    by_events :
        (opcodes : List ℕ) {x y : Side}
        → (opcodes ≡ [] → Awake w x)
        → Awake w y
        → Awake w (elim opcodes [ [] ↦ x | opcode ∷ more ↦ y ])
    by_events [] h k = h refl
    by_events (opcode ∷ opcodes) h k = k

-- For a backend that is not in error, with a valid inbox and outbox, where a successful `sendmsg`
-- of some bytes sends one at least and no more than all: after `check_pending_events` no event is
-- pending. Or `awaiting_pong` is still set after all messages that have arrived were read, and
-- nothing else is done. Or else the four bytes of a ping were put at the end of the outbox by
-- `connection_put`, `connection_flush` then returned the number of all bytes that were queued and
-- left the outbox empty, and `awaiting_pong` is set.
pub check_pending_events-Awake :
    (w : Side)
    → Sound w
    → IsValid w.backend.connection.inbox
    → Awake (read_and_queue false w).1 (check_pending_events w)
unfolding check_pending_events read_and_queue
check_pending_events-Awake w h v =
    by_reading (read_loop read_fuel false 0 w)
      (read_loop-Reads read_fuel false 0 w h v (omega arith))
  where
    by_reading :
        (r : (Option ℕ × ℕ) × Side)
        → Reads r
        → Awake r.1 (elim r.0.0 [ none ↦ r.1 | some packets ↦ wake r.1 ])
    by_reading ((none, opcode), w') (broken p) = nothing_pending p
    by_reading ((some n, opcode), w') (sound e) = wake-Awake w' e
