-- ===== src/Libseat/Arrival.antt =====
-- libseat/backend/seatd.c: background messages in the inbox, and the loop that takes them.
use mathlib.Core.List.{append_assoc}
use dde_seatd.Prelude.{
  ℕ, suc, ◌+◌, ◌*◌, ◌≡◌, refl, sym, ap, ap₂, ◌∙◌, subst, List, [], ◌∷◌, ◌++◌, Option, none, some,
  Bool, false, length, arith, Status, ok, fail,
}
use dde_seatd.Kernel.{Bytes, Call, Kernel, returned, Sys, calloc, syscall, after_answer}
use dde_seatd.Connection.{Connection, connection_get}
use dde_seatd.Daemon.{header_bytes, bytes_of_u16}
use dde_seatd.Client.Dispatch.{u16_of_bytes}
use dde_seatd.Libseat.State.{Backend, Side, L, set_error}
use dde_seatd.Libseat.Reading.{
  server_disable_seat, server_enable_seat, server_pong, queue_event, message_of, pong, event,
  after_header, read_loop,
}
use dde_seatd.Libseat.Inbox.{after, Next, connection_get-next, contents-after, after-IsValid}

-- The daemon's background messages.
pub data Background : Type 0 where
  pong_message disable_message enable_message : Background

abbrev pub background_opcode : Background → ℕ
background_opcode pong_message = server_pong
background_opcode disable_message = server_disable_seat
background_opcode enable_message = server_enable_seat

abbrev pub background_bytes : List Background → Bytes
background_bytes [] = []
background_bytes (m ∷ ms) = header_bytes (background_opcode m) 0 ++ background_bytes ms

-- What a message does to the pending events and to `awaiting_pong`.
abbrev pub note : Background → Backend → Backend
note pong_message b = record b { awaiting_pong = false }
note disable_message b = record b { pending_events = server_disable_seat ∷ b.pending_events }
note enable_message b = record b { pending_events = server_enable_seat ∷ b.pending_events }

-- `calloc` finds memory.
abbrev pub Allocates : Kernel → Type 0
Allocates k = (h : List Call) → (ptr : ℕ) × (k.answer h calloc ≡ returned ptr)

-- The state after the first message of the inbox, which is a background one.
abbrev pub noted : Background → Side → Side
noted m w = record {
  backend = note m (record w.backend { connection = after 4 w.backend.connection });
  sys = elim m [ pong_message ↦ w.sys | _ ↦ record w.sys { trace = calloc ∷ w.sys.trace } ];
}

unfoldable pub noted_all : List Background → Side → Side
noted_all [] w = w
noted_all (m ∷ ms) w = noted_all ms (noted m w)

-- A round that finds a header.
pub read_loop-next :
    (header rest : Bytes) (fuel : ℕ) (wanted : Bool) (n : ℕ) (w : Side)
    → Next header rest w.backend.connection
    → length header ≡ 4
    → read_loop (suc fuel) wanted n w
      ≡ after_header
          (read_loop fuel wanted)
          wanted
          n
          (some header)
          (record w { backend = record w.backend { connection = after 4 w.backend.connection } })
unfolding read_loop
read_loop-next header rest fuel wanted n w h l =
    ap
      (λ (r : (Option Bytes × Connection) × Sys).
        after_header (read_loop fuel wanted) wanted n r.0.0
          (record { backend = record w.backend { connection = r.0.1 }; sys = r.1 }))
      (subst
        (λ k.
          connection_get k w.backend.connection w.sys
          ≡ ((some header, after k w.backend.connection), w.sys))
        l (connection_get-next header rest w.backend.connection h w.sys))

syscall-returned :
    (c : Call) (n : ℕ) (s : Sys)
    → s.kernel.answer s.trace c ≡ returned n
    → syscall c s ≡ (some n, record s { trace = c ∷ s.trace })
unfolding syscall after_answer
syscall-returned c n s e = ap (λ x. after_answer x c s) e

queue_event-ok :
    (opcode : ℕ) (w : Side)
    → Allocates w.sys.kernel
    → queue_event opcode w ≡ (
      ok,
      record {
        backend = record w.backend { pending_events = opcode ∷ w.backend.pending_events };
        sys = record w.sys { trace = calloc ∷ w.sys.trace };
      },
    )
unfolding queue_event
queue_event-ok opcode w a =
    ap
      (λ (r : Option ℕ × Sys). elim r.0 as (λ x. Status × Side) [
        | none ↦ (fail, record w { sys = r.1 })
        | some ev ↦ (
          ok,
          record {
            backend = record w.backend { pending_events = opcode ∷ w.backend.pending_events };
            sys = r.1;
          },
        )
      ])
      (syscall-returned calloc (a w.sys.trace).0 w.sys (a w.sys.trace).1)

after_header-pong :
    (header : Bytes) (go_on : ℕ → L (Option ℕ × ℕ)) (wanted : Bool) (n : ℕ) (w : Side)
    → message_of (u16_of_bytes header) ≡ pong
    → after_header go_on wanted n (some header) w
      ≡ go_on (n + 1) (record w { backend = record w.backend { awaiting_pong = false } })
unfolding after_header
after_header-pong header go_on wanted n w e = rw (after_header, e) refl

after_header-event :
    (header : Bytes) (go_on : ℕ → L (Option ℕ × ℕ)) (wanted : Bool) (n : ℕ) (w : Side)
    → Allocates w.sys.kernel
    → message_of (u16_of_bytes header) ≡ event
    → after_header go_on wanted n (some header) w
      ≡ go_on (n + 1) (record {
        backend = record w.backend {
          pending_events = u16_of_bytes header ∷ w.backend.pending_events;
        };
        sys = record w.sys { trace = calloc ∷ w.sys.trace };
      })
unfolding after_header
after_header-event header go_on wanted n w a e =
    rw (after_header, e)
      (ap
        (λ (q : Status × Side). elim q.0 as (λ x. (Option ℕ × ℕ) × Side) [
          | ok ↦ go_on (n + 1) q.1
          | fail ↦ ((none, 0), set_error q.1)
        ])
        (queue_event-ok (u16_of_bytes header) w a))

read_loop-noted :
    (m : Background) (fuel : ℕ) (wanted : Bool) (n : ℕ) (rest : Bytes) (w : Side)
    → Allocates w.sys.kernel
    → Next (header_bytes (background_opcode m) 0) rest w.backend.connection
    → read_loop (suc fuel) wanted n w ≡ read_loop fuel wanted (n + 1) (noted m w)
unfolding message_of u16_of_bytes header_bytes bytes_of_u16
read_loop-noted pong_message fuel wanted n rest w a h =
    read_loop-next (header_bytes server_pong 0) rest fuel wanted n w h refl
    ∙ after_header-pong (header_bytes server_pong 0) (read_loop fuel wanted) wanted n _ refl
read_loop-noted disable_message fuel wanted n rest w a h =
    read_loop-next (header_bytes server_disable_seat 0) rest fuel wanted n w h refl
    ∙ after_header-event (header_bytes server_disable_seat 0) (read_loop fuel wanted) wanted n _ a
        refl
read_loop-noted enable_message fuel wanted n rest w a h =
    read_loop-next (header_bytes server_enable_seat 0) rest fuel wanted n w h refl
    ∙ after_header-event (header_bytes server_enable_seat 0) (read_loop fuel wanted) wanted n _ a
        refl

pub length-background_bytes : (ms : List Background) → length (background_bytes ms) ≡ 4 * length ms
unfolding header_bytes bytes_of_u16
length-background_bytes [] = refl
length-background_bytes (m ∷ ms) = omega (arith, length-background_bytes ms)

noted-Next :
    (m : Background) (rest : Bytes) (w : Side)
    → Next (header_bytes (background_opcode m) 0) rest w.backend.connection
    → Next [] rest (noted m w).backend.connection
unfolding header_bytes bytes_of_u16
noted-Next pong_message rest w h = record {
  valid = after-IsValid _ rest w.backend.connection h;
  next = contents-after _ rest w.backend.connection h;
}
noted-Next disable_message rest w h = record {
  valid = after-IsValid _ rest w.backend.connection h;
  next = contents-after _ rest w.backend.connection h;
}
noted-Next enable_message rest w h = record {
  valid = after-IsValid _ rest w.backend.connection h;
  next = contents-after _ rest w.backend.connection h;
}

kernel-noted : (m : Background) (w : Side) → (noted m w).sys.kernel ≡ w.sys.kernel
kernel-noted pong_message w = refl
kernel-noted disable_message w = refl
kernel-noted enable_message w = refl

-- The first of several messages.
first-Next :
    (m : Background) (ms : List Background) (rest : Bytes) (c : Connection)
    → Next (background_bytes (m ∷ ms)) rest c
    → Next (header_bytes (background_opcode m) 0) (background_bytes ms ++ rest) c
first-Next m ms rest c h = record {
  valid = h.valid;
  next = h.next ∙ append_assoc (header_bytes (background_opcode m) 0) (background_bytes ms) rest;
}

-- The messages behind it.
rest-Next :
    (m : Background) (ms : List Background) (rest : Bytes) (w : Side)
    → Next (background_bytes (m ∷ ms)) rest w.backend.connection
    → Next (background_bytes ms) rest (noted m w).backend.connection
rest-Next m ms rest w h =
    let n =
      noted-Next m (background_bytes ms ++ rest) w (first-Next m ms rest w.backend.connection h) in
    record { valid = n.valid; next = n.next }

pub noted_all-Next :
    (ms : List Background) (rest : Bytes) (w : Side)
    → Next (background_bytes ms) rest w.backend.connection
    → Next [] rest (noted_all ms w).backend.connection
unfolding noted_all
noted_all-Next [] rest w h = h
noted_all-Next (m ∷ ms) rest w h = noted_all-Next ms rest (noted m w) (rest-Next m ms rest w h)

pub read_loop-noted_all :
    (ms : List Background) (fuel : ℕ) (wanted : Bool) (n : ℕ) (rest : Bytes) (w : Side)
    → Allocates w.sys.kernel
    → Next (background_bytes ms) rest w.backend.connection
    → read_loop (length ms + fuel) wanted n w
      ≡ read_loop fuel wanted (n + length ms) (noted_all ms w)
unfolding noted_all
read_loop-noted_all [] fuel wanted n rest w a h =
    ap₂ (λ f k. read_loop f wanted k w) (omega arith) (omega arith)
read_loop-noted_all (m ∷ ms) fuel wanted n rest w a h =
    ap (λ f. read_loop f wanted n w) (omega arith)
    ∙ read_loop-noted m (length ms + fuel) wanted n (background_bytes ms ++ rest) w a
        (first-Next m ms rest w.backend.connection h)
    ∙ read_loop-noted_all ms fuel wanted (n + 1) rest (noted m w)
        (subst Allocates (sym (kernel-noted m w)) a) (rest-Next m ms rest w h)
    ∙ ap (λ k. read_loop fuel wanted k (noted_all (m ∷ ms) w)) (omega arith)
