-- ===== src/Protocol.antt =====
-- What a seat promises, apart from devices, VTs, sockets and the kernel: the clients that are idle and
-- those that are on the seat, which one is active, which one is queued, and the state of each. The
-- moves are the changes of it that seatd/seat.c and seatd/client.c are meant to make.
pub mod Inv
use dde_seatd.Prelude.{
  ℕ, ◌≡◌, ◌≢◌, List, [], ◌∷◌, Option, none, some, Bool, true, false, ◌==◌, ◌||◌, if◌then◌else◌, ℤ,
  minus_one, eqb_ℤ,
}
use dde_seatd.Daemon.{
  Ptr, ClientState, client_new, client_active, client_pending_disable, client_disabled,
  client_closed, Daemon, update, is_ptr, remove,
}
use dde_seatd.Seat.Clients.{is_new_or_disabled}

pub record View : Type 0 where
  pub clients : List Ptr
  pub idle : List Ptr
  pub active : Option Ptr
  pub next : Option Ptr
  pub state : Ptr → ClientState
  pub in_seat : Ptr → Bool
  pub session : Ptr → ℤ

abbrev pub view : Daemon → View
view d = record {
  clients = d.seat.clients;
  idle = d.idle_clients;
  active = d.seat.active_client;
  next = d.seat.next_client;
  state = λ p. (d.client p).state;
  in_seat = λ p. (d.client p).in_seat;
  session = λ p. (d.client p).session;
}

abbrev pub has : Ptr → List Ptr → Bool
has p [] = false
has p (q ∷ qs) = q == p || has p qs

-- The pointer without `p`.
abbrev pub clear : Option Ptr → Ptr → Option Ptr
clear o p = if is_ptr o p then none else o

abbrev pub opened : Ptr → View → View
opened p v = record v { active = some p; state = update v.state p client_active }

abbrev pub disabled : Ptr → View → View
disabled p v = record v { state = update v.state p client_pending_disable }

abbrev pub acked : Ptr → View → View
acked p v = record v { active = none; state = update v.state p client_disabled }

abbrev pub queued : Option Ptr → View → View
queued o v = record v { next = o }

abbrev pub enrolled : Ptr → ℤ → View → View
enrolled p n v = record v {
  clients = p ∷ v.clients;
  idle = remove p v.idle;
  in_seat = update v.in_seat p true;
  session = update v.session p n;
}

abbrev pub removed : Ptr → View → View
removed p v = record v {
  clients = remove p v.clients;
  active = clear v.active p;
  next = clear v.next p;
  state = update v.state p client_closed;
  in_seat = update v.in_seat p false;
}

abbrev pub retired : Ptr → View → View
retired p v = record v { idle = p ∷ v.idle }

abbrev pub destroyed : Ptr → View → View
destroyed p v = record v { idle = remove p v.idle }

abbrev pub created : Ptr → View → View
created p v = record v {
  idle = p ∷ v.idle;
  state = update v.state p client_new;
  in_seat = update v.in_seat p false;
  session = update v.session p minus_one;
}

pub data Move (v w : View) : Type 0 where
  -- a client of the seat becomes active, where none is
  opens :
      (p : Ptr)
      → has p v.clients ≡ true
      → is_new_or_disabled (v.state p) ≡ true
      → v.active ≡ none
      → w ≡ opened p v
      → Move v w
  -- the active client is asked to stop
  disables : (p : Ptr) → v.active ≡ some p → v.state p ≡ client_active → w ≡ disabled p v → Move v w
  -- it has stopped
  acks :
      (p : Ptr) → v.active ≡ some p → v.state p ≡ client_pending_disable → w ≡ acked p v → Move v w
  -- another client of the seat is to be next, or the queue is taken up
  queues : (p : Ptr) → has p v.clients ≡ true → w ≡ queued (some p) v → Move v w
  dequeues : w ≡ queued none v → Move v w
  -- an idle client joins the seat, under a session that it has not had before
  enrols :
      (p : Ptr) (n : ℤ)
      → v.in_seat p ≡ false
      → v.session p ≡ minus_one
      → eqb_ℤ n minus_one ≡ false
      → w ≡ enrolled p n v
      → Move v w
  -- a client leaves the seat for good
  removes : (p : Ptr) → v.in_seat p ≡ true → w ≡ removed p v → Move v w
  -- a client that has left is idle, and an idle one goes away
  retires : (p : Ptr) → v.in_seat p ≡ false → has p v.idle ≡ false → w ≡ retired p v → Move v w
  destroys : (p : Ptr) → w ≡ destroyed p v → Move v w
  -- a client connects, at an address that no list holds
  creates : (p : Ptr) → has p v.clients ≡ false → has p v.idle ≡ false → w ≡ created p v → Move v w

pub data Reach (v : View) : View → Type 0 where
  here : Reach v v
  next : {u w : View} → Reach v u → Move u w → Reach v w
