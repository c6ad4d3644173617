-- ===== src/Protocol/Inv.antt =====
-- What every move keeps.
use dde_seatd.Prelude.{
  ◌≡◌, refl, sym, subst, List, [], ◌∷◌, Option, none, some, Bool, true, false, not, ◌&&◌, ◌==◌, ℤ,
  minus_one, arith, eqb_ℤ,
}
use dde_seatd.Daemon.{
  Ptr, ClientState, client_active, client_pending_disable, client_closed, remove,
}
use dde_seatd.Seat.Clients.{is_new_or_disabled}
use dde_seatd.Protocol.{
  View, has, opened, disabled, acked, queued, enrolled, removed, retired, destroyed, created, Move,
  opens, disables, acks, queues, dequeues, enrols, removes, retires, destroys, creates, Reach, here,
  next,
}

abbrev pub Distinct : List Ptr → Type 0
Distinct [] = Unit {0}
Distinct (p ∷ ps) = (has p ps ≡ false) × Distinct ps

-- A client between its activation and its acknowledgement of the next disable.
abbrev pub is_live : ClientState → Bool
is_live client_active = true
is_live client_pending_disable = true
is_live _ = false

pub record Inv (v : View) : Type 0 where
  -- the clients of the seat are those on its list, each once
  pub listed : (p : Ptr) → v.in_seat p ≡ has p v.clients
  pub distinct : Distinct v.clients
  pub distinct_idle : Distinct v.idle
  pub idle_out : (p : Ptr) → has p v.idle ≡ true → v.in_seat p ≡ false
  -- the active client is on the seat, and is the one client that is live
  pub active_in : (p : Ptr) → v.active ≡ some p → has p v.clients ≡ true
  pub active_live : (p : Ptr) → v.active ≡ some p → is_live (v.state p) ≡ true
  pub live_active : (p : Ptr) → is_live (v.state p) ≡ true → v.active ≡ some p
  pub next_in : (p : Ptr) → v.next ≡ some p → has p v.clients ≡ true
  -- a closed client is off the seat, and only a client that has been on it has a session
  pub closed_out : (p : Ptr) → v.state p ≡ client_closed → v.in_seat p ≡ false
  pub in_session : (p : Ptr) → v.in_seat p ≡ true → eqb_ℤ (v.session p) minus_one ≡ false
  pub closed_session : (p : Ptr) → v.state p ≡ client_closed → eqb_ℤ (v.session p) minus_one ≡ false

pub has-remove :
    (p q : Ptr) (ps : List Ptr) → Distinct ps → has q (remove p ps) ≡ (has q ps && not (p == q))
unfolding remove
has-remove p q [] h = refl
has-remove p q (x ∷ xs) h = ground (arith, has-remove p q xs h.1)

pub remove-Distinct : (p : Ptr) (ps : List Ptr) → Distinct ps → Distinct (remove p ps)
unfolding remove
remove-Distinct p [] h = tt
remove-Distinct p (x ∷ xs) h = ground (arith, remove-Distinct p xs h.1, has-remove p x xs h.1)

module _ {v : View} (i : Inv v) where
  opened-Inv :
      (p : Ptr)
      → has p v.clients ≡ true
      → is_new_or_disabled (v.state p) ≡ true
      → v.active ≡ none
      → Inv (opened p v)
  opened-Inv p h n a = record {
    listed = i.listed;
    distinct = i.distinct;
    distinct_idle = i.distinct_idle;
    idle_out = i.idle_out;
    active_in = λ q e. ground arith;
    active_live = λ q e. ground arith;
    live_active = λ q e. ground (arith, i.live_active q);
    next_in = i.next_in;
    closed_out = λ q e. ground (arith, i.closed_out q);
    in_session = i.in_session;
    closed_session = λ q e. ground (arith, i.closed_session q);
  }

  disabled-Inv : (p : Ptr) → v.active ≡ some p → v.state p ≡ client_active → Inv (disabled p v)
  disabled-Inv p a s = record {
    listed = i.listed;
    distinct = i.distinct;
    distinct_idle = i.distinct_idle;
    idle_out = i.idle_out;
    active_in = i.active_in;
    active_live = λ q e. ground (arith, i.active_live q);
    live_active = λ q e. ground (arith, i.live_active q);
    next_in = i.next_in;
    closed_out = λ q e. ground (arith, i.closed_out q);
    in_session = i.in_session;
    closed_session = λ q e. ground (arith, i.closed_session q);
  }

  acked-Inv : (p : Ptr) → v.active ≡ some p → v.state p ≡ client_pending_disable → Inv (acked p v)
  acked-Inv p a s = record {
    listed = i.listed;
    distinct = i.distinct;
    distinct_idle = i.distinct_idle;
    idle_out = i.idle_out;
    active_in = λ q e. ground arith;
    active_live = λ q e. ground arith;
    live_active = λ q e. ground (arith, i.live_active q);
    next_in = i.next_in;
    closed_out = λ q e. ground (arith, i.closed_out q);
    in_session = i.in_session;
    closed_session = λ q e. ground (arith, i.closed_session q);
  }

  queued-Inv :
      (o : Option Ptr) → ((p : Ptr) → o ≡ some p → has p v.clients ≡ true) → Inv (queued o v)
  queued-Inv o h = record {
    listed = i.listed;
    distinct = i.distinct;
    distinct_idle = i.distinct_idle;
    idle_out = i.idle_out;
    active_in = i.active_in;
    active_live = i.active_live;
    live_active = i.live_active;
    next_in = h;
    closed_out = i.closed_out;
    in_session = i.in_session;
    closed_session = i.closed_session;
  }

  enrolled-Inv :
      (p : Ptr) (n : ℤ)
      → v.in_seat p ≡ false
      → v.session p ≡ minus_one
      → eqb_ℤ n minus_one ≡ false
      → Inv (enrolled p n v)
  enrolled-Inv p n out s m = record {
    listed = λ q. ground (arith, i.listed q);
    distinct = (ground (arith, i.listed p), i.distinct);
    distinct_idle = remove-Distinct p v.idle i.distinct_idle;
    idle_out = λ q e. ground (arith, i.idle_out q, has-remove p q v.idle i.distinct_idle);
    active_in = λ q e. ground (arith, i.active_in q);
    active_live = i.active_live;
    live_active = i.live_active;
    next_in = λ q e. ground (arith, i.next_in q);
    closed_out = λ q e. ground (arith, i.closed_out q, i.closed_session p);
    in_session = λ q e. ground (arith, i.in_session q);
    closed_session = λ q e. ground (arith, i.closed_session q);
  }

  removed-Inv : (p : Ptr) → v.in_seat p ≡ true → Inv (removed p v)
  removed-Inv p h = record {
    listed = λ q. ground (arith, i.listed q, has-remove p q v.clients i.distinct);
    distinct = remove-Distinct p v.clients i.distinct;
    distinct_idle = i.distinct_idle;
    idle_out = λ q e. ground (arith, i.idle_out q);
    active_in = λ q e. ground (arith, i.active_in q, has-remove p q v.clients i.distinct);
    active_live = λ q e. ground (arith, i.active_live q);
    live_active = λ q e. ground (arith, i.live_active q);
    next_in = λ q e. ground (arith, i.next_in q, has-remove p q v.clients i.distinct);
    closed_out = λ q e. ground (arith, i.closed_out q);
    in_session = λ q e. ground (arith, i.in_session q);
    closed_session = λ q e. ground (arith, i.closed_session q, i.in_session p);
  }

  retired-Inv : (p : Ptr) → v.in_seat p ≡ false → has p v.idle ≡ false → Inv (retired p v)
  retired-Inv p out fresh = record {
    listed = i.listed;
    distinct = i.distinct;
    distinct_idle = (fresh, i.distinct_idle);
    idle_out = λ q e. ground (arith, i.idle_out q);
    active_in = i.active_in;
    active_live = i.active_live;
    live_active = i.live_active;
    next_in = i.next_in;
    closed_out = i.closed_out;
    in_session = i.in_session;
    closed_session = i.closed_session;
  }

  destroyed-Inv : (p : Ptr) → Inv (destroyed p v)
  destroyed-Inv p = record {
    listed = i.listed;
    distinct = i.distinct;
    distinct_idle = remove-Distinct p v.idle i.distinct_idle;
    idle_out = λ q e. ground (arith, i.idle_out q, has-remove p q v.idle i.distinct_idle);
    active_in = i.active_in;
    active_live = i.active_live;
    live_active = i.live_active;
    next_in = i.next_in;
    closed_out = i.closed_out;
    in_session = i.in_session;
    closed_session = i.closed_session;
  }

  created-Inv : (p : Ptr) → has p v.clients ≡ false → has p v.idle ≡ false → Inv (created p v)
  created-Inv p out fresh = record {
    listed = λ q. ground (arith, i.listed q);
    distinct = i.distinct;
    distinct_idle = (fresh, i.distinct_idle);
    idle_out = λ q e. ground (arith, i.idle_out q);
    active_in = i.active_in;
    active_live = λ q e. ground (arith, i.active_live q, i.active_in q);
    live_active = λ q e. ground (arith, i.live_active q);
    next_in = i.next_in;
    closed_out = λ q e. ground (arith, i.closed_out q);
    in_session = λ q e. ground (arith, i.in_session q);
    closed_session = λ q e. ground (arith, i.closed_session q);
  }

Move-Inv : {v w : View} → Inv v → Move v w → Inv w
Move-Inv i (opens p h n a e) = subst Inv (sym e) (opened-Inv i p h n a)
Move-Inv i (disables p a s e) = subst Inv (sym e) (disabled-Inv i p a s)
Move-Inv i (acks p a s e) = subst Inv (sym e) (acked-Inv i p a s)
Move-Inv i (queues p h e) = subst Inv (sym e) (queued-Inv i (some p) (λ q x. ground arith))
Move-Inv i (dequeues e) = subst Inv (sym e) (queued-Inv i none (λ q x. cc))
Move-Inv i (enrols p n out s m e) = subst Inv (sym e) (enrolled-Inv i p n out s m)
Move-Inv i (removes p h e) = subst Inv (sym e) (removed-Inv i p h)
Move-Inv i (retires p out fresh e) = subst Inv (sym e) (retired-Inv i p out fresh)
Move-Inv i (destroys p e) = subst Inv (sym e) (destroyed-Inv i p)
Move-Inv i (creates p out fresh e) = subst Inv (sym e) (created-Inv i p out fresh)

-- Whatever moves are made, the invariant stays.
pub Reach-Inv : {v w : View} → Inv v → Reach v w → Inv w
Reach-Inv i here = i
Reach-Inv i (next r m) = Move-Inv (Reach-Inv i r) m

-- Of all clients, on the seat or not, at most one is live.
pub live_unique :
    {v : View} (p q : Ptr) → Inv v → is_live (v.state p) ≡ true → is_live (v.state q) ≡ true → p ≡ q
live_unique p q i hp hq = cc (i.live_active p hp, i.live_active q hq)

pub Reach-trans : {u v w : View} → Reach u v → Reach v w → Reach u w
Reach-trans r here = r
Reach-trans r (next s m) = next (Reach-trans r s) m

pub Reach-Move : {v w : View} → Move v w → Reach v w
Reach-Move m = next here m

pub Reach-eq : {v w : View} → w ≡ v → Reach v w
Reach-eq {v} e = subst (Reach v) (sym e) here
