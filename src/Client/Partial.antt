-- ===== src/Client/Partial.antt =====
-- seatd/client.c: a message that has not arrived whole.
use dde_seatd.Prelude.{
  ℕ, suc, ◌+◌, ◌-◌, ◌≤◌, ◌<◌, ◌≡◌, refl, sym, ap, ◌∙◌, length, Option, none, some, true, ltb,
  if_ind, Bool_ind, Option_ind, arith, take, drop, length-drop, Status, ok,
}
use mathlib.Core.Option.{some-injective}
use dde_seatd.Kernel.{Bytes, Sys}
use dde_seatd.Buffer.{size}
use dde_seatd.Buffer.Refine.{IsValid, contents, length-contents}
use dde_seatd.Connection.{Connection, connection_get, connection_restore, connection_pending}
use dde_seatd.Connection.Messages.{Gets, waits, gets, connection_get-Gets}
use dde_seatd.Daemon.{Ptr, Daemon, update, on_connection}
use dde_seatd.Client.Dispatch.{u16_of_bytes, handle_messages}

-- The size that the header at the front of the inbox announces.
abbrev pub announced : Connection → ℕ
announced c = u16_of_bytes (drop 2 (take 4 (contents c.inbox)))

-- What the loop leaves alone when it can take no message.
pub record Waits (p : Ptr) (d : Daemon) (r : Status × Daemon) : Type 0 where
  pub success : r.0 ≡ ok
  pub connection : r.1.connection p ≡ d.connection p
  pub seat : r.1.seat ≡ d.seat
  pub client : r.1.client ≡ d.client
  pub sends_nothing : r.1.sys.trace ≡ d.sys.trace

update_connection : {A : Type 0} (f : Ptr → A) (p : Ptr) (a b : A) → a ≡ b → update f p a p ≡ b
update_connection f p a b e = ground arith

none_keeps : {c : Connection} (r : Option Bytes × Connection) → Gets 4 c r → r.0 ≡ none → r.1 ≡ c
none_keeps _ (waits l) e = refl
none_keeps _ (gets c' n q v k) e = ground arith

-- The header is at the front of the inbox, and what is left is four bytes shorter.
record Header (c : Connection) (c' : Connection) (header : Bytes) : Type 0 where
  front : header ≡ take 4 (contents c.inbox)
  left : length (contents c'.inbox) ≡ length (contents c.inbox) - 4
  whole : 4 ≤ size c.inbox
  back : connection_restore 4 c' ≡ c

when_some :
    {c : Connection} (r : Option Bytes × Connection) (header : Bytes)
    → Gets 4 c r
    → r.0 ≡ some header
    → Header c r.1 header
when_some _ h (waits l) e = ground arith
when_some _ h (gets c' n q v k) e = record {
  front = sym (some-injective (take 4 (contents _)) h e);
  left = ap length q ∙ length-drop 4 (contents _);
  whole = n;
  back = k;
}

connection_get-trace :
    (count : ℕ) (c : Connection) (s : Sys) → (connection_get count c s).1.trace ≡ s.trace
unfolding connection_get
connection_get-trace count c s =
    if_ind (λ (r : (Option Bytes × Connection) × Sys). r.1.trace ≡ s.trace)
      (ltb (size c.inbox) count) (λ e. refl) (λ e. refl)

-- If the inbox is valid and holds fewer bytes than a header and the payload that the header
-- announces, the loop over messages, with fuel for one round, succeeds, leaves the connection, the
-- seat and all clients as they were, and makes no call to the kernel.
pub handle_messages-Waits :
    (fuel : ℕ) (p : Ptr) (d : Daemon)
    → IsValid (d.connection p).inbox
    → size (d.connection p).inbox < 4 + announced (d.connection p)
    → Waits p d (handle_messages (suc fuel) p d)
unfolding handle_messages connection_pending
handle_messages-Waits fuel p d v l =
    Option_ind (Waits p d) got.0
      (λ n. record {
        success = refl;
        connection = update_connection d.connection p got.1 c (none_keeps got g n);
        seat = refl;
        client = refl;
        sends_nothing = connection_get-trace 4 c d.sys;
      })
      λ header e.
        Bool_ind (Waits p d)
          (ltb (connection_pending (d₁.connection p)) (u16_of_bytes (drop 2 header)))
          (λ short. record {
            success = refl;
            connection =
                update_connection d₁.connection p (connection_restore 4 (d₁.connection p)) c
                  (ap (connection_restore 4) same ∙ (when_some got header g e).back);
            seat = refl;
            client = refl;
            sends_nothing = connection_get-trace 4 c d.sys;
          })
          (λ enough. cc (few header e, enough))
  where
    c : Connection
    c = d.connection p

    got : Option Bytes × Connection
    got = (connection_get 4 c d.sys).0

    g : Gets 4 c got
    g = connection_get-Gets 4 c d.sys v

    d₁ : Daemon
    d₁ = (on_connection p (connection_get 4) d).1

    same : d₁.connection p ≡ got.1
    same = update_connection d.connection p got.1 got.1 refl

    few :
        (header : Bytes)
        → got.0 ≡ some header
        → ltb (connection_pending (d₁.connection p)) (u16_of_bytes (drop 2 header)) ≡ true
    few header e =
        let h = when_some got header g e in
        let shorter = length-contents got.1.inbox in
        rw (same, h.front) (ground (arith, h.left, h.whole, shorter, length-contents c.inbox, l))
