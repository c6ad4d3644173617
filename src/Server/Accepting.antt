-- ===== src/Server/Accepting.antt =====
-- seatd/server.c: a client that connects, and the abstract seat.
use dde_seatd.Prelude.{
  ℕ, ◌≡◌, refl, sym, ap, ◌∙◌, subst, fun_ext, ◌∷◌, Option, none, some, Bool, false, ◌||◌, if_ind,
  Option_ind, Status_ind, arith, ℤ, minus_one, Status, fail,
}
use dde_seatd.Kernel.{Ucred, accept, calloc, getsockopt_peercred, syscall}
use dde_seatd.Connection.{connection_on}
use dde_seatd.Daemon.{
  Ptr, ClientState, client_new, Client, Daemon, update, on_sys, effect, event_readable,
}
use dde_seatd.Seat.Vt.{close_fd}
use dde_seatd.Client.Lifecycle.{fresh_client, client_create}
use dde_seatd.Client.Dispatch.{Mask}
use dde_seatd.Protocol.{view, has, created, creates, Reach, here}
use dde_seatd.Protocol.Inv.{Inv, Reach-Inv, Reach-trans, Reach-Move, Reach-eq}
use dde_seatd.Refine.Messages.{client_destroy-Reach}
use dde_seatd.Server.Frames.{view-poller_add_fd}
use dde_seatd.Server.{
  set_nonblock, poller_add_fd, watch_client, server_add_client, accept_client,
  server_handle_connection,
}

-- A pointer that no list of clients holds, as `calloc` returns one.
abbrev pub IsFresh : Daemon → Ptr → Type 0
IsFresh d p = (has p d.seat.clients ≡ false) × (has p d.idle_clients ≡ false)

view-created :
    (p : Ptr) (u : Ucred) (fd : ℕ) (d : Daemon)
    → view (record d {
      client = update d.client p (fresh_client u);
      connection = update d.connection p (connection_on fd);
      idle_clients = p ∷ d.idle_clients;
    })
      ≡ created p (view d)
view-created p u fd d = λ i. record {
  clients = d.seat.clients;
  idle = p ∷ d.idle_clients;
  active = d.seat.active_client;
  next = d.seat.next_client;
  state = states i;
  in_seat = members i;
  session = sessions i;
}
  where
    changed : Ptr → Client
    changed = update d.client p (fresh_client u)

    states :
        ◌≡◌ {A = Ptr → ClientState}
          (λ q. (changed q).state)
          (update (λ q. (d.client q).state) p client_new)
    states = fun_ext λ q. ground arith

    members :
        ◌≡◌ {A = Ptr → Bool} (λ q. (changed q).in_seat) (update (λ q. (d.client q).in_seat) p false)
    members = fun_ext λ q. ground arith

    sessions :
        ◌≡◌ {A = Ptr → ℤ}
          (λ q. (changed q).session)
          (update (λ q. (d.client q).session) p minus_one)
    sessions = fun_ext λ q. ground arith

watch_client-Reach :
    (p : Ptr) (d : Daemon) → Inv (view d) → Reach (view d) (view (watch_client p d).1)
unfolding watch_client
watch_client-Reach p d i =
    Status_ind (λ (r : Status × Daemon). Reach (view d) (view r.1))
      (poller_add_fd p event_readable d).0 (λ o. Reach-eq same)
      (λ f.
        Reach-trans (Reach-eq same)
          (client_destroy-Reach p (poller_add_fd p event_readable d).1 (subst Inv (sym same) i)))
  where
    same : view (poller_add_fd p event_readable d).1 ≡ view d
    same = view-poller_add_fd p event_readable d

-- What `client_create` comes to: nothing, or the new client is idle.
data Creates (d : Daemon) : Option Ptr × Daemon → Type 0 where
  failed_create : {d' : Daemon} → view d' ≡ view d → Creates d (none, d')
  created_at : {d' : Daemon} (p : Ptr) → view d' ≡ created p (view d) → Creates d (some p, d')

client_create-Creates : (fd : ℕ) (d : Daemon) → Creates d (client_create fd d)
unfolding client_create
client_create-Creates fd d =
    Option_ind (Creates d) (syscall (getsockopt_peercred fd) d.sys).0 {n = (none, d₁)}
      (λ n. failed_create refl)
      λ done e.
        Option_ind (Creates d) (syscall calloc d₁.sys).0 {n = (none, d₂)} (λ n. failed_create refl)
          λ p n. created_at p (view-created p (d.sys.kernel.peer d.sys.trace fd) fd d₂)
  where
    d₁ : Daemon
    d₁ = (on_sys (syscall (getsockopt_peercred fd)) d).1

    d₂ : Daemon
    d₂ = (on_sys (syscall calloc) d₁).1

-- `calloc` returns a fresh pointer in the call of `client_create` that follows the `fcntl`s.
abbrev pub AllocatesFresh : ℕ → Daemon → Type 0
AllocatesFresh fd d =
    let d₁ = (on_sys (set_nonblock fd) d).1 in
    (p : Ptr) → (client_create fd d₁).0 ≡ some p → IsFresh d p

-- What `server_add_client` does with what `client_create` comes to.
abbrev watched : ℕ → Option Ptr × Daemon → Status × Daemon
watched fd r = elim r.0 [ none ↦ (fail, effect (close_fd fd) r.1) | some p ↦ watch_client p r.1 ]

watch_created :
    (fd : ℕ) (d d₁ : Daemon) (r : Option Ptr × Daemon)
    → Inv (view d)
    → view d₁ ≡ view d
    → Creates d₁ r
    → ((p : Ptr) → r.0 ≡ some p → IsFresh d p)
    → Reach (view d) (view (watched fd r).1)
watch_created fd d d₁ r i same (failed_create e) fresh = Reach-eq (e ∙ same)
watch_created fd d d₁ r i same (created_at {d'} p e) fresh =
    Reach-trans first (watch_client-Reach p d' (Reach-Inv i first))
  where
    first : Reach (view d) (view d')
    first = Reach-Move (creates p (fresh p refl).0 (fresh p refl).1 (e ∙ ap (created p) same))

server_add_client-Reach :
    (fd : ℕ) (d : Daemon)
    → Inv (view d)
    → AllocatesFresh fd d
    → Reach (view d) (view (server_add_client fd d).1)
unfolding server_add_client
server_add_client-Reach fd d i fresh =
    Status_ind Outcome (set_nonblock fd d.sys).0
      (λ o. watch_created fd d d₁ (client_create fd d₁) i refl (client_create-Creates fd d₁) fresh)
      (λ f. here)
  where
    d₁ : Daemon
    d₁ = (on_sys (set_nonblock fd) d).1

    Outcome : Status × Daemon → Type 0
    Outcome r = Reach (view d) (view r.1)

accept_client-Reach :
    (fd : ℕ) (d : Daemon)
    → Inv (view d)
    → ((new_fd : ℕ) → AllocatesFresh new_fd (on_sys (syscall (accept fd)) d).1)
    → Reach (view d) (view (accept_client fd d))
unfolding accept_client
accept_client-Reach fd d i fresh =
    Option_ind (λ (x : Daemon). Reach (view d) (view x)) (syscall (accept fd) d.sys).0 (λ n. here)
      λ new_fd e. server_add_client-Reach new_fd (on_sys (syscall (accept fd)) d).1 i (fresh new_fd)

pub server_handle_connection-Reach :
    (mask : Mask) (fd : ℕ) (d : Daemon)
    → Inv (view d)
    → ((new_fd : ℕ) → AllocatesFresh new_fd (on_sys (syscall (accept fd)) d).1)
    → Reach (view d) (view (server_handle_connection mask fd d).1)
unfolding server_handle_connection
server_handle_connection-Reach mask fd d i fresh =
    if_ind (λ (r : Status × Daemon). Reach (view d) (view r.1)) (mask.error || mask.hangup)
      (λ e. here)
      λ e.
        if_ind (λ (x : Daemon). Reach (view d) (view x)) mask.readable
          (λ r. accept_client-Reach fd d i fresh) (λ n. here)
