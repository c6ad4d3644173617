-- ===== src/Server/Ending.antt =====
-- seatd/server.c: `server_finish` takes every client away.
use dde_seatd.Prelude.{
  Option, none, some, ℕ, zero, suc, ◌≤◌, ◌≡◌, refl, sym, ap, subst, ◌∙◌, List, [], ◌∷◌, true, false,
  if_ind, List_ind, ◌==◌, length, arith,
}
use dde_seatd.Daemon.{Ptr, Daemon, effect, assert, remove}
use dde_seatd.Seat.Vt.{close_fd}
use dde_seatd.Client.Lifecycle.{client_destroy, close_connection_fds}
use dde_seatd.Poller.{poller_finish}
use dde_seatd.Protocol.{view, has}
use dde_seatd.Protocol.Inv.{Inv, Reach-Inv}
use dde_seatd.Refine.Removal.{idle_after_removal, clients_after_removal}
use dde_seatd.Refine.Messages.{client_destroy-Reach}
use dde_seatd.Server.Lifecycle.{
  Server, destroy_members, seat_destroy, destroy_idle, close_control_clients, close_some,
  stop_thread, finish_watcher, finish_clients, server_finish,
}

remove-first : (p : Ptr) (ps : List Ptr) → remove p (p ∷ ps) ≡ ps
unfolding remove
remove-first p ps = if_ind (λ qs. qs ≡ ps) (p == p) (λ e. refl) (λ e. absurd (ground arith))

has-first : (p : Ptr) (ps : List Ptr) → has p (p ∷ ps) ≡ true
has-first p ps = ground arith

idle_after : (p : Ptr) (d : Daemon) → (client_destroy p d).idle_clients ≡ remove p d.idle_clients
unfolding client_destroy close_connection_fds
idle_after p d = ap (remove p) (
    if_ind (λ (x : Daemon). x.idle_clients ≡ d.idle_clients) (d.client p).in_seat
      (λ t. idle_after_removal p gone) (λ f. refl))
  where
    gone : Daemon
    gone = effect (close_fd (d.connection p).fd) d

-- A client is taken off the lists where it stands first.
idle-client_destroy :
    (p : Ptr) (ps : List Ptr) (d : Daemon)
    → d.idle_clients ≡ p ∷ ps
    → (client_destroy p d).idle_clients ≡ ps
idle-client_destroy p ps d e = idle_after p d ∙ ap (remove p) e ∙ remove-first p ps

clients-client_destroy :
    (p : Ptr) (ps : List Ptr) (d : Daemon)
    → d.seat.clients ≡ p ∷ ps
    → (d.client p).in_seat ≡ true
    → (client_destroy p d).seat.clients ≡ ps
unfolding client_destroy close_connection_fds
clients-client_destroy p ps d e h =
    if_ind (λ (x : Daemon). x.seat.clients ≡ ps) (d.client p).in_seat
      (λ t.
        clients_after_removal p (effect (close_fd (d.connection p).fd) d)
        ∙ ap (remove p) e
        ∙ remove-first p ps)
      (λ f. absurd (ground (arith, f, h)))

none_idle : (p : Ptr) (d : Daemon) → d.idle_clients ≡ [] → (client_destroy p d).idle_clients ≡ []
unfolding remove
none_idle p d e = idle_after p d ∙ ap (remove p) e

destroy_idle-empties :
    (fuel : ℕ) (d : Daemon) → length d.idle_clients ≤ fuel → (destroy_idle fuel d).idle_clients ≡ []
unfolding destroy_idle
destroy_idle-empties zero d h =
    List_ind (λ (x : Daemon). x.idle_clients ≡ []) d.idle_clients (λ e. e)
      (λ p ps e. absurd (omega (arith, h, ap length e)))
destroy_idle-empties (suc fuel) d h =
    List_ind (λ (x : Daemon). x.idle_clients ≡ []) d.idle_clients (λ e. e)
      λ p ps e.
        destroy_idle-empties fuel (client_destroy p d)
          (omega (arith, h, ap length e, ap length (idle-client_destroy p ps d e)))

destroy_idle-Inv : (fuel : ℕ) (d : Daemon) → Inv (view d) → Inv (view (destroy_idle fuel d))
unfolding destroy_idle
destroy_idle-Inv zero d i =
    List_ind (λ (x : Daemon). Inv (view x)) d.idle_clients (λ e. i) (λ p ps e. i)
destroy_idle-Inv (suc fuel) d i =
    List_ind (λ (x : Daemon). Inv (view x)) d.idle_clients (λ e. i)
      λ p ps e.
        destroy_idle-Inv fuel (client_destroy p d) (Reach-Inv i (client_destroy-Reach p d i))

-- The clients of the seat go, and idle ones do not come back.
record Emptied (d : Daemon) : Type 0 where
  members : d.seat.clients ≡ []
  idle : d.idle_clients ≡ []

destroy_members-Emptied :
    (fuel : ℕ) (d : Daemon)
    → Inv (view d)
    → d.idle_clients ≡ []
    → length d.seat.clients ≤ fuel
    → Emptied (destroy_members fuel d)
unfolding destroy_members
destroy_members-Emptied zero d i n h =
    List_ind Emptied d.seat.clients (λ e. record { members = e; idle = n })
      (λ p ps e. absurd (omega (arith, h, ap length e)))
destroy_members-Emptied (suc fuel) d i n h =
    List_ind Emptied d.seat.clients (λ e. record { members = e; idle = n })
      λ p ps e.
        let inside : (d.client p).in_seat ≡ true = i.listed p ∙ ap (has p) e ∙ has-first p ps in
        destroy_members-Emptied fuel (client_destroy p (assert (d.client p).in_seat d))
          (Reach-Inv i (client_destroy-Reach p (assert (d.client p).in_seat d) i))
          (none_idle p (assert (d.client p).in_seat d) n)
          (omega (
            arith,
            h,
            ap length e,
            ap length (clients-client_destroy p ps (assert (d.client p).in_seat d) e inside),
          ))

view-close_control_clients :
    (ps : List Ptr) (d : Daemon) → view (close_control_clients ps d) ≡ view d
unfolding close_control_clients close_connection_fds
view-close_control_clients [] d = refl
view-close_control_clients (p ∷ ps) d = view-close_control_clients ps _

finish_clients-empties :
    (d : Daemon)
    → Inv (view d)
    → (let d' = finish_clients d in
        (d'.seat.clients ≡ []) × (d'.idle_clients ≡ []) × (d'.seat.group_vts ≡ []))
unfolding finish_clients seat_destroy
finish_clients-empties d i = (done.members, done.idle, refl)
  where
    d₁ : Daemon
    d₁ = record (close_control_clients d.control_clients d) { control_clients = [] }

    start : Inv (view d₁)
    start = subst Inv (sym (view-close_control_clients d.control_clients d)) i

    d₂ : Daemon
    d₂ = destroy_idle (length d₁.idle_clients) d₁

    done : Emptied (destroy_members (length d₂.seat.clients) d₂)
    done =
        destroy_members-Emptied (length d₂.seat.clients) d₂
          (destroy_idle-Inv (length d₁.idle_clients) d₁ start)
          (destroy_idle-empties (length d₁.idle_clients) d₁ (omega arith)) (omega arith)

view-close_some : (fd : Option ℕ) (w : Server) → view (close_some fd w).daemon ≡ view w.daemon
view-close_some none w = refl
view-close_some (some fd) w = refl

view-finish_watcher : (w : Server) → view (finish_watcher w).daemon ≡ view w.daemon
unfolding finish_watcher
view-finish_watcher w =
    view-close_some w.watcher.pipe_1 (close_some w.watcher.pipe_0 (close_some w.watcher.fd stopped))
    ∙ view-close_some w.watcher.pipe_0 (close_some w.watcher.fd stopped)
    ∙ view-close_some w.watcher.fd stopped
    ∙ if_ind (λ (x : Server). view x.daemon ≡ view w.daemon) w.watcher.started (λ t. refl)
        (λ f. refl)
  where
    stopped : Server
    stopped = stop_thread w.watcher w

-- On a daemon whose abstract seat satisfies the invariant, each loop of `server_finish` that
-- destroys clients ends within a round for each client in its list, although a client that leaves
-- lets another one in: no client is on the seat or idle afterwards, no VT is grouped, the poller
-- has no sources, and the watcher is stopped.
pub server_finish-empties :
    (w : Server)
    → Inv (view w.daemon)
    → (let w' = server_finish w in
        (w'.daemon.seat.clients ≡ [])
        × (w'.daemon.idle_clients ≡ [])
        × (w'.daemon.seat.group_vts ≡ [])
        × (w'.poller.fds ≡ [])
        × (w'.poller.signals ≡ [])
        × (w'.watcher.started ≡ false))
unfolding server_finish finish_watcher poller_finish
server_finish-empties w i =
    let done =
      finish_clients-empties (finish_watcher w).daemon
        (subst Inv (sym (view-finish_watcher w)) i) in
    (done.0, done.1, done.2, refl, refl, refl)
