-- ===== src/Server/Safety.antt =====
-- The daemon as a whole: the events that the poller hands to its handlers, runs of them, and the
-- abstract seat along a run.
use dde_seatd.Prelude.{ℕ, ◌≡◌, refl, List, [], ◌∷◌, true, ◌||◌, if◌then◌else◌, if_ind, ℤ, Status}
use dde_seatd.Kernel.{accept, syscall}
use dde_seatd.Daemon.{Ptr, Daemon, on_sys}
use dde_seatd.Seat.Switching.{seat_handle_vt_event}
use dde_seatd.Client.Handlers.{seat0, server_has_seat}
use dde_seatd.Client.Dispatch.{Mask, client_handle_connection}
use dde_seatd.Protocol.{view, Reach, here}
use dde_seatd.Protocol.Inv.{Inv, Reach-Inv, Reach-trans, Reach-eq, is_live, live_unique}
use dde_seatd.Refine.Switching.{
  seat_handle_vt_event-Reach, view-seat_vt_activate, view-seat_vt_release,
}
use dde_seatd.Refine.Messages.{client_handle_connection-Reach}
use dde_seatd.Control.Connections.{control_client_handle_connection, control_handle_connection}
use dde_seatd.Control.Isolation.{
  control_client_handle_connection-Still, control_handle_connection-Still,
}
use dde_seatd.Server.{
  server_handle_connection, server_handle_vt_acq, server_handle_vt_rel, server_handle_kill,
  drain_vt_events, server_handle_vt_event,
}
use dde_seatd.Server.Accepting.{AllocatesFresh, server_handle_connection-Reach}

view-server_handle_vt_acq : (d : Daemon) → view (server_handle_vt_acq d).1 ≡ view d
unfolding server_handle_vt_acq
view-server_handle_vt_acq d =
    if_ind (λ (r : Status × Daemon). view r.1 ≡ view d) (server_has_seat d seat0)
      (λ h. view-seat_vt_activate d) (λ h. refl)

view-server_handle_vt_rel : (d : Daemon) → view (server_handle_vt_rel d).1 ≡ view d
unfolding server_handle_vt_rel
view-server_handle_vt_rel d =
    if_ind (λ (r : Status × Daemon). view r.1 ≡ view d) (server_has_seat d seat0)
      (λ h. view-seat_vt_release d) (λ h. refl)

drain_vt_events-Reach :
    (msgs : List (ℤ × ℤ)) (d : Daemon)
    → Inv (view d)
    → Reach (view d) (view (drain_vt_events msgs d))
unfolding drain_vt_events
drain_vt_events-Reach [] d i = here
drain_vt_events-Reach ((old_vt, new_vt) ∷ msgs) d i =
    Reach-trans first (drain_vt_events-Reach msgs d₁ (Reach-Inv i first))
  where
    d₁ : Daemon
    d₁ = if server_has_seat d seat0 then seat_handle_vt_event old_vt new_vt d else d

    first : Reach (view d) (view d₁)
    first =
        if_ind (λ (x : Daemon). Reach (view d) (view x)) (server_has_seat d seat0)
          (λ h. seat_handle_vt_event-Reach old_vt new_vt d i) (λ h. here)

server_handle_vt_event-Reach :
    (mask : Mask) (msgs : List (ℤ × ℤ)) (d : Daemon)
    → Inv (view d)
    → Reach (view d) (view (server_handle_vt_event mask msgs d).1)
unfolding server_handle_vt_event
server_handle_vt_event-Reach mask msgs d i =
    if_ind (λ (r : Status × Daemon). Reach (view d) (view r.1)) (mask.error || mask.hangup)
      (λ e. here)
      λ e.
        if_ind (λ (x : Daemon). Reach (view d) (view x)) mask.readable
          (λ r. drain_vt_events-Reach msgs d i) (λ n. here)

-- One event that the poller hands to its handler.
pub data Event : Type 0 where
  from_client : Mask → Ptr → Event
  from_listener : Mask → ℕ → Event
  from_control_client : Mask → Ptr → Event
  from_control_socket : Mask → ℕ → Event
  from_watcher : Mask → List (ℤ × ℤ) → Event
  vt_acquire vt_release terminate : Event

abbrev pub handle : Event → Daemon → Daemon
handle (from_client mask p) d = (client_handle_connection mask p d).1
handle (from_listener mask fd) d = (server_handle_connection mask fd d).1
handle (from_control_client mask p) d = (control_client_handle_connection mask p d).1
handle (from_control_socket mask fd) d = (control_handle_connection mask fd d).1
handle (from_watcher mask msgs) d = (server_handle_vt_event mask msgs d).1
handle vt_acquire d = (server_handle_vt_acq d).1
handle vt_release d = (server_handle_vt_rel d).1
handle terminate d = (server_handle_kill d).1

-- What an event asks of the allocator.
abbrev pub Allocates : Event → Daemon → Type 0
Allocates (from_listener mask fd) d =
    (new_fd : ℕ) → AllocatesFresh new_fd (on_sys (syscall (accept fd)) d).1
Allocates _ d = Unit {0}

-- The daemon after some events, in the order in which they come.
pub data Run (d : Daemon) : Daemon → Type 0 where
  start : Run d d
  step : {d' : Daemon} → Run d d' → (e : Event) → Allocates e d' → Run d (handle e d')

handle-Reach :
    (e : Event) (d : Daemon) → Inv (view d) → Allocates e d → Reach (view d) (view (handle e d))
unfolding server_handle_kill
handle-Reach (from_client mask p) d i a = client_handle_connection-Reach mask p d i
handle-Reach (from_listener mask fd) d i a = server_handle_connection-Reach mask fd d i a
handle-Reach (from_control_client mask p) d i a =
    Reach-eq (control_client_handle_connection-Still mask p d)
handle-Reach (from_control_socket mask fd) d i a =
    Reach-eq (control_handle_connection-Still mask fd d)
handle-Reach (from_watcher mask msgs) d i a = server_handle_vt_event-Reach mask msgs d i
handle-Reach vt_acquire d i a = Reach-eq (view-server_handle_vt_acq d)
handle-Reach vt_release d i a = Reach-eq (view-server_handle_vt_rel d)
handle-Reach terminate d i a = Reach-eq view-kill
  where
    view-kill : view (server_handle_kill d).1 ≡ view d
    view-kill = refl

Run-Reach : {d d' : Daemon} → Inv (view d) → Run d d' → Reach (view d) (view d')
Run-Reach i start = here
Run-Reach i (step {d'} r e a) =
    Reach-trans (Run-Reach i r) (handle-Reach e d' (Reach-Inv i (Run-Reach i r)) a)

-- Take any daemon whose abstract seat satisfies the invariant, and any sequence of events: of
-- clients, of the listening socket, of control clients and the control socket, VT signals, VT
-- changes, termination. Provided that `calloc` returns an address that no list holds whenever a
-- client connects, the abstract seat is afterwards where a sequence of its moves leads, and
-- satisfies the invariant again.
pub Run-Inv : (d d' : Daemon) → Inv (view d) → Run d d' → Reach (view d) (view d') × Inv (view d')
Run-Inv d d' i r = (Run-Reach i r, Reach-Inv i (Run-Reach i r))

-- After any sequence of events from a daemon whose abstract seat satisfies the invariant, with
-- fresh addresses from `calloc` for new clients, two clients that are active or still have to
-- acknowledge that they stop are one and the same client.
pub Run-live_unique :
    (d d' : Daemon) (p q : Ptr)
    → Inv (view d)
    → Run d d'
    → is_live (d'.client p).state ≡ true
    → is_live (d'.client q).state ≡ true
    → p ≡ q
Run-live_unique d d' p q i r hp hq = live_unique p q (Run-Inv d d' i r).1 hp hq
