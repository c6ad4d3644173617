-- ===== src/Tests/Lifecycles.antt =====
-- A server is set up, and a server whose seat has two clients is taken down.
use dde_seatd.Prelude.{◌≡◌, refl, [], ◌∷◌, none, some, false}
use dde_seatd.Kernel.{check, after_answer, syscall, retry}
use dde_seatd.Terminal.{get_tty_path, terminal_open}
use dde_seatd.Daemon.{Daemon}
use dde_seatd.Poller.{poller_init, poller_add_signal, poller_add_fd}
use dde_seatd.Protocol.{view}
use dde_seatd.Protocol.Inv.{Inv}
use dde_seatd.Server.{set_nonblock, update_flags}
use dde_seatd.Server.Lifecycle.{
  Server, seat_create, create_vt_event_pipe, watch_signals, start_watcher, init_watcher,
  server_init, server_finish,
}
use dde_seatd.Server.Starting.{server_init-Inv}
use dde_seatd.Server.Ending.{server_finish-empties}
use dde_seatd.Tests.Scene.{lonely, shared, shared-Inv}

abbrev server_with : Daemon → Server
server_with d = record {
  poller = record {
    signals = [];
    fds = [];
    signal_source = λ q. record { signal = 10; raised = false; killed = false };
    fd_source = λ q. record { fd = 30; mask = 1; killed = false; pollfd_idx = none };
    signal_fd_0 = 5;
    signal_fd_1 = 6;
    pollfds = [];
    fd_event_sources = 1;
    dirty = false;
  };
  installed = false;
  watcher = record { started = false; running = false; fd = none; pipe_0 = none; pipe_1 = none };
  daemon = d;
}

server_init-Inv_example :
    Inv (view (server_init (3, 4) (5, 6) (some (48 ∷ [])) (server_with lonely)).1.daemon)
unfolding check after_answer syscall retry get_tty_path terminal_open poller_init poller_add_signal
    poller_add_fd set_nonblock update_flags seat_create create_vt_event_pipe watch_signals
    start_watcher init_watcher server_init
server_init-Inv_example =
    server_init-Inv (3, 4) (5, 6) (some (48 ∷ [])) (server_with lonely) (λ p. (refl, refl, refl))
      refl

server_finish-empties_example :
    (let w' = server_finish (server_with (shared false)) in
      (w'.daemon.seat.clients ≡ [])
      × (w'.daemon.idle_clients ≡ [])
      × (w'.daemon.seat.group_vts ≡ [])
      × (w'.poller.fds ≡ [])
      × (w'.poller.signals ≡ [])
      × (w'.watcher.started ≡ false))
server_finish-empties_example =
    server_finish-empties (server_with (shared false)) (shared-Inv false)
