-- ===== src/Server/Lifecycle.antt =====
-- seatd/server.c: setting the server up and taking it down, and the thread that watches for VT
-- changes; with `seat_create` and `seat_destroy` of seatd/seat.c.
use dde_seatd.Prelude.{
  ℕ, zero, suc, List, [], ◌∷◌, Option, none, some, Bool, true, false, ◌==◌, ◌&&◌, not,
  if◌then◌else◌, ℤ, minus_one, zero_int, length, is_some, St, Status, ok, fail,
}
use dde_seatd.Kernel.{
  Bytes, Call, Sys, calloc, strdup, pipe, pipe2, pthread_create, pthread_cancel, pthread_join,
  vt_waitevent, write, syscall, stop, out_of_fuel, eintr, einval, enosys,
}
use dde_seatd.Terminal.{terminal_open}
use dde_seatd.Daemon.{Ptr, Seat, Daemon, on_sys, set_sys, effect, assert, event_readable}
use dde_seatd.Seat.Vt.{close_fd}
use dde_seatd.Seat.Devices.{same_path}
use dde_seatd.Client.Lifecycle.{client_destroy, close_connection_fds}
use dde_seatd.Client.Handlers.{seat0}
use dde_seatd.Poller.{Poller, Loop, poller_init, poller_finish, poller_add_signal, poller_add_fd}
use dde_seatd.Server.{update_flags, set_nonblock}

-- The thread, and the descriptors that it uses; none is -1.
pub record Watcher : Type 0 where
  pub started : Bool
  pub running : Bool
  pub fd : Option ℕ
  pub pipe_0 : Option ℕ
  pub pipe_1 : Option ℕ

-- `struct server`; its lists, its seat and `running` are the daemon's.
pub record Server : Type 0 where
  pub poller : Poller
  pub installed : Bool
  pub watcher : Watcher
  pub daemon : Daemon

abbrev pub on_poller : {A : Type 0} → St (Loop (Unit {0})) A → St Server A
on_poller m w =
    let l : Loop (Unit {0}) = record {
      poller = w.poller;
      sys = w.daemon.sys;
      installed = w.installed;
      program = tt;
    } in
    (
      (m l).0,
      record w {
        poller = (m l).1.poller;
        installed = (m l).1.installed;
        daemon = set_sys (m l).1.sys w.daemon;
      },
    )

abbrev pub on_daemon : (Daemon → Daemon) → Server → Server
on_daemon f w = record w { daemon = f w.daemon }

abbrev pub on_kernel : {A : Type 0} → St Sys A → St Server A
on_kernel m w = ((on_sys m w.daemon).0, record w { daemon = (on_sys m w.daemon).1 })

unfoldable pub seat_create : Bytes → Bool → St Sys (Option Seat)
seat_create seat_name vt_bound s =
    let (r, s₁) = syscall calloc s in
    let (n, s₂) = syscall strdup s₁ in
    let seat : Seat = record {
      seat_name = seat_name;
      clients = [];
      active_client = none;
      next_client = none;
      vt_bound = vt_bound;
      cur_vt = minus_one;
      pending_vt_switch = zero_int;
      group_vts = [];
    } in
    elim r [ none ↦ (none, s₁) | some p ↦ elim n [ none ↦ (none, s₂) | some q ↦ (some seat, s₂) ] ]

-- The clients of the seat, the first one again and again; as many rounds as there are clients.
unfoldable pub destroy_members : ℕ → Daemon → Daemon
destroy_members zero d = elim d.seat.clients [ [] ↦ d | p ∷ ps ↦ effect (stop out_of_fuel) d ]
destroy_members (suc fuel) d = elim d.seat.clients [
  | [] ↦ d
  | p ∷ ps ↦ destroy_members fuel (client_destroy p (assert (d.client p).in_seat d))
]

-- The seat is freed at the end, so what is left of it stands for nothing.
unfoldable pub seat_destroy : Daemon → Daemon
unfolding destroy_members
seat_destroy d =
    let d₁ = destroy_members (length d.seat.clients) d in
    record d₁ { seat = record d₁.seat { group_vts = [] } }

unfoldable pub destroy_idle : ℕ → Daemon → Daemon
destroy_idle zero d = elim d.idle_clients [ [] ↦ d | p ∷ ps ↦ effect (stop out_of_fuel) d ]
destroy_idle (suc fuel) d = elim d.idle_clients [
  | [] ↦ d
  | p ∷ ps ↦ destroy_idle fuel (client_destroy p d)
]

unfoldable pub close_control_clients : List Ptr → Daemon → Daemon
close_control_clients [] d = d
close_control_clients (p ∷ ps) d =
    let d₁ = close_connection_fds p d in
    close_control_clients ps (effect (close_fd (d₁.connection p).fd) d₁)

-- A descriptor that may be -1.
abbrev pub close_some : Option ℕ → Server → Server
close_some none w = w
close_some (some fd) w = on_daemon (effect (close_fd fd)) w

-- `pthread_cancel` and `pthread_join`
abbrev pub stop_thread : Watcher → Server → Server
stop_thread v w =
    if v.started
    then (on_kernel (syscall pthread_join) (on_kernel (syscall pthread_cancel) w).1).1
    else w

unfoldable pub finish_watcher : Server → Server
finish_watcher w =
    let v = w.watcher in
    record (close_some v.pipe_1 (close_some v.pipe_0 (close_some v.fd (stop_thread v w)))) {
      watcher = record {
        started = false;
        running = false;
        fd = none;
        pipe_0 = none;
        pipe_1 = none;
      };
    }

unfoldable pub finish_clients : Daemon → Daemon
unfolding close_control_clients destroy_idle seat_destroy
finish_clients d =
    let d₁ = record (close_control_clients d.control_clients d) { control_clients = [] } in
    seat_destroy (destroy_idle (length d₁.idle_clients) d₁)

unfoldable pub server_finish : Server → Server
unfolding finish_watcher finish_clients
server_finish w =
    (on_poller (λ l. (tt, poller_finish l)) (on_daemon finish_clients (finish_watcher w))).1

abbrev close_both : ℕ × ℕ → Sys → Sys
close_both ends s = close_fd ends.1 (close_fd ends.0 s)

-- `ends` is what `pipe2` or `pipe` writes.
unfoldable pub create_vt_event_pipe : ℕ × ℕ → St Sys Status
create_vt_event_pipe ends s =
    let (r, s₁) = syscall pipe2 s in
    let (n, s₂) = syscall pipe s₁ in
    let (a, s₃) = update_flags ends.0 s₂ in
    let (b, s₄) = update_flags ends.1 s₃ in
    elim r [
      | some done ↦ (ok, s₁)
      | none ↦ if not (s₁.errno == enosys) && not (s₁.errno == einval) then (fail, s₁) else elim n [
        | none ↦ (fail, s₂)
        | some done ↦ elim a [
          | fail ↦ (fail, close_both ends s₃)
          | ok ↦ elim b [ fail ↦ (fail, close_both ends s₄) | ok ↦ (ok, s₄) ]
        ]
      ]
    ]

-- SIGUSR1, SIGUSR2, SIGINT and SIGTERM, up to the first one that fails.
unfoldable pub watch_signals : List ℕ → St Server Status
watch_signals [] w = (ok, w)
watch_signals (signal ∷ signals) w =
    let (r, w') = on_poller (poller_add_signal signal) w in
    elim r [ none ↦ (fail, w') | some q ↦ watch_signals signals w' ]

-- What `server_init` does with the pipe of the watcher, which has its ends.
unfoldable pub start_watcher : ℕ × ℕ → Server → Server
unfolding set_nonblock
start_watcher ends w =
    let (r, w₁) = on_kernel (set_nonblock ends.0) w in
    let (q, w₂) = on_poller (poller_add_fd ends.0 event_readable) w₁ in
    let (t, w₃) = on_kernel (syscall pthread_create) w₂ in
    elim r [
      | fail ↦ w₁
      | ok ↦ elim q [
        | none ↦ w₂
        | some source ↦ record w₃ {
          watcher = record w₃.watcher { running = is_some t; started = is_some t };
        }
      ]
    ]

-- Without a terminal or a pipe the daemon relies on the VT signals.
unfoldable pub init_watcher : ℕ × ℕ → Server → Server
unfolding create_vt_event_pipe start_watcher
init_watcher ends w =
    let (r, w₁) = on_kernel (terminal_open zero_int) w in
    let w₂ = record w₁ { watcher = record w₁.watcher { fd = r } } in
    let (c, w₃) = on_kernel (create_vt_event_pipe ends) w₂ in
    elim r [
      | none ↦ w₂
      | some fd ↦ elim c [
        | fail ↦ w₃
        | ok ↦ start_watcher ends (record w₃ {
          watcher = record w₃.watcher { pipe_0 = some ends.0; pipe_1 = some ends.1 };
        })
      ]
    ]

-- Whether the seat is bound to VTs, by SEATD_VTBOUND, if it is set: "1" says so.
abbrev pub is_bound : Option Bytes → Bool
is_bound none = true
is_bound (some vtenv) = same_path vtenv (49 ∷ [])

abbrev pub clear_lists : Server → Server
clear_lists w = record w {
  daemon = record w.daemon { idle_clients = []; control_clients = [] };
  watcher = record { started = false; running = false; fd = none; pipe_0 = none; pipe_1 = none };
}

-- Before the seat is there, the server has none, which an empty seat without a name stands for.
abbrev pub no_seat : Server → Server
no_seat w = record w {
  daemon = record w.daemon {
    seat = record w.daemon.seat { seat_name = []; clients = []; group_vts = [] };
  };
}

-- `ends` and `watch_ends` are what the two pipes write.
unfoldable pub server_init : ℕ × ℕ → ℕ × ℕ → Option Bytes → St Server Status
unfolding watch_signals seat_create init_watcher server_finish
server_init ends watch_ends vtenv w =
    let (r, w₁) = on_poller (poller_init ends) w in
    let (q, w₂) = watch_signals (10 ∷ 12 ∷ 2 ∷ 15 ∷ []) (no_seat (clear_lists w₁)) in
    let (c, w₃) = on_kernel (seat_create seat0 (is_bound vtenv)) w₂ in
    elim r [
      | fail ↦ (fail, w₁)
      | ok ↦ elim q [
        | fail ↦ (fail, server_finish w₂)
        | ok ↦ elim c [
          | none ↦ (fail, server_finish w₃)
          | some seat ↦
              let w₄ = init_watcher watch_ends (on_daemon (λ d. record d { seat = seat }) w₃) in
              (ok, on_daemon (λ d. record d { running = true }) w₄)
        ]
      ]
    ]

-- The watcher's loop, which runs as long as the main thread lets it: the messages of its first `rounds`
-- rounds. `lets_run` is `vt_event_running` as it stands, and `switched` the event that VT_WAITEVENT
-- reports, if it is a switch. A message whose `write` is interrupted is not written again.
unfoldable pub server_vt_event_loop :
    (lets_run : List Call → Bool) (switched : List Call → Option (ℤ × ℤ))
    → ℕ
    → ℕ × ℕ
    → St Sys (List (ℤ × ℤ))
server_vt_event_loop lets_run switched zero fds s = ([], s)
server_vt_event_loop lets_run switched (suc rounds) fds s =
    let go_on = server_vt_event_loop lets_run switched rounds fds in
    let (r, s₁) = syscall (vt_waitevent fds.0) s in
    let (n, s₂) = syscall (write fds.1) s₁ in
    if not (lets_run s.trace) then ([], s) else elim r [
      | none ↦ if s₁.errno == eintr then go_on s₁ else ([], s₁)
      | some done ↦ elim (switched s₁.trace) [
        | none ↦ go_on s₁
        | some msg ↦ elim n [
          | none ↦ if s₂.errno == eintr then go_on s₂ else ([], s₂)
          | some size ↦ let (msgs, s₃) = go_on s₂ in (msg ∷ msgs, s₃)
        ]
      ]
    ]
