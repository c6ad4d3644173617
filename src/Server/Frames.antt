-- ===== src/Server/Frames.antt =====
-- seatd/poller.c: a new event source, and the abstract seat.
use dde_seatd.Prelude.{ℕ, ◌≡◌, refl, Option_ind, Status}
use dde_seatd.Kernel.{calloc, syscall}
use dde_seatd.Daemon.{Ptr, Daemon, event_source_fd_update}
use dde_seatd.Protocol.{view}
use dde_seatd.Server.{poller_add_fd}

pub view-poller_add_fd :
    (p : Ptr) (mask : ℕ) (d : Daemon) → view (poller_add_fd p mask d).1 ≡ view d
unfolding poller_add_fd event_source_fd_update
view-poller_add_fd p mask d =
    Option_ind (λ (r : Status × Daemon). view r.1 ≡ view d) (syscall calloc d.sys).0 (λ n. refl)
      (λ s n. refl)
