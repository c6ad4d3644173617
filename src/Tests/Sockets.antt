-- ===== src/Tests/Sockets.antt =====
-- A control socket is opened.
use dde_seatd.Prelude.{minus_one, true}
use dde_seatd.Terminal.{codes}
use dde_seatd.Main.{open_socket_internal}
use dde_seatd.Main.Sockets.{set_up, OpensSocket, open_socket-OpensSocket}
use dde_seatd.Tests.Scene.{quiet}

open_socket-OpensSocket_example :
    OpensSocket
      (set_up (codes "/run/seatd.sock") minus_one minus_one true 384)
      quiet.trace
      (open_socket_internal (codes "/run/seatd.sock") minus_one minus_one true 384 quiet)
open_socket-OpensSocket_example =
    open_socket-OpensSocket (codes "/run/seatd.sock") minus_one minus_one true 384 quiet
