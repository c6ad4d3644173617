-- ===== src/Tests/Requests.antt =====
-- A request of libseat in the inbox of the daemon.
use dde_seatd.Prelude.{◌≡◌, refl, [], ◌∷◌, ◌++◌, suc, arith}
use dde_seatd.Buffer.{size}
use dde_seatd.Buffer.Refine.{contents}
use dde_seatd.Connection.{connection_on}
use dde_seatd.Daemon.{Daemon, bytes_of_u16, header_bytes}
use dde_seatd.Client.Dispatch.{handle_messages}
use dde_seatd.Libseat.Wire.{open_device, parts_of, joined, handler_of, taken_all}
use dde_seatd.Libseat.Wire.Rounds.{go_on, handle_messages-request}
use dde_seatd.Tests.Scene.{lonely}
use dde_seatd.Tests.Backends.{inbox_of}

-- The client 1 asks for the device "/d", and a byte of its next request is there too.
abbrev asking : Daemon
asking = record lonely {
  connection = λ p. record (connection_on p) {
    inbox = inbox_of (joined (parts_of (open_device (47 ∷ 100 ∷ []))) ++ 7 ∷ []);
  };
}

handle_messages-request_example :
    handle_messages (suc 8) 1 asking
    ≡ go_on 8 1 (
        handler_of
          (open_device (47 ∷ 100 ∷ []))
          1
          (taken_all 1 (parts_of (open_device (47 ∷ 100 ∷ []))) asking))
unfolding header_bytes bytes_of_u16 contents size
handle_messages-request_example =
    handle_messages-request (open_device (47 ∷ 100 ∷ [])) 8 1 (7 ∷ []) asking
      ((omega arith, (omega arith, tt)), omega arith)
      (record {
        valid = record {
          head_range = omega arith;
          tail_range = omega arith;
          fits = omega arith;
          storage = refl;
        };
        next = refl;
      })
