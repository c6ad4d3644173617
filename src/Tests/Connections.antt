-- ===== src/Tests/Connections.antt =====
-- Messages on a connection.
use dde_seatd.Prelude.{◌≡◌, refl, some, true, arith, suc}
use dde_seatd.Kernel.{retry, after_answer}
use dde_seatd.Buffer
use dde_seatd.Buffer.{Buffer, size, buffer_size}
use dde_seatd.Buffer.Refine.{contents}
use dde_seatd.Connection.{Connection, connection_on, connection_flush, flush_loop, connection_get}
use dde_seatd.Connection.Flush.{Ends, connection_flush-all}
use dde_seatd.Connection.Messages.{Gets, connection_get-Gets}
use dde_seatd.Daemon.{Daemon}
use dde_seatd.Client.Dispatch.{u16_of_bytes, handle_messages}
use dde_seatd.Client.Partial.{Waits, handle_messages-Waits}
use dde_seatd.Tests.Scene.{generous-Sends, quiet, lonely}
use dde_seatd.Tests.Buffers.{wrapped, wrapped-IsValid}

abbrev pub busy : Connection
busy = record (connection_on 5) { inbox = wrapped; outbox = wrapped; want_flush = true }

connection_get-Gets_example : Gets 4 busy (connection_get 4 busy quiet).0
connection_get-Gets_example = connection_get-Gets 4 busy quiet wrapped-IsValid

connection_flush-all_example : Ends busy (connection_flush busy quiet)
connection_flush-all_example = connection_flush-all busy quiet generous-Sends wrapped-IsValid refl

flush_runs : (connection_flush busy quiet).0.0 ≡ some 8
unfolding connection_flush flush_loop size retry after_answer Buffer.consume Buffer.gather
    Buffer.get_iov
flush_runs = refl

-- The client 1 has sent a header of the bytes 7 7 7 7, and four of the 1799 bytes that it announces.
abbrev waiting : Daemon
waiting = record lonely { connection = λ p. busy }

handle_messages-Waits_example : Waits 1 waiting (handle_messages (suc 1) 1 waiting)
unfolding size contents u16_of_bytes
handle_messages-Waits_example = handle_messages-Waits 1 1 waiting wrapped-IsValid (omega arith)
