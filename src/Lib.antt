-- ===== src/Lib.antt =====
-- dde-seatd: a model of the seat daemon, and what holds of it.
--
-- The daemon hands a seat (display, input devices, virtual terminals) to one client at a time. Clients
-- talk to it over a Unix socket; a session manager talks to it over a control socket; the kernel
-- signals VT changes. Each event that the poller reports is handled to its end by one handler, so a run
-- of the daemon is a sequence of handlers on one state. The program's side of the protocol is
-- libseat, which sends a request, waits for its response and keeps events until the program
-- dispatches them.
--
-- The files, from the bottom up:
--   Prelude      library names passed on, Boolean tests, lists, `int` values, the state monad
--   Buffer       common/connection.c: the ring buffer (connection_buffer_*); Buffer/Window and
--                Buffer/Refine relate it to a queue of bytes
--   Kernel       the kernel and the C library as parameters: system calls, answers, `errno`
--   Terminal     common/terminal.c, drm.c, evdev.c, hidraw.c, wscons.c
--   Connection   common/connection.c: connection_*; Connection/Sending,
--                Connection/Flush and Connection/Messages
--   Daemon       the structs of include/seat.h, client.h, server.h and control.h as one state
--   Events       what the seat sends: client_send_* of seatd/client.c, and the part of seatd/control.c
--                that seatd/seat.c calls
--   Seat         seatd/seat.c: Vt, Devices, Clients, Switching, GroupVts
--   Client       seatd/client.c: Lifecycle, Handlers, Dispatch
--   Control      seatd/control.c: the requests, and in Control/Connections the events
--   Server       seatd/server.c: accepting, signals, the VT event pipe; Server/Safety runs the daemon.
--                Server/Lifecycle has server_init, server_finish and the thread that watches VTs, on the
--                poller of Poller; Starting and Ending say what they leave
--   Main         seatd/seatd.c: opening the sockets, and files that stand at their paths
--   Protocol     the abstract seat: its view of the state, its moves, and in Protocol/Inv their invariant
--   Refine       the functions of Seat and Client make moves of the abstract seat
--   LinkedList   common/linked_list.c: circular lists in a store of pointers; Chains, Refine, Removing
--                and Taking relate its functions to those on the sequences of pointers, which the other
--                files use
--   Poller       seatd/poller.c: the sources and their functions; Poller/Polling has regenerate, dispatch
--                and poller_poll, the other children what the poller keeps
--   Libseat      the client's side. libseat/backend/seatd.c: State, Reading, Requests, Opening;
--                libseat/libseat.c: Choice; libseat/backend/noop.c: Noop. Inbox, Arrival, Response and
--                Answers follow a message to the operation that waits for it, Sound and Pending the
--                events, Errors
--                a broken connection; Wire takes a request to the daemon's handler
--   Tests        scenes on which the functions run
--
-- How state and operations correspond: a pointer to a client is a number, under which the state holds
-- the client and its connection; a linked list is the list of its pointers, front first. A function of
-- the source is a function of the same name from the state to its result and the next state. A return
-- of -1 is `fail` or `none`; `errno` is part of the state. A test that leaves early is an `if` whose other
-- branch is the rest of the function.
--
-- The kernel answers a call from the history of all calls before it, by a function that is arbitrary
-- unless a theorem names what it needs: that `calloc` returns an address that no list of clients holds,
-- for the events in which a client connects; that `sendmsg` sends between one byte and all; that the
-- ioctls which take a device away succeed. A failed
-- `assert` and a loop out of fuel are marked in the state and the function goes on, so a theorem about
-- the states after an event covers what comes before the mark as well.
--
-- Fuel: 257 rounds for a flush of 256 bytes, each of which sends one at least; 65 rounds
-- for the messages of a 256-byte buffer, whose headers take four bytes each; for the search of a
-- session a round for each client and one more, and for closing devices a round for each reference and
-- each device; 64 repetitions of an interrupted `sendmsg`, `recvmsg` or `poll`. Waiting for a response,
-- emptying the signal pipe and the loop of the VT watcher have no bound of their own: the number of
-- rounds is an argument. Taking clients away at the end has a round for each client.
--
-- Numbers: the counters of the ring buffer are `uint32_t`, with the wrap-around written out; an `int` that
-- may be negative is a value of `ℤ`; descriptors, ids and sizes are natural numbers. Additions on `int`
-- that could only overflow after 2^31 steps are not bounded.
--
-- Not modelled: libseat's logind backend and the daemon that its built-in backend forks, the launcher,
-- the command line and the main loop of the daemon's main program, logging, and the variants for FreeBSD and NetBSD.
pub mod Prelude
pub mod Buffer
pub mod Kernel
pub mod Terminal
pub mod Connection
pub mod Daemon
pub mod Events
pub mod Seat
pub mod Client
pub mod Control
pub mod Protocol
pub mod Refine
pub mod Server
pub mod Main
pub mod LinkedList
pub mod Libseat
pub mod Poller
pub mod Tests
