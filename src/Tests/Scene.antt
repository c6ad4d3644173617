-- ===== src/Tests/Scene.antt =====
-- A kernel that grants everything, and a seat with two clients.
use dde_seatd.Prelude.{
  ◌+◌, refl, List, [], ◌∷◌, none, some, Bool, true, false, ◌==◌, if◌then◌else◌, length, pos,
  minus_one, zero_int, arith,
}
use dde_seatd.Kernel.{
  Call, calloc, open_tty, open_device, sendmsg, recvmsg, accept, Answer, returned, Kernel, Sys,
  running,
}
use dde_seatd.Terminal.{codes}
use dde_seatd.Connection.Sending.{Sends}
use dde_seatd.Connection.{connection_on}
use dde_seatd.Daemon.{
  Ptr, client_new, client_active, client_pending_disable, drm, Device, Client, Seat, Daemon,
}
use dde_seatd.Client.Handlers.{seat0}
use dde_seatd.Protocol.{view}
use dde_seatd.Protocol.Inv.{Inv}

abbrev answer : List Call → Call → Answer
answer trace calloc = returned (50 + length trace)
answer trace (open_tty path) = returned 9
answer trace (open_device path) = returned 10
answer trace (sendmsg fd bytes cmsg) = returned (length bytes)
answer trace (recvmsg fd room) = returned 4
answer trace (accept fd) = returned 20
answer trace _ = returned 0

-- Every client asks for the seat.
abbrev pub generous : Kernel
generous = record {
  answer = answer;
  resolved = λ trace path. path;
  received = λ trace room. (1 ∷ 0 ∷ 0 ∷ 0 ∷ [], []);
  peer = λ trace fd. record { pid = 1000; uid = 0; gid = 0 };
  revents = λ trace place. 1;
}

pub generous-Sends : Sends generous
generous-Sends = record { sends = λ trace fd bytes cmsg n e l. ground arith }

abbrev pub quiet : Sys
quiet = record { kernel = generous; trace = []; errno = 0; progress = running }

abbrev outsider : Client
outsider = record {
  pid = 1;
  uid = 0;
  gid = 0;
  in_seat = false;
  session = minus_one;
  state = client_new;
  devices = [];
}

abbrev pub card : Device
card = record {
  device_id = 1;
  fd = 8;
  ref_cnt = 2;
  active = true;
  path = codes "/dev/dri/card0";
  type = drm;
}

abbrev empty_seat : Seat
empty_seat = record {
  seat_name = seat0;
  clients = [];
  active_client = none;
  next_client = none;
  vt_bound = false;
  cur_vt = zero_int;
  pending_vt_switch = zero_int;
  group_vts = [];
}

-- A daemon that no client has found yet.
abbrev pub lonely : Daemon
lonely = record {
  sys = quiet;
  seat = empty_seat;
  running = true;
  idle_clients = [];
  control_clients = [];
  client = λ p. outsider;
  connection = λ p. connection_on p;
  event_mask = λ p. 0;
}

pub lonely-Inv : Inv (view lonely)
lonely-Inv = record {
  listed = λ p. refl;
  distinct = tt;
  distinct_idle = tt;
  idle_out = λ p e. refl;
  active_in = λ p e. ground arith;
  active_live = λ p e. ground arith;
  live_active = λ p e. ground arith;
  next_in = λ p e. ground arith;
  closed_out = λ p e. refl;
  in_session = λ p e. ground arith;
  closed_session = λ p e. ground arith;
}

-- The client 1 is on the seat, with a card; 2 is on it too; 3 is idle.
abbrev pub members : Bool → Ptr → Client
members leaving p =
    if p == 1
    then record {
      pid = 11;
      uid = 0;
      gid = 0;
      in_seat = true;
      session = pos 1;
      state = if leaving then client_pending_disable else client_active;
      devices = card ∷ [];
    }
    else if p == 2
    then record outsider { pid = 12; in_seat = true; session = pos 2 }
    else outsider

-- `leaving` tells whether 1 has been asked to stop.
abbrev pub shared : Bool → Daemon
shared leaving = record lonely {
  seat = record empty_seat { clients = 2 ∷ 1 ∷ []; active_client = some 1 };
  idle_clients = 3 ∷ [];
  client = members leaving;
}

pub shared-Inv : (leaving : Bool) → Inv (view (shared leaving))
shared-Inv leaving = record {
  listed = λ p. ground arith;
  distinct = (refl, (refl, tt));
  distinct_idle = (refl, tt);
  idle_out = λ p e. ground arith;
  active_in = λ p e. ground arith;
  active_live = λ p e. ground arith;
  live_active = λ p e. ground arith;
  next_in = λ p e. ground arith;
  closed_out = λ p e. ground arith;
  in_session = λ p e. ground arith;
  closed_session = λ p e. ground arith;
}
