-- ===== src/Connection.antt =====
-- common/connection.c and include/connection.h: a socket with a ring buffer of bytes and one of file
-- descriptors in each direction. The functions on a connection return it beside their result.
pub mod Sending
pub mod Flush
pub mod Messages
use dde_seatd.Prelude.{
  ℕ, zero, suc, ◌+◌, ◌-◌, ◌*◌, ◌/◌, ◌%◌, List, [], ◌∷◌, ◌++◌, Option, none, some, Bool, true, false,
  ltb, leb, ◌==◌, ◌||◌, not, if◌then◌else◌, length, take, St, Status, ok, fail,
}
use dde_seatd.Kernel.{
  Bytes, Call, close, sendmsg, recvmsg, Sys, Cmsg, out_of_fuel, stop, eagain, eoverflow, set_errno,
  syscall, retry, retries,
}
use dde_seatd.Buffer
use dde_seatd.Buffer.{
  Buffer, buffer_size, max_fds, u32_mod, size, consume, restore, get_iov, put_iov, gather, iov_len,
  scatter, copy,
}

pub record Connection : Type 0 where
  pub inbox : Buffer
  pub outbox : Buffer
  pub fds_in : Buffer
  pub fds_out : Buffer
  pub fd : ℕ
  pub want_flush : Bool

-- A zeroed struct with its socket.
abbrev pub connection_on : ℕ → Connection
connection_on fd = record {
  inbox = Buffer.empty;
  outbox = Buffer.empty;
  fds_in = Buffer.empty;
  fds_out = Buffer.empty;
  fd = fd;
  want_flush = false;
}

-- A little-endian `int` that is not negative.
unfoldable pub bytes_of_int : ℕ → Bytes
bytes_of_int n = n % 256 ∷ n / 256 % 256 ∷ n / 65536 % 256 ∷ n / 16777216 % 256 ∷ []

unfoldable pub ints_of_bytes : Bytes → List ℕ
ints_of_bytes (a ∷ b ∷ c ∷ d ∷ rest) = (a + b * 256 + c * 65536 + d * 16777216) ∷ ints_of_bytes rest
ints_of_bytes _ = []

unfoldable pub close_all : List ℕ → Sys → Sys
close_all [] s = s
close_all (fd ∷ fds) s = close_all fds (syscall (close fd) s).1

unfoldable pub close_fds : Buffer → St Sys Buffer
close_fds b s =
    let count = size b / 4 in
    if size b == 0
    then (b, s)
    else (consume b (count * 4), close_all (ints_of_bytes (copy b (size b))) s)

-- The payload of the control message; none is built for an empty buffer.
unfoldable pub build_cmsg : Buffer → Bytes
build_cmsg b =
    let n = if ltb (max_fds * 4) (size b) then max_fds * 4 else size b in
    if n == 0 then [] else copy b n

unfoldable pub decode_cmsg : Buffer → List Cmsg → Bool → St Sys (Status × Buffer)
decode_cmsg b [] overflow s = if overflow then ((fail, b), set_errno eoverflow s) else ((ok, b), s)
decode_cmsg b (cmsg ∷ msg) overflow s =
    let skipped = decode_cmsg b msg overflow s in
    let closed = decode_cmsg b msg true (close_all (ints_of_bytes cmsg.payload) s) in
    if not cmsg.is_rights
    then skipped
    else if ltb (buffer_size - size b) (length cmsg.payload) || overflow
    then closed
    else elim (Buffer.put b cmsg.payload) [
      | none ↦ ((fail, b), set_errno eoverflow s)
      | some b' ↦ decode_cmsg b' msg overflow s
    ]

-- What `recvmsg` wrote, and what follows it. The kernel writes no more than there is room for.
unfoldable pub after_recv : Bytes × List Cmsg → Connection → St Sys (Option ℕ × Connection)
after_recv (bytes, msg) c s =
    let ((r, fds), s') = decode_cmsg c.fds_in msg false s in
    let filled = scatter c.inbox.bytes (put_iov c.inbox) bytes in
    let inbox = record c.inbox { head = (c.inbox.head + length bytes) % u32_mod; bytes = filled } in
    elim r [
      | fail ↦ ((none, record c { fds_in = fds; inbox = record c.inbox { bytes = filled } }), s')
      | ok ↦ ((some (size inbox), record c { fds_in = fds; inbox = inbox }), s')
    ]

unfoldable pub connection_read : Connection → St Sys (Option ℕ × Connection)
connection_read c s =
    let room = iov_len (put_iov c.inbox) in
    let (r, s') = retry retries (recvmsg c.fd room) s in
    if leb buffer_size (size c.inbox) then ((none, c), set_errno eoverflow s) else elim r [
      | none ↦ ((none, c), s')
      | some len ↦
          let (bytes, msg) = s'.kernel.received s'.trace room in
          after_recv (take room bytes, msg) c s'
    ]

unfoldable pub flush_loop : ℕ → Connection → St Sys (Status × Connection)
flush_loop zero c s = ((fail, c), stop out_of_fuel s)
flush_loop (suc fuel) c s =
    let (r, s') =
      retry retries (sendmsg c.fd (gather c.outbox.bytes (get_iov c.outbox)) (build_cmsg c.fds_out))
        s in
    elim (size c.outbox == 0) [
      | true ↦ ((ok, record c { want_flush = false }), s)
      | false ↦ elim r [
        | none ↦ ((fail, c), s')
        | some len ↦
            let (fds, s'') = close_fds c.fds_out s' in
            flush_loop fuel (record c { fds_out = fds; outbox = consume c.outbox len }) s''
      ]
    ]

-- Each round sends a byte at least, so there is one more than there can be bytes.
abbrev pub flush_fuel : ℕ
flush_fuel = 257

-- The number of bytes sent, or -1.
unfoldable pub connection_flush : Connection → St Sys (Option ℕ × Connection)
connection_flush c s =
    let ((r, c'), s') = flush_loop flush_fuel c s in
    if not c.want_flush then ((some 0, c), s) else elim r [
      | ok ↦ ((some ((c'.outbox.head + u32_mod - c.outbox.tail) % u32_mod), c'), s')
      | fail ↦ ((none, c'), s')
    ]

unfoldable pub put_out : Bytes → Connection → St Sys (Status × Connection)
put_out src c s = elim (Buffer.put c.outbox src) [
  | none ↦ ((fail, c), set_errno eoverflow s)
  | some b ↦ ((ok, record c { outbox = b; want_flush = true }), s)
]

unfoldable pub connection_put : Bytes → Connection → St Sys (Status × Connection)
unfolding put_out
connection_put src c s =
    let ((r, c'), s') = connection_flush (record c { want_flush = true }) s in
    if ltb buffer_size (size c.outbox + length src)
    then elim r [ none ↦ ((fail, c'), s') | some n ↦ put_out src c' s' ]
    else put_out src c s

unfoldable pub connection_put_fd : ℕ → Connection → St Sys (Status × Connection)
connection_put_fd fd c s =
    if leb (max_fds * 4) (size c.fds_out)
    then ((fail, c), set_errno eoverflow s)
    else elim (Buffer.put c.fds_out (bytes_of_int fd)) [
      | none ↦ ((fail, c), set_errno eoverflow s)
      | some b ↦ ((ok, record c { fds_out = b }), s)
    ]

unfoldable pub connection_get : ℕ → Connection → St Sys (Option Bytes × Connection)
connection_get count c s =
    if ltb (size c.inbox) count
    then ((none, c), set_errno eagain s)
    else ((some (copy c.inbox count), record c { inbox = consume c.inbox count }), s)

unfoldable pub connection_get_fd : Connection → St Sys (Option (List ℕ) × Connection)
connection_get_fd c s =
    if ltb (size c.fds_in) 4
    then ((none, c), set_errno eagain s)
    else ((some (ints_of_bytes (copy c.fds_in 4)), record c { fds_in = consume c.fds_in 4 }), s)

unfoldable pub connection_close_fds : Connection → St Sys Connection
connection_close_fds c s =
    let (fds_in, s') = close_fds c.fds_in s in
    let (fds_out, s'') = close_fds c.fds_out s' in
    (record c { fds_in = fds_in; fds_out = fds_out }, s'')

unfoldable pub connection_pending : Connection → ℕ
connection_pending c = size c.inbox

unfoldable pub connection_restore : ℕ → Connection → Connection
connection_restore count c = record c { inbox = restore c.inbox count }
