-- ===== src/Kernel.antt =====
-- What the program asks of the kernel and of the C library, which are parameters: a `Kernel` answers
-- each call from the history of all earlier ones, so nothing is assumed of it unless a theorem says so.
-- `Sys` is the part of the daemon's state that those calls touch: the calls made so far, `errno`, and
-- whether the process has stopped (a failed `assert`, or a retry loop that used up its fuel).
use dde_seatd.Prelude.{
  ℤ, ℕ, zero, suc, ◌/◌, ◌%◌, List, ◌∷◌, Option, none, some, Bool, true, false, ◌==◌, if◌then◌else◌,
  St,
}

-- Paths and messages are lists of bytes.
abbrev pub Bytes : Type 0
Bytes = List ℕ

pub data Call : Type 0 where
  -- `open` of a terminal and of a device file
  open_tty open_device : Bytes → Call
  close dup : ℕ → Call
  -- ioctls of a terminal: VT_OPENQRY, VT_GETSTATE, VT_SETMODE, VT_ACTIVATE, VT_RELDISP (with 1 for a
  -- release and VT_ACKACQ for an acquisition), KDSKBMODE, KDSETMODE
  vt_openqry vt_getstate : ℕ → Call
  vt_setmode : ℕ → Bool → Call
  vt_activate : ℕ → ℕ → Call
  vt_reldisp : ℕ → Bool → Call
  kd_set_keyboard kd_set_graphics : ℕ → Bool → Call
  -- ioctls of a device
  drm_set_master_ioctl drm_drop_master_ioctl drm_auth_magic_ioctl : ℕ → Call
  evdev_revoke_ioctl hidraw_revoke_ioctl : ℕ → Call
  -- the socket, the bytes of the vectors, the bytes of the SCM_RIGHTS message
  sendmsg : ℕ → Bytes → Bytes → Call
  -- the socket, the room in the vectors
  recvmsg : ℕ → ℕ → Call
  realpath : Bytes → Call
  -- `accept`, and the `fcntl`s that set and read the flags of a descriptor
  accept fcntl shutdown : ℕ → Call
  -- `getsockopt` with SO_PEERCRED
  getsockopt_peercred : ℕ → Call
  geteuid : Call
  -- `socket` for a Unix stream, `connect` to a path, `socketpair` and `pipe`
  socket : Call
  connect : ℕ → Bytes → Call
  socketpair pipe : Call
  -- `bind` to a path in an address of some length, and `listen`
  bind : ℕ → Bytes → ℕ → Call
  listen : ℕ → Call
  -- a path with the mode, or with the user and the group
  chmod : Bytes → ℕ → Call
  chown : Bytes → ℤ → ℤ → Call
  -- `lstat`, whose answer is 1 for a socket and 0 for another file, and `unlink`
  lstat unlink : Bytes → Call
  -- `pipe2` with O_CLOEXEC
  pipe2 : Call
  -- the thread that watches for VT changes
  pthread_create pthread_cancel pthread_join : Call
  -- VT_WAITEVENT for VT_EVENT_SWITCH
  vt_waitevent : ℕ → Call
  -- `poll` of descriptors, each with the events that are asked for
  poll : List (ℕ × ℕ) → Call
  -- `sigaction` of a signal, with the program's handler or with SIG_DFL
  sigaction : ℕ → Bool → Call
  realloc : ℕ → Call
  -- `read` and `write` of a descriptor, whose bytes are of no account
  read write : ℕ → Call
  -- `calloc` and `strdup`, which fail only when memory is short; the answer is the new pointer
  calloc strdup : Call

-- A result or value that the call hands back, or -1 (or NULL) with `errno`. A VT that VT_OPENQRY
-- reports as 0 or less is 0 here: the code treats these alike.
pub data Answer : Type 0 where
  returned failed : ℕ → Answer

-- A control message: whether it is an SCM_RIGHTS of SOL_SOCKET, and its payload.
pub record Cmsg : Type 0 where
  pub is_rights : Bool
  pub payload : Bytes

-- `struct ucred`
pub record Ucred : Type 0 where
  pub pid : ℕ
  pub uid : ℕ
  pub gid : ℕ

pub record Kernel : Type 0 where
  pub answer : List Call → Call → Answer
  -- what `realpath` writes when it succeeds
  pub resolved : List Call → Bytes → Bytes
  -- what `recvmsg` writes when it succeeds: the bytes and the control messages
  pub received : List Call → ℕ → Bytes × List Cmsg
  -- the credentials that `getsockopt` writes when it succeeds
  pub peer : List Call → ℕ → Ucred
  -- what `poll` writes to `revents` when it succeeds, by the place in its array
  pub revents : List Call → ℕ → ℕ

pub data Progress : Type 0 where
  running failed_assert out_of_fuel : Progress

pub record Sys : Type 0 where
  pub kernel : Kernel
  -- the newest first
  pub trace : List Call
  pub errno : ℕ
  pub progress : Progress

-- errno values, as Linux numbers them
abbrev pub eperm : ℕ
eperm = 1

abbrev pub enoent : ℕ
enoent = 2

abbrev pub esrch : ℕ
esrch = 3

abbrev pub eintr : ℕ
eintr = 4

abbrev pub ebadf : ℕ
ebadf = 9

abbrev pub eagain : ℕ
eagain = 11

abbrev pub enomem : ℕ
enomem = 12

abbrev pub eio : ℕ
eio = 5

abbrev pub eacces : ℕ
eacces = 13

abbrev pub ebusy : ℕ
ebusy = 16

abbrev pub einval : ℕ
einval = 22

abbrev pub emfile : ℕ
emfile = 24

abbrev pub epipe : ℕ
epipe = 32

abbrev pub enosys : ℕ
enosys = 38

abbrev pub eproto : ℕ
eproto = 71

abbrev pub ebadmsg : ℕ
ebadmsg = 74

abbrev pub eoverflow : ℕ
eoverflow = 75

abbrev pub enotconn : ℕ
enotconn = 107

abbrev pub ealready : ℕ
ealready = 114

-- The first stop counts.
abbrev pub stop_at : Progress → Progress → Progress
stop_at running why = why
stop_at failed_assert why = failed_assert
stop_at out_of_fuel why = out_of_fuel

abbrev pub stop : Progress → Sys → Sys
stop why s = record s { progress = stop_at s.progress why }

-- `assert(condition)`: a failure ends the process, so what the model does after it stands for nothing.
unfoldable pub check : Bool → Sys → Sys
check condition s = if condition then s else stop failed_assert s

abbrev pub set_errno : ℕ → Sys → Sys
set_errno e s = record s { errno = e }

unfoldable pub after_answer : Answer → Call → St Sys (Option ℕ)
after_answer (returned n) c s = (some n, record s { trace = c ∷ s.trace })
after_answer (failed e) c s = (none, record s { trace = c ∷ s.trace; errno = e })

-- A call; `none` is the return of -1.
unfoldable pub syscall : Call → St Sys (Option ℕ)
syscall c s = after_answer (s.kernel.answer s.trace c) c s

-- `do r = call(...) while (r == -1 && errno == EINTR)`
unfoldable pub retry : ℕ → Call → St Sys (Option ℕ)
unfolding syscall
retry zero c s = (none, stop out_of_fuel s)
retry (suc fuel) c s = elim (syscall c s).0 [
  | some n ↦ (some n, (syscall c s).1)
  | none ↦ elim ((syscall c s).1.errno == eintr) [
    | true ↦ retry fuel c (syscall c s).1
    | false ↦ (none, (syscall c s).1)
  ]
]

-- How often a call is made again before the model gives up on a kernel that always interrupts it.
abbrev pub retries : ℕ
retries = 64

-- A bit of a mask.
abbrev pub has_bit : ℕ → ℕ → Bool
has_bit mask bit = mask / bit % 2 == 1

-- POLLIN, POLLOUT, POLLERR, POLLHUP
abbrev pub pollin : ℕ
pollin = 1

abbrev pub pollout : ℕ
pollout = 4

abbrev pub pollerr : ℕ
pollerr = 8

abbrev pub pollhup : ℕ
pollhup = 16
