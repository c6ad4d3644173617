-- ===== src/Poller.antt =====
-- seatd/poller.c and include/poller.h: the event sources, and the array of descriptors that `poll` takes.
pub mod Polling
pub mod Regenerate
pub mod Soundness
pub mod Safety
pub mod Dispatching
use dde_seatd.Prelude.{
  ℕ, zero, suc, ◌+◌, ◌-◌, ◌*◌, ◌%◌, ◌^◌, List, [], ◌∷◌, ◌++◌, Option, none, some, Bool, true, false,
  ltb, ◌==◌, ◌&&◌, ◌||◌, not, if◌then◌else◌, length, map, take, set, get_or, replicate, St, Status,
  ok, fail,
}
use dde_seatd.Kernel.{
  Sys, pipe, fcntl, calloc, realloc, sigaction, read, write, syscall, set_errno, check, stop,
  out_of_fuel, has_bit, pollin, pollout, pollerr, pollhup,
}
use dde_seatd.Daemon.{Ptr, update, event_readable, event_writable}

-- `struct event_source_fd`; an index of -1 is none. The function and its data are the pointer's.
pub record FdSource : Type 0 where
  pub fd : ℕ
  pub mask : ℕ
  pub killed : Bool
  pub pollfd_idx : Option ℕ

-- `struct event_source_signal`
pub record SignalSource : Type 0 where
  pub signal : ℕ
  pub raised : Bool
  pub killed : Bool

-- `struct pollfd`
pub record PollFd : Type 0 where
  pub fd : ℕ
  pub events : ℕ
  pub revents : ℕ

-- `struct poller`, whose lists are the lists of their sources' pointers; the sources are in the stores.
-- `pollfds_len` is the length of `pollfds`.
pub record Poller : Type 0 where
  pub signals : List Ptr
  pub fds : List Ptr
  pub signal_source : Ptr → SignalSource
  pub fd_source : Ptr → FdSource
  pub signal_fd_0 : ℕ
  pub signal_fd_1 : ℕ
  pub pollfds : List PollFd
  pub fd_event_sources : ℕ
  pub dirty : Bool

-- The poller, what its calls of the kernel touch, whether `global_poller` points to it, and the state of
-- the program whose functions it calls.
pub record Loop (W : Type 0) : Type 0 where
  pub poller : Poller
  pub sys : Sys
  pub installed : Bool
  pub program : W

-- EVENT_ERROR, EVENT_HANGUP
abbrev pub event_error : ℕ
event_error = 8

abbrev pub event_hangup : ℕ
event_hangup = 16

-- `|=` of a bit that is not set yet.
abbrev pub or_bit : Bool → ℕ → ℕ
or_bit true bit = bit
or_bit false bit = 0

unfoldable pub event_mask_to_poll_mask : ℕ → ℕ
event_mask_to_poll_mask event_mask =
    or_bit (has_bit event_mask event_readable) pollin
    + or_bit (has_bit event_mask event_writable) pollout

unfoldable pub poll_mask_to_event_mask : ℕ → ℕ
poll_mask_to_event_mask poll_mask =
    or_bit (has_bit poll_mask pollin) event_readable
    + or_bit (has_bit poll_mask pollout) event_writable
    + or_bit (has_bit poll_mask pollerr) event_error
    + or_bit (has_bit poll_mask pollhup) event_hangup

-- What a successful `poller_init` leaves.
abbrev pub fresh_poller : ℕ × ℕ → Poller → Poller
fresh_poller ends p = record p {
  signals = [];
  fds = [];
  signal_fd_0 = ends.0;
  signal_fd_1 = ends.1;
  pollfds = [];
  fd_event_sources = 1;
  dirty = true;
}

-- The sources of a signal that are not killed.
unfoldable pub count_sources : Poller → ℕ → List Ptr → ℕ
count_sources p signal [] = 0
count_sources p signal (q ∷ qs) =
    let b = p.signal_source q in
    let refcnt = count_sources p signal qs in
    if (b.signal == signal) && not b.killed then refcnt + 1 else refcnt

-- The loop of `signal_handler`.
unfoldable pub raise_sources : ℕ → List Ptr → Poller → Poller
raise_sources sig [] p = p
raise_sources sig (q ∷ qs) p =
    let b = p.signal_source q in
    raise_sources sig qs (
      if b.signal == sig
      then record p { signal_source = update p.signal_source q (record b { raised = true }) }
      else p)

module _ {W : Type 0} where
  abbrev pub set_poller : Poller → Loop W → Loop W
  set_poller p l = record l { poller = p }

  abbrev pub call_kernel : {A : Type 0} → St Sys A → St (Loop W) A
  call_kernel m l = ((m l.sys).0, record l { sys = (m l.sys).1 })

  abbrev pub touch : (Sys → Sys) → Loop W → Loop W
  touch f l = record l { sys = f l.sys }

  unfoldable pub set_nonblock : ℕ → St (Loop W) Status
  set_nonblock fd l =
      let (r, l₁) = call_kernel (syscall (fcntl fd)) l in
      let (q, l₂) = call_kernel (syscall (fcntl fd)) l₁ in
      elim r [ none ↦ (fail, l₁) | some flags ↦ elim q [ none ↦ (fail, l₂) | some n ↦ (ok, l₂) ] ]

  -- `ends` is what `pipe` writes.
  unfoldable pub poller_init : ℕ × ℕ → St (Loop W) Status
  unfolding set_nonblock
  poller_init ends l =
      let (r, l₁) = call_kernel (syscall pipe) (touch (check (not l.installed)) l) in
      let (a, l₂) = set_nonblock ends.0 l₁ in
      let (b, l₃) = set_nonblock ends.1 l₂ in
      elim r [
        | none ↦ (fail, l₁)
        | some n ↦ elim a [
          | fail ↦ (fail, l₂)
          | ok ↦ elim b [
            | fail ↦ (fail, l₃)
            | ok ↦ (ok, record l₃ { poller = fresh_poller ends l₃.poller; installed = true })
          ]
        ]
      ]

  -- The signals go back to SIG_DFL one by one.
  unfoldable pub reset_signals : List ℕ → Loop W → Loop W
  reset_signals [] l = l
  reset_signals (signal ∷ signals) l =
      reset_signals signals (call_kernel (syscall (sigaction signal false)) l).1

  unfoldable pub poller_finish : Loop W → Loop W
  unfolding reset_signals
  poller_finish l =
      let l₁ = reset_signals (map (λ q. (l.poller.signal_source q).signal) l.poller.signals) l in
      record l₁ {
        poller = record l₁.poller { fds = []; signals = []; pollfds = [] };
        installed = false;
      }

  unfoldable pub poller_add_fd : ℕ → ℕ → St (Loop W) (Option Ptr)
  poller_add_fd fd mask l =
      let (r, l₁) = call_kernel (syscall calloc) l in
      let p = l₁.poller in
      elim r [
        | none ↦ (none, l₁)
        | some q ↦
            let source : FdSource = record {
              fd = fd;
              mask = mask;
              killed = false;
              pollfd_idx = none;
            } in
            (
              some q,
              set_poller
                  (record p {
                    fd_source = update p.fd_source q source;
                    fd_event_sources = (p.fd_event_sources + 1) % 2 ^ 64;
                    dirty = true;
                    fds = q ∷ p.fds;
                  })
                  l₁,
            )
      ]

  -- `fd_event_sources` is a `size_t`.
  unfoldable pub event_source_fd_destroy : Ptr → Loop W → Loop W
  event_source_fd_destroy q l =
      let p = l.poller in
      set_poller
        (record p {
          fd_event_sources = (p.fd_event_sources + 2 ^ 64 - 1) % 2 ^ 64;
          dirty = true;
          fd_source = update p.fd_source q (record (p.fd_source q) { killed = true });
        })
        l

  unfoldable pub event_source_fd_update : Ptr → ℕ → Loop W → Loop W
  event_source_fd_update q mask l =
      let p = l.poller in
      set_poller
        (record p {
          fd_source = update p.fd_source q (record (p.fd_source q) { mask = mask });
          dirty = true;
        })
        l

  unfoldable pub poller_add_signal : ℕ → St (Loop W) (Option Ptr)
  poller_add_signal signal l =
      let (r, l₁) = call_kernel (syscall calloc) l in
      let (n, l₂) = call_kernel (syscall (sigaction signal true)) l₁ in
      let p = l₂.poller in
      elim r [
        | none ↦ (none, l₁)
        | some q ↦
            let source : SignalSource = record {
              signal = signal;
              raised = false;
              killed = false;
            } in
            (
              some q,
              set_poller
                  (record p {
                    signal_source = update p.signal_source q source;
                    signals = q ∷ p.signals;
                  })
                  l₂,
            )
      ]

  unfoldable pub event_source_signal_destroy : Ptr → Loop W → Loop W
  unfolding count_sources
  event_source_signal_destroy q l =
      let bps = l.poller.signal_source q in
      let refcnt = count_sources l.poller bps.signal l.poller.signals in
      let l₁ =
        if refcnt == 0 then (call_kernel (syscall (sigaction bps.signal false)) l).1 else l in
      set_poller
        (record l₁.poller {
          dirty = true;
          signal_source =
              update l₁.poller.signal_source q
                (record (l₁.poller.signal_source q) { killed = true });
        })
        l₁

  -- What the process does whenever the signal arrives; it runs between any two steps.
  unfoldable pub signal_handler : ℕ → Loop W → Loop W
  unfolding raise_sources
  signal_handler sig l =
      let l₁ = set_poller (raise_sources sig l.poller.signals l.poller) l in
      let l₂ = (call_kernel (syscall (write l.poller.signal_fd_1)) l₁).1 in
      if l.installed then touch (set_errno l.sys.errno) l₂ else l
