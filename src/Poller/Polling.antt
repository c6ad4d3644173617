-- ===== src/Poller/Polling.antt =====
-- seatd/poller.c: `regenerate`, `dispatch` and `poller_poll`.
use dde_seatd.Prelude.{
  ℕ, zero, suc, ◌+◌, ◌-◌, List, [], ◌∷◌, ◌++◌, none, some, Bool, false, ltb, ◌==◌, ◌||◌, not,
  if◌then◌else◌, length, map, take, drop, set, get_or, replicate, St, Status, ok, fail,
}
use dde_seatd.Kernel.{
  realloc, read, poll, syscall, retry, retries, check, stop, out_of_fuel, has_bit, pollin,
}
use dde_seatd.Daemon.{Ptr, update}
use dde_seatd.Poller.{
  FdSource, PollFd, Loop, event_mask_to_poll_mask, poll_mask_to_event_mask, set_poller, call_kernel,
  touch,
}

-- What `realloc` leaves unwritten counts for nothing: `regenerate` writes all that is used.
abbrev pub no_pollfd : PollFd
no_pollfd = record { fd = 0; events = 0; revents = 0 }

abbrev pub pollfd_of : FdSource → PollFd
pollfd_of b = record { fd = b.fd; events = event_mask_to_poll_mask b.mask; revents = 0 }

unfoldable pub remove_killed : (Ptr → Bool) → List Ptr → List Ptr
remove_killed killed [] = []
remove_killed killed (q ∷ qs) =
    let rest = remove_killed killed qs in if killed q then rest else q ∷ rest

-- What `poll` writes to the entries from `i` on.
abbrev pub set_revents : (ℕ → ℕ) → ℕ → List PollFd → List PollFd
set_revents revents i [] = []
set_revents revents i (e ∷ es) = record e { revents = revents i } ∷ set_revents revents (i + 1) es

abbrev pub asked : PollFd → ℕ × ℕ
asked e = (e.fd, e.events)

module _ {W : Type 0} where
  -- The growth of the array.
  unfoldable pub reserve : St (Loop W) Status
  reserve l =
      let p = l.poller in
      let (r, l₁) = call_kernel (syscall (realloc p.fd_event_sources)) l in
      let more = replicate (p.fd_event_sources - length p.pollfds) no_pollfd in
      if ltb (length p.pollfds) p.fd_event_sources
      then elim r [
        | none ↦ (fail, l₁)
        | some n ↦ (ok, set_poller (record l₁.poller { pollfds = p.pollfds ++ more }) l₁)
      ]
      else (ok, l)

  -- The descriptor of one source.
  unfoldable pub place : Ptr → ℕ → Loop W → Loop W
  place q idx l =
      let p = l.poller in
      let b = p.fd_source q in
      touch (check (ltb idx (length p.pollfds))) (
        set_poller
          (record p {
            fd_source = update p.fd_source q (record b { pollfd_idx = some idx });
            pollfds = set p.pollfds idx (pollfd_of b);
          })
          l)

  -- The loop over `fds` from `idx` on; the sources that are killed go. The result is the next `idx`.
  unfoldable pub place_all : List Ptr → ℕ → St (Loop W) ℕ
  unfolding place
  place_all [] idx l = (idx, l)
  place_all (q ∷ qs) idx l =
      let skipped = place_all qs idx l in
      let placed = place_all qs (idx + 1) (place q idx l) in
      if (l.poller.fd_source q).killed then skipped else placed

  abbrev pub killed_fd : Loop W → Ptr → Bool
  killed_fd l q = (l.poller.fd_source q).killed

  abbrev pub killed_signal : Loop W → Ptr → Bool
  killed_signal l q = (l.poller.signal_source q).killed

  -- `pollfds[0]` is the pipe's.
  abbrev pub place_pipe : Loop W → Loop W
  place_pipe l =
      let pipe : PollFd = record { fd = l.poller.signal_fd_0; events = pollin; revents = 0 } in
      set_poller (record l.poller { pollfds = set l.poller.pollfds 0 pipe }) l

  -- All that `regenerate` does once the array is large enough.
  unfoldable pub fill : Loop W → Loop W
  unfolding place_all remove_killed
  fill l =
      let (idx, l₁) = place_all l.poller.fds 1 (place_pipe l) in
      let p = l₁.poller in
      set_poller
        (record p {
          fds = remove_killed (killed_fd l₁) p.fds;
          signals = remove_killed (killed_signal l₁) p.signals;
        })
        (touch (check (idx == p.fd_event_sources)) l₁)

  unfoldable pub regenerate : St (Loop W) Status
  unfolding reserve fill
  regenerate l = let (r, l₁) = reserve l in elim r [ fail ↦ (fail, l₁) | ok ↦ (ok, fill l₁) ]

  -- `read` until there is nothing left; `rounds` bounds how often.
  unfoldable pub drain : ℕ → Loop W → Loop W
  drain zero l = touch (stop out_of_fuel) l
  drain (suc rounds) l =
      let (r, l₁) = call_kernel (syscall (read l.poller.signal_fd_0)) l in
      elim r [ none ↦ l₁ | some n ↦ drain rounds l₁ ]

  -- The loops of `dispatch` go over the sources that the lists hold when they begin: an insertion is at the
  -- front, and a source that is killed stays on its list until the next `regenerate`.
  unfoldable pub dispatch_signals : (Ptr → ℕ → Loop W → Loop W) → List Ptr → Loop W → Loop W
  dispatch_signals func [] l = l
  dispatch_signals func (q ∷ qs) l =
      let b = l.poller.signal_source q in
      let l₁ = func q b.signal l in
      let lowered = record (l₁.poller.signal_source q) { raised = false } in
      let p = record l₁.poller { signal_source = update l₁.poller.signal_source q lowered } in
      dispatch_signals func qs (if not b.raised || b.killed then l else set_poller p l₁)

  -- A source that has a place in the array; `func` takes the source, its descriptor and the event mask.
  unfoldable pub dispatch_fd : (Ptr → ℕ → ℕ → Loop W → Loop W) → Ptr → ℕ → Loop W → Loop W
  dispatch_fd func q idx l =
      let l₁ = touch (check (ltb idx (length l.poller.pollfds))) l in
      let entry = get_or l.poller.pollfds idx no_pollfd in
      if entry.revents == 0 then l₁ else func q entry.fd (poll_mask_to_event_mask entry.revents) l₁

  unfoldable pub dispatch_fds : (Ptr → ℕ → ℕ → Loop W → Loop W) → List Ptr → Loop W → Loop W
  unfolding dispatch_fd
  dispatch_fds func [] l = l
  dispatch_fds func (q ∷ qs) l =
      let b = l.poller.fd_source q in
      dispatch_fds func qs (elim b.pollfd_idx [
        | none ↦ l
        | some idx ↦ if b.killed then l else dispatch_fd func q idx l
      ])

  unfoldable pub dispatch :
      ℕ → (Ptr → ℕ → Loop W → Loop W) → (Ptr → ℕ → ℕ → Loop W → Loop W) → Loop W → Loop W
  unfolding drain dispatch_signals dispatch_fds
  dispatch rounds on_signal on_fd l =
      let drained = drain rounds l in
      let signalled = has_bit (get_or l.poller.pollfds 0 no_pollfd).revents pollin in
      let l₁ = if signalled then dispatch_signals on_signal drained.poller.signals drained else l in
      dispatch_fds on_fd l₁.poller.fds l₁

  unfoldable pub poller_poll :
      ℕ → (Ptr → ℕ → Loop W → Loop W) → (Ptr → ℕ → ℕ → Loop W → Loop W) → St (Loop W) Status
  unfolding regenerate dispatch
  poller_poll rounds on_signal on_fd l =
      let (r, l₁) = if l.poller.dirty then regenerate l else (ok, l) in
      let p₁ = record l₁.poller { dirty = false } in
      let nfds = p₁.fd_event_sources in
      let (n, l₂) =
        call_kernel (retry retries (poll (map asked (take nfds p₁.pollfds)))) (set_poller p₁ l₁) in
      let p₂ = record l₂.poller {
        pollfds =
            set_revents (l₂.sys.kernel.revents l₂.sys.trace) 0 (take nfds l₂.poller.pollfds)
            ++ drop nfds l₂.poller.pollfds;
      } in
      elim r [
        | fail ↦ (fail, l₁)
        | ok ↦ elim n [
          | none ↦ (fail, l₂)
          | some events ↦ (ok, dispatch rounds on_signal on_fd (set_poller p₂ l₂))
        ]
      ]
