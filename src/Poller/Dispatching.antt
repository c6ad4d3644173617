-- ===== src/Poller/Dispatching.antt =====
-- seatd/poller.c: which functions `dispatch` calls, and what becomes of signals.
use dde_seatd.Prelude.{
  ℕ, ◌<◌, ◌≡◌, refl, sym, ap, ◌∙◌, List, [], ◌∷◌, Option, none, some, Bool, true, false, ltb, ◌==◌,
  ◌&&◌, ◌||◌, not, if◌then◌else◌, length, get_or, if_ind, ==_iff, Bool-cases, inl, inr, arith,
}
use dde_seatd.Kernel.{check, has_bit, pollin}
use dde_seatd.Daemon.{Ptr, update}
use dde_seatd.Protocol.{has}
use dde_seatd.Poller.{
  SignalSource, Poller, Loop, set_poller, touch, count_sources, event_source_signal_destroy,
}
use dde_seatd.Poller.Polling.{
  no_pollfd, drain, dispatch_signals, dispatch_fd, dispatch_fds, dispatch,
}

count_sources-positive :
    (p : Poller) (q : Ptr) (qs : List Ptr)
    → has q qs ≡ true
    → (p.signal_source q).killed ≡ false
    → 0 < count_sources p (p.signal_source q).signal qs
unfolding count_sources
count_sources-positive p q [] h a = absurd (ground (arith, h))
count_sources-positive p q (x ∷ qs) h a =
    if_ind (λ n. 0 < n) (counts x) (λ e. omega arith)
      λ e. elim (Bool-cases (x == q)) [
        | inl s ↦ absurd (ground (arith, e, ap counts ((==_iff x q).0 s), a))
        | inr n ↦ count_sources-positive p q qs (ground (arith, h, n)) a
      ]
  where
    counts : Ptr → Bool
    counts y =
        ((p.signal_source y).signal == (p.signal_source q).signal) && not (p.signal_source y).killed

module _ {W : Type 0} where
  -- Functions that agree wherever the source is not killed.
  abbrev pub AgreeOnFds : (f g : Ptr → ℕ → ℕ → Loop W → Loop W) → Type 0
  AgreeOnFds f g =
      (q : Ptr) (fd mask : ℕ) (l : Loop W)
      → (l.poller.fd_source q).killed ≡ false
      → f q fd mask l ≡ g q fd mask l

  -- Functions that agree wherever the signal is raised and the source is not killed.
  abbrev pub AgreeOnSignals : (f g : Ptr → ℕ → Loop W → Loop W) → Type 0
  AgreeOnSignals f g =
      (q : Ptr) (signal : ℕ) (l : Loop W)
      → (l.poller.signal_source q).killed ≡ false
      → (l.poller.signal_source q).raised ≡ true
      → f q signal l ≡ g q signal l

  dispatch_fd-agree :
      (f g : Ptr → ℕ → ℕ → Loop W → Loop W) (q : Ptr) (idx : ℕ) (l : Loop W)
      → AgreeOnFds f g
      → (l.poller.fd_source q).killed ≡ false
      → dispatch_fd f q idx l ≡ dispatch_fd g q idx l
  unfolding dispatch_fd
  dispatch_fd-agree f g q idx l h k =
      ap (λ x. if (get_or l.poller.pollfds idx no_pollfd).revents == 0 then checked else x)
        (h q _ _ checked k)
    where
      checked : Loop W
      checked = touch (check (ltb idx (length l.poller.pollfds))) l

  dispatch_fds-agree :
      (f g : Ptr → ℕ → ℕ → Loop W → Loop W) (qs : List Ptr) (l : Loop W)
      → AgreeOnFds f g
      → dispatch_fds f qs l ≡ dispatch_fds g qs l
  unfolding dispatch_fds
  dispatch_fds-agree f g [] l h = refl
  dispatch_fds-agree f g (q ∷ qs) l h =
      dispatch_fds-agree f g qs _ h
      ∙ ap (dispatch_fds g qs) (by_place (l.poller.fd_source q).pollfd_idx)
    where
      by_place :
          (r : Option ℕ)
          → elim r as (λ y. Loop W) [
            | none ↦ l
            | some idx ↦ if (l.poller.fd_source q).killed then l else dispatch_fd f q idx l
          ]
            ≡ elim r as (λ y. Loop W) [
              | none ↦ l
              | some idx ↦ if (l.poller.fd_source q).killed then l else dispatch_fd g q idx l
            ]
      by_place none = refl
      by_place (some idx) = elim (Bool-cases (l.poller.fd_source q).killed) [
        | inl e ↦
            ap (λ (b : Bool). if b then l else dispatch_fd f q idx l) e
            ∙ sym (ap (λ (b : Bool). if b then l else dispatch_fd g q idx l) e)
        | inr e ↦
            ap (λ x. if (l.poller.fd_source q).killed then l else x)
              (dispatch_fd-agree f g q idx l h e)
      ]

  dispatch_signals-agree :
      (f g : Ptr → ℕ → Loop W → Loop W) (qs : List Ptr) (l : Loop W)
      → AgreeOnSignals f g
      → dispatch_signals f qs l ≡ dispatch_signals g qs l
  unfolding dispatch_signals
  dispatch_signals-agree f g [] l h = refl
  dispatch_signals-agree f g (q ∷ qs) l h =
      dispatch_signals-agree f g qs _ h ∙ ap (dispatch_signals g qs) one
    where
      after : Loop W → Loop W
      after x =
          set_poller
            (record x.poller {
              signal_source =
                  update x.poller.signal_source q
                    (record (x.poller.signal_source q) { raised = false });
            })
            x

      skips : Bool
      skips = not (l.poller.signal_source q).raised || (l.poller.signal_source q).killed

      one :
          (if skips then l else after (f q (l.poller.signal_source q).signal l))
          ≡ (if skips then l else after (g q (l.poller.signal_source q).signal l))
      one = elim (Bool-cases skips) [
        | inl e ↦
            ap (λ (b : Bool). if b then l else after (f q (l.poller.signal_source q).signal l)) e
            ∙ sym (
                ap (λ (b : Bool). if b then l else after (g q (l.poller.signal_source q).signal l))
                  e)
        | inr e ↦
            ap (λ x. if skips then l else after x)
              (h q (l.poller.signal_source q).signal l (ground (arith, e)) (ground (arith, e)))
      ]

  -- `dispatch` depends on the functions of the sources only where the source is not killed at the
  -- moment of the call, and for a signal where it is raised: with functions that agree there it
  -- does the same.
  pub dispatch-agree :
      (rounds : ℕ) (on_signal on_signal' : Ptr → ℕ → Loop W → Loop W)
      (on_fd on_fd' : Ptr → ℕ → ℕ → Loop W → Loop W) (l : Loop W)
      → AgreeOnSignals on_signal on_signal'
      → AgreeOnFds on_fd on_fd'
      → dispatch rounds on_signal on_fd l ≡ dispatch rounds on_signal' on_fd' l
  unfolding dispatch
  dispatch-agree rounds on_signal on_signal' on_fd on_fd' l hs hf =
      ap (λ x. after (if signalled then x else l))
        (dispatch_signals-agree on_signal on_signal' (drain rounds l).poller.signals
          (drain rounds l) hs)
      ∙ dispatch_fds-agree on_fd on_fd' called.poller.fds called hf
    where
      signalled : Bool
      signalled = has_bit (get_or l.poller.pollfds 0 no_pollfd).revents pollin

      called : Loop W
      called =
          if signalled
          then dispatch_signals on_signal' (drain rounds l).poller.signals (drain rounds l)
          else l

      after : Loop W → Loop W
      after l₁ = dispatch_fds on_fd l₁.poller.fds l₁

  -- Destroying a signal's source that is on the list and not killed makes no call of the kernel,
  -- not even for the last source of its signal: the signal keeps its handler.
  pub signal_destroy-disposition :
      (q : Ptr) (l : Loop W)
      → has q l.poller.signals ≡ true
      → (l.poller.signal_source q).killed ≡ false
      → (event_source_signal_destroy q l).sys ≡ l.sys
  unfolding event_source_signal_destroy
  signal_destroy-disposition q l h a =
      if_ind (λ (l₁ : Loop W). l₁.sys ≡ l.sys)
        (count_sources l.poller (l.poller.signal_source q).signal l.poller.signals == 0)
        (λ e. absurd (ground (arith, e, count_sources-positive l.poller q l.poller.signals h a)))
        (λ e. refl)

  -- After the function of a raised source that is not killed has run, the source is not raised,
  -- whatever the function did and even if the signal arrived while it ran.
  pub dispatch_signals-lowers :
      (func : Ptr → ℕ → Loop W → Loop W) (q : Ptr) (l : Loop W)
      → (l.poller.signal_source q).raised ≡ true
      → (l.poller.signal_source q).killed ≡ false
      → ((dispatch_signals func (q ∷ []) l).poller.signal_source q).raised ≡ false
  unfolding dispatch_signals
  dispatch_signals-lowers func q l r k =
      if_ind (λ (x : Loop W). (x.poller.signal_source q).raised ≡ false)
        (not (l.poller.signal_source q).raised || (l.poller.signal_source q).killed)
        (λ e. absurd (ground (arith, e, r, k)))
        (λ e.
          if_ind (λ (b : SignalSource). b.raised ≡ false) (q == q) (λ t. refl)
            (λ f. absurd (ground arith)))
