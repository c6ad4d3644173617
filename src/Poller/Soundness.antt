-- ===== src/Poller/Soundness.antt =====
-- seatd/poller.c: the invariant of the poller, through all its functions and those that it calls.
use mathlib.Core.Option.{none-ne-some}
use dde_seatd.Prelude.{
  ℕ, ◌+◌, ◌%◌, ◌^◌, ◌≤◌, ◌<◌, ◌≡◌, refl, sym, ap, ap₂, subst, ◌∙◌, List, [], ◌∷◌, Option, none,
  some, Bool, true, false, ◌==◌, if◌then◌else◌, length, if_ind, Option_ind, ==_iff, fun_ext,
  Bool-cases, inl, inr, arith, length-set,
}
use dde_seatd.Kernel.{calloc, syscall}
use dde_seatd.Daemon.{Ptr, update}
use dde_seatd.Protocol.{has}
use dde_seatd.Protocol.Inv.{Distinct}
use dde_seatd.Poller.{
  FdSource, Poller, Loop, poller_add_fd, event_source_fd_destroy, event_source_fd_update,
}
use dde_seatd.Poller.Polling.{remove_killed, place_all, killed_fd, place_pipe, fill}
use dde_seatd.Poller.Regenerate.{
  live, Counted, InRange, Places, fill-Places, remove_killed-gone, remove_killed-here,
}

pub record Sound (p : Poller) : Type 0 where
  pub counted : Counted p
  pub small : p.fd_event_sources < 2 ^ 64
  pub in_range : InRange p

-- Only the sources of the list count.
live-cong :
    (k k' : Ptr → Bool) (qs : List Ptr)
    → ((x : Ptr) → has x qs ≡ true → k x ≡ k' x)
    → live k qs ≡ live k' qs
live-cong k k' [] h = refl
live-cong k k' (q ∷ qs) h =
    ap₂ (λ (b : Bool) n. if b then n else n + 1) (h q (ground arith))
      (live-cong k k' qs (λ x e. h x (ground (arith, e))))

-- One source less.
live-killed :
    (k k' : Ptr → Bool) (q : Ptr) (qs : List Ptr)
    → Distinct qs
    → has q qs ≡ true
    → k q ≡ false
    → k' q ≡ true
    → ((x : Ptr) → (q == x) ≡ false → k' x ≡ k x)
    → live k' qs + 1 ≡ live k qs
live-killed k k' q [] d h a b c = absurd (ground (arith, h))
live-killed k k' q (x ∷ qs) d h a b c = elim (Bool-cases (q == x)) [
  | inl e ↦
      let same : q ≡ x = (==_iff q x).0 e in
      ap₂ (λ (z : Bool) n. (if z then n else n + 1) + 1) (ap k' (sym same) ∙ b)
        (live-cong k' k qs (λ y m. c y (other y m same)))
      ∙ ap (λ (z : Bool). if z then live k qs else live k qs + 1) (sym a ∙ ap k same)
  | inr e ↦ step (k x) (k' x) (c x e) (live-killed k k' q qs d.1 (ground (arith, h, e)) a b c)
]
  where
    other : (y : Ptr) → has y qs ≡ true → q ≡ x → (q == y) ≡ false
    other y m same = ground (arith, m, d.0, same)

    step :
        (z z' : Bool)
        → z' ≡ z
        → live k' qs + 1 ≡ live k qs
        → (if z' then live k' qs else live k' qs + 1) + 1 ≡ (if z then live k qs else live k qs + 1)
    step z z' e h = ap (λ (y : Bool). (if y then live k' qs else live k' qs + 1) + 1) e ∙ by z h
      where
        by :
            (z : Bool)
            → live k' qs + 1 ≡ live k qs
            → (if z then live k' qs else live k' qs + 1) + 1
              ≡ (if z then live k qs else live k qs + 1)
        by true h = h
        by false h = ap (λ n. n + 1) h

update-other :
    {A : Type 0} (f : Ptr → A) (q : Ptr) (v : A) (x : Ptr) → (q == x) ≡ false → update f q v x ≡ f x
update-other f q v x e = ap (λ (b : Bool). if b then v else f x) e

update_self : {A : Type 0} (f : Ptr → A) (q : Ptr) (v : A) → update f q v q ≡ v
update_self f q v = ap (λ (b : Bool). if b then v else f q) ((==_iff q q).1 refl)

-- A change that keeps a component of the value.
update-keeps :
    {A B : Type 0} (g : A → B) (f : Ptr → A) (q : Ptr) (v : A) (x : Ptr)
    → g v ≡ g (f q)
    → g (update f q v x) ≡ g (f x)
update-keeps g f q v x h =
    if_ind (λ y. g y ≡ g (f x)) (q == x) (λ e. h ∙ ap (λ y. g (f y)) ((==_iff q x).0 e)) (λ e. refl)

module _ {W : Type 0} where
  pub update-Sound :
      (q : Ptr) (mask : ℕ) (l : Loop W)
      → Sound l.poller
      → Sound (event_source_fd_update q mask l).poller
  unfolding event_source_fd_update
  update-Sound q mask l s = record {
    counted = record {
      distinct = s.counted.distinct;
      count =
          s.counted.count
          ∙ ap (λ n. 1 + n)
              (live-cong _ _ l.poller.fds (λ x e.
                sym (update-keeps (λ (b : FdSource). b.killed) l.poller.fd_source q _ x refl)));
    };
    small = s.small;
    in_range = λ x i e.
        s.in_range x i
          (sym (update-keeps (λ (b : FdSource). b.pollfd_idx) l.poller.fd_source q _ x refl) ∙ e);
  }

  pub destroy-Sound :
      (q : Ptr) (l : Loop W)
      → has q l.poller.fds ≡ true
      → (l.poller.fd_source q).killed ≡ false
      → Sound l.poller
      → Sound (event_source_fd_destroy q l).poller
  unfolding event_source_fd_destroy
  destroy-Sound q l h a s = record {
    counted = record {
      distinct = s.counted.distinct;
      count = omega (arith, fewer, s.counted.count, s.small);
    };
    small = omega arith;
    in_range = λ x i e.
        s.in_range x i
          (sym (update-keeps (λ (b : FdSource). b.pollfd_idx) l.poller.fd_source q _ x refl) ∙ e);
  }
    where
      dead : FdSource
      dead = record (l.poller.fd_source q) { killed = true }

      fewer :
          live (λ x. (update l.poller.fd_source q dead x).killed) l.poller.fds + 1
          ≡ live (λ x. (l.poller.fd_source x).killed) l.poller.fds
      fewer =
          live-killed (λ x. (l.poller.fd_source x).killed)
            (λ x. (update l.poller.fd_source q dead x).killed) q l.poller.fds s.counted.distinct h a
            (ap (λ (b : FdSource). b.killed) (update_self l.poller.fd_source q dead))
            (λ x e. ap (λ (b : FdSource). b.killed) (update-other l.poller.fd_source q dead x e))

  -- The new pointer is on no list, and there is room for one more in `fd_event_sources`.
  pub add-Sound :
      (fd mask : ℕ) (l : Loop W)
      → ((q : Ptr) → (poller_add_fd fd mask l).0 ≡ some q → has q l.poller.fds ≡ false)
      → l.poller.fd_event_sources + 1 < 2 ^ 64
      → Sound l.poller
      → Sound (poller_add_fd fd mask l).1.poller
  unfolding poller_add_fd
  add-Sound fd mask l fresh h s =
      Option_ind Goal (syscall calloc l.sys).0 (λ e f. s) (λ q e f. added-Sound q (f q refl)) fresh
    where
      added : Ptr → Poller
      added q = record l.poller {
        fd_source =
            update l.poller.fd_source q
              (record { fd = fd; mask = mask; killed = false; pollfd_idx = none });
        fd_event_sources = (l.poller.fd_event_sources + 1) % 2 ^ 64;
        dirty = true;
        fds = q ∷ l.poller.fds;
      }

      added-Sound : (q : Ptr) → has q l.poller.fds ≡ false → Sound (added q)
      added-Sound q n = record {
        counted = record {
          distinct = (n, s.counted.distinct);
          count =
              let here : live (λ x. ((added q).fd_source x).killed) (q ∷ l.poller.fds)
                  ≡ live (λ x. (l.poller.fd_source x).killed) l.poller.fds + 1 =
                ap₂ (λ (b : Bool) n. if b then n else n + 1)
                  (ap (λ (b : FdSource). b.killed) (update_self l.poller.fd_source q _))
                  (live-cong _ _ l.poller.fds λ x m.
                    ap (λ (b : FdSource). b.killed)
                      (update-other l.poller.fd_source q _ x (ground (arith, n, m)))) in
              omega (arith, s.counted.count, h, here);
        };
        small = omega arith;
        in_range = λ x i.
            if_ind (λ (b : FdSource). b.pollfd_idx ≡ some i → i < length l.poller.pollfds) (q == x)
              (λ t f. absurd (none-ne-some i f)) (λ t. s.in_range x i);
      }

      Goal : Option Ptr × Loop W → Type 0
      Goal r = ((q : Ptr) → r.0 ≡ some q → has q l.poller.fds ≡ false) → Sound r.1.poller

live-remove_killed : (k : Ptr → Bool) (qs : List Ptr) → live k (remove_killed k qs) ≡ live k qs
unfolding remove_killed
live-remove_killed k [] = refl
live-remove_killed k (q ∷ qs) = elim (Bool-cases (k q)) [
  | inl e ↦
      let gone = remove_killed-gone k q qs e in
      ap (live k) gone.0 ∙ live-remove_killed k qs ∙ sym gone.1
  | inr e ↦
      let here = remove_killed-here k q qs e in
      ap (live k) here.0
      ∙ ap₂ (λ (b : Bool) n. if b then n else n + 1) e (live-remove_killed k qs)
      ∙ sym here.1
]

has-remove_killed :
    (k : Ptr → Bool) (x : Ptr) (qs : List Ptr)
    → has x qs ≡ false
    → has x (remove_killed k qs) ≡ false
unfolding remove_killed
has-remove_killed k x [] h = refl
has-remove_killed k x (q ∷ qs) h =
    if_ind (λ ys. has x ys ≡ false) (k q) (λ e. has-remove_killed k x qs (ground (arith, h)))
      (λ e. let rest = has-remove_killed k x qs (ground (arith, h)) in ground (arith, h, rest))

remove_killed-Distinct :
    (k : Ptr → Bool) (qs : List Ptr) → Distinct qs → Distinct (remove_killed k qs)
unfolding remove_killed
remove_killed-Distinct k [] h = tt
remove_killed-Distinct k (q ∷ qs) h =
    if_ind Distinct (k q) (λ e. remove_killed-Distinct k qs h.1)
      (λ e. (has-remove_killed k q qs h.0, remove_killed-Distinct k qs h.1))

module _ {W : Type 0} where
  pub fill-Sound :
      (l : Loop W)
      → l.poller.fd_event_sources ≤ length l.poller.pollfds
      → Sound l.poller
      → Sound (fill l).poller
  unfolding fill
  fill-Sound l room s = record {
    counted = record {
      distinct =
          remove_killed-Distinct (killed_fd x.1) x.1.poller.fds
            (subst Distinct (sym places.spares.fds) s.counted.distinct);
      count =
          places.spares.count
          ∙ s.counted.count
          ∙ ap₂ (λ k qs. 1 + live k qs) (sym (fun_ext places.spares.killed)) (sym places.spares.fds)
          ∙ ap (λ n. 1 + n) (sym (live-remove_killed (killed_fd x.1) x.1.poller.fds));
    };
    small = subst (λ n. n < 2 ^ 64) (sym places.spares.count) s.small;
    in_range =
        places.spares.ranges
          λ q i e. subst (λ n. i < n) (sym (length-set l.poller.pollfds 0 _)) (s.in_range q i e);
  }
    where
      x : ℕ × Loop W
      x = place_all l.poller.fds 1 (place_pipe l)

      places : Places l.poller.fds 1 (place_pipe l) x
      places = fill-Places l s.counted room
