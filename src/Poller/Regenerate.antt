-- ===== src/Poller/Regenerate.antt =====
-- seatd/poller.c: what `regenerate` makes of the array.
use mathlib.Core.Option.{some-injective}
use dde_seatd.Prelude.{
  fail-ne_ok, ℕ, ◌+◌, ◌-◌, ◌≤◌, ◌<◌, ◌≡◌, refl, sym, ap, ap₂, subst, ◌∙◌, List, [], ◌∷◌, some, Bool,
  true, false, ltb, ◌==◌, if◌then◌else◌, length, set, get_or, replicate, if_ind, Option_ind, ==_iff,
  fun_ext, Bool-cases, inl, inr, arith, length-set, get_or-set_self, get_or-set_ne, length-append,
  length-replicate, Status, ok, fail,
}
use dde_seatd.Kernel.{
  Call, Answer, returned, failed, Sys, check, realloc, syscall, after_answer, pollin,
}
use dde_seatd.Daemon.{Ptr}
use dde_seatd.Protocol.{has}
use dde_seatd.Protocol.Inv.{Distinct}
use dde_seatd.Poller.{FdSource, Poller, Loop}
use dde_seatd.Poller.Polling.{
  no_pollfd, pollfd_of, remove_killed, reserve, place, place_all, killed_fd, place_pipe, fill,
  regenerate,
}

-- The sources of a list that are not killed.
abbrev pub live : (Ptr → Bool) → List Ptr → ℕ
live killed [] = 0
live killed (q ∷ qs) = let rest = live killed qs in if killed q then rest else rest + 1

-- The first source of a list, by whether it is killed.
module _ (killed : Ptr → Bool) (q : Ptr) (qs : List Ptr) where
  pub remove_killed-gone :
      killed q ≡ true
      → (remove_killed killed (q ∷ qs) ≡ remove_killed killed qs)
        × (live killed (q ∷ qs) ≡ live killed qs)
  unfolding remove_killed
  remove_killed-gone e = (
    ap (λ (b : Bool). if b then remove_killed killed qs else q ∷ remove_killed killed qs) e,
    ap (λ (b : Bool). if b then live killed qs else live killed qs + 1) e,
  )

  pub remove_killed-here :
      killed q ≡ false
      → (remove_killed killed (q ∷ qs) ≡ q ∷ remove_killed killed qs)
        × (live killed (q ∷ qs) ≡ live killed qs + 1)
  unfolding remove_killed
  remove_killed-here e = (
    ap (λ (b : Bool). if b then remove_killed killed qs else q ∷ remove_killed killed qs) e,
    ap (λ (b : Bool). if b then live killed qs else live killed qs + 1) e,
  )

length-remove_killed :
    (killed : Ptr → Bool) (qs : List Ptr) → length (remove_killed killed qs) ≡ live killed qs
unfolding remove_killed
length-remove_killed killed [] = refl
length-remove_killed killed (q ∷ qs) = elim (Bool-cases (killed q)) [
  | inl e ↦
      let gone = remove_killed-gone killed q qs e in
      ap length gone.0 ∙ length-remove_killed killed qs ∙ sym gone.1
  | inr e ↦
      let here = remove_killed-here killed q qs e in
      omega (arith, ap length here.0, length-remove_killed killed qs, here.1)
]

-- Each source of a list has its place in the array, from `i` on, and its entry is there.
abbrev pub Placed : Poller → ℕ → List Ptr → Type 0
Placed p i [] = Unit {0}
Placed p i (q ∷ qs) =
    ((p.fd_source q).pollfd_idx ≡ some i)
    × (i < length p.pollfds)
    × (get_or p.pollfds i no_pollfd ≡ pollfd_of (p.fd_source q))
    × Placed p (i + 1) qs

-- The indices are indices of the array.
abbrev pub InRange : Poller → Type 0
InRange p = (q : Ptr) (i : ℕ) → (p.fd_source q).pollfd_idx ≡ some i → i < length p.pollfds

module _ {W : Type 0} where
  -- What a stretch of placing leaves alone: the entries before `i`, the sources outside `qs`, which
  -- sources are killed, and everything but the array and the indices.
  pub record Spares (qs : List Ptr) (i : ℕ) (l l' : Loop W) : Type 0 where
    pub entries :
        (j : ℕ) → j < i → get_or l'.poller.pollfds j no_pollfd ≡ get_or l.poller.pollfds j no_pollfd
    pub sources : (q : Ptr) → has q qs ≡ false → l'.poller.fd_source q ≡ l.poller.fd_source q
    pub killed : (q : Ptr) → (l'.poller.fd_source q).killed ≡ (l.poller.fd_source q).killed
    pub size : length l'.poller.pollfds ≡ length l.poller.pollfds
    pub fds : l'.poller.fds ≡ l.poller.fds
    pub count : l'.poller.fd_event_sources ≡ l.poller.fd_event_sources
    pub progress : l'.sys.progress ≡ l.sys.progress
    pub ranges : InRange l.poller → InRange l'.poller

  Spares-trans :
      {q : Ptr} {qs : List Ptr} {i : ℕ} {l l₁ l₂ : Loop W}
      → Spares (q ∷ qs) i l l₁
      → Spares qs (i + 1) l₁ l₂
      → Spares (q ∷ qs) i l l₂
  Spares-trans {q = q} a b = record {
    entries = λ j k. b.entries j (omega arith) ∙ a.entries j k;
    sources = λ x n. b.sources x (ground (arith, n)) ∙ a.sources x n;
    killed = λ x. b.killed x ∙ a.killed x;
    size = b.size ∙ a.size;
    fds = b.fds ∙ a.fds;
    count = b.count ∙ a.count;
    progress = b.progress ∙ a.progress;
    ranges = λ r. b.ranges (a.ranges r);
  }

  Spares-cons :
      {q : Ptr} {qs : List Ptr} {i : ℕ} {l l' : Loop W} → Spares qs i l l' → Spares (q ∷ qs) i l l'
  Spares-cons a = record {
    entries = a.entries;
    sources = λ x n. a.sources x (ground (arith, n));
    killed = a.killed;
    size = a.size;
    fds = a.fds;
    count = a.count;
    progress = a.progress;
    ranges = a.ranges;
  }

  place-Spares :
      (q : Ptr) (qs : List Ptr) (i : ℕ) (l : Loop W)
      → i < length l.poller.pollfds
      → Spares (q ∷ qs) i l (place q i l)
  unfolding place check
  place-Spares q qs i l h = record {
    entries = λ j k. get_or-set_ne l.poller.pollfds _ no_pollfd (ground arith);
    sources = λ x n.
        if_ind (λ b. b ≡ l.poller.fd_source x) (q == x) (λ e. absurd (ground (arith, n, e)))
          (λ e. refl);
    killed = λ x.
        if_ind (λ (b : FdSource). b.killed ≡ (l.poller.fd_source x).killed) (q == x)
          (λ e. ap (λ y. (l.poller.fd_source y).killed) ((==_iff q x).0 e)) (λ e. refl);
    size = length-set l.poller.pollfds i _;
    fds = refl;
    count = refl;
    progress =
        if_ind (λ (s : Sys). s.progress ≡ l.sys.progress) (ltb i (length l.poller.pollfds))
          (λ e. refl) (λ e. absurd (ground arith));
    ranges = λ r x j.
        if_ind
          (λ (b : FdSource).
            b.pollfd_idx ≡ some j
            → j < length (set l.poller.pollfds i (pollfd_of (l.poller.fd_source q))))
          (q == x)
          (λ t f.
            let same = some-injective i j f in
            omega (arith, same, length-set l.poller.pollfds i (pollfd_of (l.poller.fd_source q))))
          (λ t f.
            omega
              (arith, r x j f, length-set l.poller.pollfds i (pollfd_of (l.poller.fd_source q))));
  }

  place_self :
      (q : Ptr) (i : ℕ) (l : Loop W)
      → (place q i l).poller.fd_source q ≡ record (l.poller.fd_source q) { pollfd_idx = some i }
  unfolding place
  place_self q i l =
      if_ind (λ (b : FdSource). b ≡ record (l.poller.fd_source q) { pollfd_idx = some i }) (q == q)
        (λ e. refl) (λ e. absurd (ground arith))

  place-entry :
      (q : Ptr) (i : ℕ) (l : Loop W)
      → i < length l.poller.pollfds
      → get_or (place q i l).poller.pollfds i no_pollfd ≡ pollfd_of (l.poller.fd_source q)
  unfolding place
  place-entry q i l h = get_or-set_self l.poller.pollfds i _ no_pollfd h

  -- What placing a list comes to.
  pub record Places (qs : List Ptr) (i : ℕ) (l : Loop W) (r : ℕ × Loop W) : Type 0 where
    pub next : r.0 ≡ i + live (killed_fd l) qs
    pub placed : Placed r.1.poller i (remove_killed (killed_fd l) qs)
    pub spares : Spares qs i l r.1

  place_all-Places :
      (qs : List Ptr) (i : ℕ) (l : Loop W)
      → Distinct qs
      → i + live (killed_fd l) qs ≤ length l.poller.pollfds
      → Places qs i l (place_all qs i l)
  unfolding place_all remove_killed
  place_all-Places [] i l d h = record {
    next = omega arith;
    placed = tt;
    spares = record {
      entries = λ j k. refl;
      sources = λ x n. refl;
      killed = λ x. refl;
      size = refl;
      fds = refl;
      count = refl;
      progress = refl;
      ranges = λ r. r;
    };
  }
  place_all-Places (q ∷ qs) i l d h = elim (Bool-cases (killed_fd l q)) [
    | inl e ↦
        let gone = remove_killed-gone (killed_fd l) q qs e in
        let rest = place_all-Places qs i l d.1 (omega (arith, gone.1)) in
        subst (Places (q ∷ qs) i l)
          (sym (
            ap (λ (b : Bool). if b then place_all qs i l else place_all qs (i + 1) (place q i l))
              e))
          (record {
            next = rest.next ∙ ap (λ n. i + n) (sym gone.1);
            placed = subst (Placed (place_all qs i l).1.poller i) (sym gone.0) rest.placed;
            spares = Spares-cons rest.spares;
          })
    | inr e ↦
        let here = remove_killed-here (killed_fd l) q qs e in
        let room : i < length l.poller.pollfds = omega (arith, here.1) in
        let first = place-Spares q qs i l room in
        let same : killed_fd (place q i l) ≡ killed_fd l = fun_ext first.killed in
        let rest = place_all-Places qs (i + 1) (place q i l) d.1 (
          subst (λ k. i + 1 + live k qs ≤ length (place q i l).poller.pollfds) (sym same)
            (omega (arith, here.1, first.size))) in
        subst (Places (q ∷ qs) i l)
          (sym (
            ap (λ (b : Bool). if b then place_all qs i l else place_all qs (i + 1) (place q i l))
              e))
          (record {
            next = rest.next ∙ ap (λ k. i + 1 + live k qs) same ∙ omega (arith, here.1);
            placed = subst (Placed (place_all qs (i + 1) (place q i l)).1.poller i) (sym here.0) (
              ap (λ (b : FdSource). b.pollfd_idx) (rest.spares.sources q d.0 ∙ place_self q i l),
              omega (arith, rest.spares.size, first.size),
              rest.spares.entries i (omega arith)
                  ∙ place-entry q i l room
                  ∙ ap pollfd_of (sym (rest.spares.sources q d.0 ∙ place_self q i l)),
              subst
                  (λ k.
                    Placed (place_all qs (i + 1) (place q i l)).1.poller (i + 1)
                      (remove_killed k qs))
                  same rest.placed,
            );
            spares = Spares-trans first rest.spares;
          })
  ]

Placed-record :
    (p : Poller) (fds signals : List Ptr) (i : ℕ) (qs : List Ptr)
    → Placed p i qs
    → Placed (record p { fds = fds; signals = signals }) i qs
Placed-record p fds signals i [] h = tt
Placed-record p fds signals i (q ∷ qs) h =
    (h.0, h.1, h.2, Placed-record p fds signals (i + 1) qs h.3)

-- The poller between two calls of its functions.
pub record Counted (p : Poller) : Type 0 where
  pub distinct : Distinct p.fds
  pub count : p.fd_event_sources ≡ 1 + live (λ q. (p.fd_source q).killed) p.fds

pub progress-syscall : (c : Call) (s : Sys) → (syscall c s).1.progress ≡ s.progress
unfolding syscall after_answer
progress-syscall c s = by_answer (s.kernel.answer s.trace c)
  where
    by_answer : (a : Answer) → (after_answer a c s).1.progress ≡ s.progress
    by_answer (returned n) = refl
    by_answer (failed e) = refl

module _ {W : Type 0} where
  -- `realloc` finds memory if the array has to grow.
  abbrev pub Reserves : Loop W → Type 0
  Reserves l = (reserve l).0 ≡ ok

  -- After a `reserve` that succeeds, all sources fit.
  pub record Reserved (l l' : Loop W) : Type 0 where
    pub room : l.poller.fd_event_sources ≤ length l'.poller.pollfds
    pub same : l'.poller ≡ record l.poller { pollfds = l'.poller.pollfds }
    pub progress : l'.sys.progress ≡ l.sys.progress

  pub reserve-Reserved : (l : Loop W) → Reserves l → Reserved l (reserve l).1
  unfolding reserve
  reserve-Reserved l h =
      if_ind Goal (ltb (length l.poller.pollfds) l.poller.fd_event_sources)
        (λ e.
          Option_ind Goal (syscall (realloc l.poller.fd_event_sources) l.sys).0
            (λ n f. absurd (fail-ne_ok f))
            λ n r f. record {
              room = omega (
                arith,
                length-append l.poller.pollfds
                    (replicate (l.poller.fd_event_sources - length l.poller.pollfds) no_pollfd),
                length-replicate (l.poller.fd_event_sources - length l.poller.pollfds) no_pollfd,
              );
              same = refl;
              progress = progress-syscall (realloc l.poller.fd_event_sources) l.sys;
            })
        (λ e f. record { room = ground arith; same = refl; progress = refl }) h
    where
      Goal : Status × Loop W → Type 0
      Goal r = r.0 ≡ ok → Reserved l r.1

  -- What `regenerate` is for.
  pub record Regenerated (l l' : Loop W) : Type 0 where
    pub fds : l'.poller.fds ≡ remove_killed (killed_fd l) l.poller.fds
    pub placed : Placed l'.poller 1 l'.poller.fds
    pub pipe :
        get_or l'.poller.pollfds 0 no_pollfd
        ≡ record { fd = l.poller.signal_fd_0; events = pollin; revents = 0 }
    pub count : l'.poller.fd_event_sources ≡ 1 + length l'.poller.fds
    pub progress : l'.sys.progress ≡ l.sys.progress

  -- The array has room for the sources that `fill` places.
  pub fill-Places :
      (l : Loop W)
      → Counted l.poller
      → l.poller.fd_event_sources ≤ length l.poller.pollfds
      → Places l.poller.fds 1 (place_pipe l) (place_all l.poller.fds 1 (place_pipe l))
  fill-Places l c room = place_all-Places l.poller.fds 1 (place_pipe l) c.distinct (
      omega (
        arith,
        c.count,
        length-set l.poller.pollfds 0
            (record { fd = l.poller.signal_fd_0; events = pollin; revents = 0 }),
      ))

  pub fill-Regenerated :
      (l : Loop W)
      → Counted l.poller
      → l.poller.fd_event_sources ≤ length l.poller.pollfds
      → Regenerated l (fill l)
  unfolding fill check
  fill-Regenerated l c room = record {
    fds = kept;
    placed =
        Placed-record x.1.poller (fill l).poller.fds (fill l).poller.signals 1 (fill l).poller.fds
          (subst (Placed x.1.poller 1) (sym kept) places.placed);
    pipe =
        places.spares.entries 0 (omega arith)
        ∙ get_or-set_self l.poller.pollfds 0 _ no_pollfd (omega (arith, c.count));
    count =
        places.spares.count
        ∙ c.count
        ∙ ap (λ n. 1 + n) (sym (ap length kept ∙ length-remove_killed (killed_fd l) l.poller.fds));
    progress =
        if_ind (λ (s : Sys). s.progress ≡ l.sys.progress) (x.0 == x.1.poller.fd_event_sources)
          (λ e. places.spares.progress)
          (λ e. absurd (ground (arith, places.next, places.spares.count, c.count)));
  }
    where
      x : ℕ × Loop W
      x = place_all l.poller.fds 1 (place_pipe l)

      places : Places l.poller.fds 1 (place_pipe l) x
      places = fill-Places l c room

      kept : (fill l).poller.fds ≡ remove_killed (killed_fd l) l.poller.fds
      kept = ap₂ remove_killed (fun_ext places.spares.killed) places.spares.fds

  -- If the sources are distinct, `fd_event_sources` counts those that are not killed and one more,
  -- and the array can grow, then `regenerate` succeeds: exactly the sources that are not killed
  -- stay, in their order; the array holds the pipe, then the descriptor and the mask of each of
  -- them, at the index that the source notes; their number is `fd_event_sources`, and no assertion
  -- fails.
  pub regenerate-Regenerated :
      (l : Loop W)
      → Counted l.poller
      → Reserves l
      → ((regenerate l).0 ≡ ok) × Regenerated l (regenerate l).1
  unfolding regenerate
  regenerate-Regenerated l c h =
      subst
        (λ (r : Status).
          let x : Status × Loop W = elim r [
            | fail ↦ (fail, (reserve l).1)
            | ok ↦ (ok, fill (reserve l).1)
          ] in
          (x.0 ≡ ok) × Regenerated l x.1)
        (sym h)
        (
          refl,
          record {
            fds =
                f.fds
                ∙ ap (λ (p : Poller). remove_killed (λ q. (p.fd_source q).killed) p.fds) grown.same;
            placed = f.placed;
            pipe =
                f.pipe
                ∙ ap (λ (p : Poller). record { fd = p.signal_fd_0; events = pollin; revents = 0 })
                    grown.same;
            count = f.count;
            progress = f.progress ∙ grown.progress;
          },
        )
    where
      grown : Reserved l (reserve l).1
      grown = reserve-Reserved l h

      f : Regenerated (reserve l).1 (fill (reserve l).1)
      f =
          fill-Regenerated (reserve l).1
            (subst Counted (sym grown.same) (record { distinct = c.distinct; count = c.count }))
            (subst (λ (p : Poller). p.fd_event_sources ≤ length (reserve l).1.poller.pollfds)
              (sym grown.same) grown.room)
