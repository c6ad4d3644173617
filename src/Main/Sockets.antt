-- ===== src/Main/Sockets.antt =====
-- seatd/seatd.c: a socket is set up whole, or closed.
use dde_seatd.Prelude.{
  true, false, ◌+◌, not, ◌&&◌, ◌||◌, if◌then◌else◌, take, length, minus_one, eqb_ℤ, subst,
  fail-ne_ok, ℕ, ◌≡◌, refl, sym, ap, ◌∙◌, ◌⊎◌, inl, inr, List, [], ◌∷◌, ◌++◌, Option, none, some,
  Bool, ℤ, Option_ind, Status, ok, fail,
}
use dde_seatd.Kernel.{
  bind, listen, chmod, chown, Bytes, Call, Answer, returned, failed, Sys, close, socket, syscall,
  after_answer,
}
use dde_seatd.Seat.Vt.{close_fd}
use dde_seatd.Main.{run_calls, setup_calls, open_socket_internal}

trace-after_answer : (a : Answer) (c : Call) (s : Sys) → (after_answer a c s).1.trace ≡ c ∷ s.trace
unfolding after_answer
trace-after_answer (returned n) c s = refl
trace-after_answer (failed e) c s = refl

trace-syscall : (c : Call) (s : Sys) → (syscall c s).1.trace ≡ c ∷ s.trace
unfolding syscall
trace-syscall c s = trace-after_answer (s.kernel.answer s.trace c) c s

-- The trace after these calls, in this order.
abbrev traced : List Call → List Call → List Call
traced [] t = t
traced (c ∷ cs) t = traced cs (c ∷ t)

append-snoc : (cs : List Call) (c : Call) (t : List Call) → (cs ++ (c ∷ [])) ++ t ≡ cs ++ (c ∷ t)
append-snoc [] c t = refl
append-snoc (d ∷ cs) c t = ap (◌∷◌ d) (append-snoc cs c t)

traced-append : (cs t : List Call) → (later : List Call) × (traced cs t ≡ later ++ t)
traced-append [] t = ([], refl)
traced-append (c ∷ cs) t =
    let (later, e) = traced-append cs (c ∷ t) in
    (later ++ (c ∷ []), e ∙ sym (append-snoc later c t))

-- The trace `whole` up to some call after `t`, which comes out as `t'`.
abbrev pub PartOf : List Call → List Call → List Call → Type 0
PartOf whole t t' =
    (left : List Call) × (last : Call) × (made : List Call) × (whole ≡ left ++ (last ∷ (made ++ t)))
    × (t' ≡ last ∷ (made ++ t))

-- All calls are made, or those up to one that fails.
abbrev Runs : List Call → List Call → Status → List Call → Type 0
Runs cs t r t' = ((r ≡ ok) × (t' ≡ traced cs t)) ⊎ ((r ≡ fail) × PartOf (traced cs t) t t')

extended :
    (c : Call) (cs t : List Call) (r : Status) (t' : List Call)
    → Runs cs (c ∷ t) r t'
    → Runs (c ∷ cs) t r t'
extended c cs t r t' (inl x) = inl x
extended c cs t r t' (inr (e, (left, last, made, p, q))) =
    let snoc : last ∷ (made ++ (c ∷ t)) ≡ last ∷ ((made ++ (c ∷ [])) ++ t) =
      ap (◌∷◌ last) (sym (append-snoc made c t)) in
    inr (e, (left, last, made ++ (c ∷ []), p ∙ ap (λ u. left ++ u) snoc, q ∙ snoc))

run_calls-Runs :
    (cs : List Call) (s : Sys) → Runs cs s.trace (run_calls cs s).0 (run_calls cs s).1.trace
unfolding run_calls
run_calls-Runs [] s = inl (refl, refl)
run_calls-Runs (c ∷ cs) s =
    Option_ind (λ (r : Status × Sys). Runs (c ∷ cs) s.trace r.0 r.1.trace) (syscall c s).0
      (λ e.
        let (left, p) = traced-append cs (c ∷ s.trace) in
        inr (refl, (left, c, [], p, trace-syscall c s)))
      λ n e.
        let rest = run_calls cs (syscall c s).1 in
        extended c cs s.trace rest.0 rest.1.trace (
          subst (λ t. Runs cs t rest.0 rest.1.trace) (trace-syscall c s)
            (run_calls-Runs cs (syscall c s).1))

-- The calls that give the path its mode and its owner: the first if it is asked for, the second if there
-- is a user or a group.
abbrev pub mode_calls : Bool → Bytes → ℕ → List Call
mode_calls true path mode = chmod path mode ∷ []
mode_calls false path mode = []

abbrev pub owner_calls : Bytes → ℤ → ℤ → List Call
owner_calls path uid gid =
    if eqb_ℤ uid minus_one && eqb_ℤ gid minus_one then [] else chown path uid gid ∷ []

-- What is expected of a socket's whole set-up, the newest call first; `t` is what came before.
abbrev pub set_up : Bytes → ℤ → ℤ → Bool → ℕ → ℕ → List Call → List Call
set_up path uid gid chmod_socket mode fd t =
    owner_calls path uid gid
    ++ (mode_calls chmod_socket path mode
        ++ (listen fd ∷ bind fd (take 107 path) (2 + length (take 107 path)) ∷ socket ∷ t))

-- The socket has been set up whole, or none is left open.
abbrev pub OpensSocket : (ℕ → List Call → List Call) → List Call → Option ℕ × Sys → Type 0
OpensSocket whole t r =
    ((fd : ℕ) × (r.0 ≡ some fd) × (r.1.trace ≡ whole fd t))
    ⊎ ((r.0 ≡ none)
        × ((r.1.trace ≡ socket ∷ t)
            ⊎ ((fd : ℕ) × (t' : List Call) × PartOf (whole fd t) (socket ∷ t) t'
                × (r.1.trace ≡ close fd ∷ t'))))

traced-setup_calls :
    (path : Bytes) (uid gid : ℤ) (chmod_socket : Bool) (mode fd : ℕ) (t : List Call)
    → traced (setup_calls path uid gid chmod_socket mode fd) (socket ∷ t)
      ≡ set_up path uid gid chmod_socket mode fd t
traced-setup_calls path uid gid chmod_socket mode fd t =
    by_cases chmod_socket (eqb_ℤ uid minus_one) (eqb_ℤ gid minus_one)
  where
    u : List Call
    u = listen fd ∷ bind fd (take 107 path) (2 + length (take 107 path)) ∷ socket ∷ t

    by_cases :
        (c x y : Bool)
        → traced
            ((if c then chmod path mode ∷ [] else [])
              ++ (if not x || not y then chown path uid gid ∷ [] else []))
            u
          ≡ (if x && y then [] else chown path uid gid ∷ []) ++ (mode_calls c path mode ++ u)
    by_cases true true true = refl
    by_cases true true false = refl
    by_cases true false y = refl
    by_cases false true true = refl
    by_cases false true false = refl
    by_cases false false y = refl

settled :
    (whole : ℕ → List Call → List Call) (t : List Call) (fd : ℕ) (cs : List Call) (r : Status × Sys)
    → traced cs (socket ∷ t) ≡ whole fd t
    → Runs cs (socket ∷ t) r.0 r.1.trace
    → OpensSocket whole t (elim r.0 [ ok ↦ (some fd, r.1) | fail ↦ (none, close_fd fd r.1) ])
settled whole t fd cs (ok, s) w (inl (e, q)) = inl (fd, refl, q ∙ w)
settled whole t fd cs (ok, s) w (inr (e, x)) = absurd (fail-ne_ok (sym e))
settled whole t fd cs (fail, s) w (inl (e, q)) = absurd (fail-ne_ok e)
settled whole t fd cs (fail, s) w (inr (e, (left, last, made, p, q))) =
    inr (refl, inr (fd, s.trace, (left, last, made, sym w ∙ p, q), trace-syscall (close fd) s))

-- Whatever the kernel answers, `open_socket_internal` returns a socket after exactly these calls:
-- `socket`, `bind` to the first 107 bytes of the path with an address of that length and two,
-- `listen`, `chmod` if asked for, `chown` unless user and group are both -1. Or it returns -1,
-- after `socket` alone, or after these calls up to one behind `socket` and then `close` of the
-- socket.
pub open_socket-OpensSocket :
    (path : Bytes) (uid gid : ℤ) (chmod_socket : Bool) (mode : ℕ) (s : Sys)
    → OpensSocket
        (set_up path uid gid chmod_socket mode)
        s.trace
        (open_socket_internal path uid gid chmod_socket mode s)
unfolding open_socket_internal
open_socket-OpensSocket path uid gid chmod_socket mode s =
    Option_ind (OpensSocket (set_up path uid gid chmod_socket mode) s.trace) (syscall socket s).0
      (λ e. inr (refl, inl (trace-syscall socket s)))
      λ fd e.
        let cs = setup_calls path uid gid chmod_socket mode fd in
        let r = run_calls cs (syscall socket s).1 in
        settled (set_up path uid gid chmod_socket mode) s.trace fd cs r
          (traced-setup_calls path uid gid chmod_socket mode fd s.trace)
          (subst (λ t. Runs cs t r.0 r.1.trace) (trace-syscall socket s)
            (run_calls-Runs cs (syscall socket s).1))
