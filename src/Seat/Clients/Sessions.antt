-- ===== src/Seat/Clients/Sessions.antt =====
-- seatd/seat.c: the search for a session number on a seat that is not bound to VTs.
use dde_seatd.Prelude.{
  ℕ, zero, suc, ◌+◌, ◌≤◌, ◌<◌, ◌≡◌, refl, List, [], ◌∷◌, Bool, true, false, inl, inr, leb,
  if◌then◌else◌, Bool-cases, arith, Option, some, ℤ, pos, negsuc, eqb_ℤ, length,
}
use dde_seatd.Daemon.{Ptr, Daemon}
use dde_seatd.Seat.Clients.{has_session, free_session}

abbrev at_least : ℕ → ℤ → Bool
at_least n (pos k) = leb n k
at_least n (negsuc k) = false

-- How many of the clients have a session from `n` on.
abbrev above : Daemon → ℕ → List Ptr → ℕ
above d n [] = 0
above d n (p ∷ ps) =
    let rest = above d n ps in if at_least n (d.client p).session then suc rest else rest

above-length : (d : Daemon) (n : ℕ) (ps : List Ptr) → above d n ps ≤ length ps
above-length d n [] = omega arith
above-length d n (p ∷ ps) = ground (arith, above-length d n ps)

at_least_suc :
    (n : ℕ) (z : ℤ) → at_least (n + 1) z ≡ true → (at_least n z ≡ true) × (eqb_ℤ z (pos n) ≡ false)
at_least_suc n (pos k) h = ground arith
at_least_suc n (negsuc k) h = ground arith

at_least_same : (n : ℕ) (z : ℤ) → eqb_ℤ z (pos n) ≡ true → at_least n z ≡ true
at_least_same n (pos k) h = ground arith
at_least_same n (negsuc k) h = ground arith

above_suc_le : (d : Daemon) (n : ℕ) (ps : List Ptr) → above d (n + 1) ps ≤ above d n ps
above_suc_le d n [] = omega arith
above_suc_le d n (p ∷ ps) = ground (arith, above_suc_le d n ps, at_least_suc n (d.client p).session)

above_suc_lt :
    (d : Daemon) (n : ℕ) (ps : List Ptr)
    → has_session d (pos n) ps ≡ true
    → above d (n + 1) ps < above d n ps
unfolding has_session
above_suc_lt d n [] h = ground arith
above_suc_lt d n (p ∷ ps) h = ground (
  arith,
  above_suc_lt d n ps,
  above_suc_le d n ps,
  at_least_suc n (d.client p).session,
  at_least_same n (d.client p).session,
)

-- What a search finds: a number from the start on that no client of the seat has.
abbrev pub Found : Daemon → ℕ → Option ℕ → Type 0
Found d start o =
    (n : ℕ) × (o ≡ some n) × (start ≤ n) × (has_session d (pos n) d.seat.clients ≡ false)

free_session_enough :
    (fuel : ℕ) (d : Daemon) (start : ℕ)
    → above d start d.seat.clients < fuel
    → Found d start (free_session fuel d start)
unfolding free_session
free_session_enough zero d start h = ground arith
free_session_enough (suc fuel) d start h =
    elim (Bool-cases (has_session d (pos start) d.seat.clients)) [
      | inl taken ↦
          let (n, e, l, f) =
            free_session_enough fuel d (start + 1)
              (omega (arith, above_suc_lt d start d.seat.clients taken)) in
          rw taken (n, e, omega arith, f)
      | inr free ↦ rw free (start, refl, omega arith, free)
    ]

-- The search for a session on a seat without VTs ends within a step for each client and one more,
-- with a number that is 1 or more and is no client's session.
pub free_session-Found : (d : Daemon) → Found d 1 (free_session (length d.seat.clients + 1) d 1)
free_session-Found d =
    free_session_enough (length d.seat.clients + 1) d 1
      (omega (arith, above-length d 1 d.seat.clients))
