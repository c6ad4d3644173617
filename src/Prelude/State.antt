-- ===== src/Prelude/State.antt =====
-- The state monad in which the stateful functions are written.
use mathlib.Core.Path.{◌≡◌, refl, subst}
use mathlib.Core.Logic.{◌⊎◌, inl, inr, ◌≢◌}

abbrev pub St : Type 0 → Type 0 → Type 0
St S A = S → A × S

module _ {S : Type 0} where
  abbrev pub pure : {A : Type 0} → A → St S A
  pure a s = (a, s)

  infixl 5 ◌>>=◌ ◌>>◌
  abbrev pub ◌>>=◌ : {A B : Type 0} → St S A → (A → St S B) → St S B
  ◌>>=◌ m f s = f (m s).0 (m s).1

  abbrev pub ◌>>◌ : {A B : Type 0} → St S A → St S B → St S B
  ◌>>◌ m k s = k (m s).1

  abbrev pub get : St S S
  get s = (s, s)

  abbrev pub modify : (S → S) → St S (Unit {0})
  modify f s = (tt, f s)

-- A function that returns 0 or -1.
pub data Status : Type 0 where
  ok fail : Status

pub Status-cases : (r : Status) → (r ≡ ok) ⊎ (r ≡ fail)
Status-cases ok = inl refl
Status-cases fail = inr refl

pub Status_ind {ℓ κ} :
    {A : Type ℓ} (P : A → Type κ) (r : Status) {x y : A}
    → (r ≡ ok → P x)
    → (r ≡ fail → P y)
    → P (elim r [ ok ↦ x | fail ↦ y ])
Status_ind P ok f g = f refl
Status_ind P fail f g = g refl

pub fail-ne_ok : fail ≢ ok
fail-ne_ok e = subst (λ (r : Status). elim r [ ok ↦ ⊥ | fail ↦ Unit {0} ]) e tt
