-- ===== src/Base/Action.antt =====
-- Operations of the program that read and write a shared state and may return an error. What an
-- operation has written before it returns the error stays written, so the state comes back too.
use mathlib.Core.Path.{◌≡◌, refl, ap, ◌∙◌}
use mathlib.Core.Logic.{◌⊎◌, inl, inr}
use mathlib.Core.Bool.{Bool, true, false}

pub data Result {ℓ κ} (E : Type ℓ) (A : Type κ) : Type (ℓ ⊔ κ) where
  ok : A → Result E A
  err : E → Result E A

abbrev pub Action : Type 0 → Type 0 → Type 0 → Type 0
Action E S A = S → Result E A × S

module _ {E S A : Type 0} where
  abbrev pub pure : A → Action E S A
  pure a s = (ok a, s)

  abbrev pub fail : E → Action E S A
  fail e s = (err e, s)

  abbrev pub lift : Result E A → Action E S A
  lift r s = (r, s)

  abbrev pub gets : (S → A) → Action E S A
  gets f s = (ok (f s), s)

module _ {E S : Type 0} where
  abbrev pub modify : (S → S) → Action E S Unit
  modify f s = (ok tt, f s)

  -- `if !test { return err }`
  abbrev pub guard : Bool → E → Action E S Unit
  guard true e s = (ok tt, s)
  guard false e s = (err e, s)

module _ {E S A B : Type 0} where
  abbrev continue : Result E A → (A → Action E S B) → Action E S B
  continue (ok a) f s = f a s
  continue (err e) f s = (err e, s)

  infixl 5 ◌>>=◌ ◌>>◌
  abbrev pub ◌>>=◌ : Action E S A → (A → Action E S B) → Action E S B
  ◌>>=◌ m f s = let (r, s') = m s in continue r f s'

  abbrev pub ◌>>◌ : Action E S A → Action E S B → Action E S B
  m >> n = m >>= λ _. n

pub Result-cases {ℓ κ} :
    {E : Type ℓ} {A : Type κ} (r : Result E A) → ((a : A) × (r ≡ ok a)) ⊎ ((e : E) × (r ≡ err e))
Result-cases (ok a) = inl (a, refl)
Result-cases (err e) = inr (e, refl)

-- Results with a state that are equal have equal parts.
pub ok_pair :
    {E S A : Type 0} (a b : A) (s t : S)
    → ◌≡◌ {A = Result E A × S} (ok a, s) (ok b, t)
    → (a ≡ b) × (s ≡ t)
ok_pair a b s t e = (cc e, ap (λ r. r.1) e)

pub from_parts : {A S : Type 0} (r : A × S) (a : A) (s : S) → r.0 ≡ a → r.1 ≡ s → r ≡ (a, s)
from_parts r a s p q = ap (λ x. (x, r.1)) p ∙ ap (λ y. (a, y)) q
