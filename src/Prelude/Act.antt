-- ===== src/Prelude/Act.antt =====
-- Code that may raise, with and without a state. What was written before an exception stays
-- written, so the state comes back beside the exception too.
use mathlib.Core.Path.{◌≡◌, refl}
use mathlib.Core.Logic.{◌⊎◌, inl, inr}
use mathlib.Core.Option.{Option, none, some}

-- The result of a call: a value, or an exception.
pub data Outcome (A : Type 0) : Type 0 where
  done : A → Outcome A
  raised : Outcome A

pub Outcome-cases : {A : Type 0} (o : Outcome A) → (o ≡ raised) ⊎ ((a : A) × (o ≡ done a))
Outcome-cases (done a) = inr (a, refl)
Outcome-cases raised = inl refl

abbrev pub Act : Type 0 → Type 0 → Type 0
Act S A = S → Outcome A × S

module _ {S A B : Type 0} where
  abbrev pub continue : Outcome A → (A → Act S B) → Act S B
  continue (done a) f s = f a s
  continue raised f s = (raised, s)

  infixl 10 ◌>>=◌ ◌>>◌
  abbrev pub ◌>>=◌ : Act S A → (A → Act S B) → Act S B
  ◌>>=◌ m f s = let (r, s') = m s in continue r f s'

  abbrev pub ◌>>◌ : Act S A → Act S B → Act S B
  m >> n = m >>= λ _. n

module _ {S A : Type 0} where
  abbrev pub pure : A → Act S A
  pure a s = (done a, s)

  abbrev pub gets : (S → A) → Act S A
  gets f s = (done (f s), s)

  abbrev pub lift_option : Option A → Act S A
  lift_option none s = (raised, s)
  lift_option (some a) s = (done a, s)

abbrev pub modify : {S : Type 0} → (S → S) → Act S (Unit {0})
modify f s = (done tt, f s)

abbrev pub bind_option : {A B : Type 0} → Option A → (A → Option B) → Option B
bind_option none f = none
bind_option (some a) f = f a
