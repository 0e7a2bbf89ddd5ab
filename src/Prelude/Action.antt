-- ===== src/Prelude/Action.antt =====
-- Code that reads and writes a state and may raise: what was written before a raise stays written.
use mathlib.Core.Path.{◌≡◌, refl}
use mathlib.Core.Bool.{Bool, true, false}
use mathlib.Core.Logic.{◌⊎◌, inl, inr}
use mathlib.Core.Option.{Option, none, some}

pub data Outcome (E A : Type 0) : Type 0 where
  ok : A → Outcome E A
  raised : E → Outcome E A

abbrev pub Action : Type 0 → Type 0 → Type 0 → Type 0
Action E S A = S → Outcome E A × S

module _ {E S : Type 0} where
  abbrev pub pure : {A : Type 0} → A → Action E S A
  pure a s = (ok a, s)

  abbrev pub raise : {A : Type 0} → E → Action E S A
  raise e s = (raised e, s)

  -- Carries on from the state that the first part left.
  abbrev pub continue : {A B : Type 0} → Outcome E A → (A → Action E S B) → Action E S B
  continue (ok a) f s = f a s
  continue (raised e) f s = (raised e, s)

  infixl 5 ◌>>=◌ ◌>>◌
  abbrev pub ◌>>=◌ : {A B : Type 0} → Action E S A → (A → Action E S B) → Action E S B
  ◌>>=◌ m f s = let (r, s') = m s in continue r f s'

  abbrev pub ◌>>◌ : {B : Type 0} → Action E S (Unit {0}) → Action E S B → Action E S B
  m >> k = m >>= λ _. k

  -- `if condition: raise error`
  abbrev pub raise_if : Bool → E → Action E S (Unit {0})
  raise_if true e s = (raised e, s)
  raise_if false e s = (ok tt, s)

  -- `if value is None: raise error`
  abbrev pub require : {A : Type 0} → Option A → E → Action E S A
  require none e s = (raised e, s)
  require (some a) e s = (ok a, s)

  abbrev pub gets : {A : Type 0} → (S → A) → Action E S A
  gets f s = (ok (f s), s)

  abbrev pub modify : (S → S) → Action E S (Unit {0})
  modify f s = (ok tt, f s)

  -- A call that returns a value beside the new state.
  abbrev pub call : {A : Type 0} → (S → A × S) → Action E S A
  call f s = let (a, s') = f s in (ok a, s')

  -- `async with sessions.begin()`: what raises inside is rolled back.
  abbrev pub settle : {A : Type 0} → S → Outcome E A × S → Outcome E A × S
  settle before (ok a, s) = (ok a, s)
  settle before (raised e, s) = (raised e, before)

  abbrev pub atomic : {A : Type 0} → Action E S A → Action E S A
  atomic m s = settle s (m s)

pub Outcome-cases :
    {E A : Type 0} (r : Outcome E A) → ((a : A) × (r ≡ ok a)) ⊎ ((e : E) × (r ≡ raised e))
Outcome-cases (ok a) = inl (a, refl)
Outcome-cases (raised e) = inr (e, refl)
