-- ===== src/Prelude/Kept.antt =====
-- What an action leaves as it was, and what holds after it: carried through the parts of a do block.
use auth_core.Prelude.Action.{Action, Outcome, ok, raised, require, raise_if, continue, ◌>>=◌}
use mathlib.Core.Path.{◌≡◌, refl, ◌∙◌}
use mathlib.Core.Bool.{Bool, true, false}
use native.Mathlib.Omega.{arith}
use mathlib.Core.Option.{Option, none, some}

module _ {E S T : Type 0} (view : S → T) where
  -- The action leaves a part of the state as it was, whatever its outcome.
  abbrev pub Keeps : {A : Type 0} → Action E S A → Type 0
  Keeps m = (s : S) → view (m s).1 ≡ view s

  pub Keeps-bind :
      {A B : Type 0} (m : Action E S A) (f : A → Action E S B)
      → Keeps m
      → ((a : A) → Keeps (f a))
      → Keeps (m >>= f)
  Keeps-bind m f km kf s = after (m s).0 (m s).1 (km s)
    where
      after : (r : Outcome E _) (s' : S) → view s' ≡ view s → view (continue r f s').1 ≡ view s
      after (ok a) s' e = kf a s' ∙ e
      after (raised x) s' e = e

  pub Keeps-require : {A : Type 0} (o : Option A) (e : E) → Keeps (require o e)
  Keeps-require none e s = refl
  Keeps-require (some a) e s = refl

  pub Keeps-raise_if : (b : Bool) (e : E) → Keeps (raise_if b e)
  Keeps-raise_if true e s = refl
  Keeps-raise_if false e s = refl

-- What holds whenever the last part of a do block succeeds holds when the block succeeds.
module _ {E S B : Type 0} (P : S → Type 0) (b : B) where
  -- If the action returns the value, then this holds of the state it leaves.
  abbrev pub HoldsIfOk : Action E S B → S → Type 0
  HoldsIfOk m s = (m s).0 ≡ ok b → P (m s).1

  pub HoldsIfOk-bind :
      {A : Type 0} (m : Action E S A) (f : A → Action E S B) (s : S)
      → ((a : A) (s' : S) → HoldsIfOk (f a) s')
      → HoldsIfOk (m >>= f) s
  HoldsIfOk-bind m f s later = after (m s).0 (m s).1
    where
      after : (r : Outcome E _) (s' : S) → (continue r f s').0 ≡ ok b → P (continue r f s').1
      after (ok a) s' e = later a s' e
      after (raised x) s' e = absurd (ground arith)
