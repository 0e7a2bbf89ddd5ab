-- ===== src/Providers/Totp.antt =====
-- infrastructure/providers/totp.py. `pyotp` is a parameter: the number of the time step at a time, the
-- code of a secret at a step, and the comparison of two codes. A secret is the list of its bytes.
use auth_core.Prelude.{
  ℕ, ◌+◌, ◌-◌, String, Bool, false, not, ◌&&◌, Option, none, some, List, [], ◌∷◌, leb,
  if◌then◌else◌,
}

pub record Pyotp : Type 0 where
  pub timecode : ℕ → ℕ
  pub code_at : List ℕ → ℕ → String
  pub strings_equal : String → String → Bool

-- `last_step is not None and candidate_step <= last_step`
abbrev pub is_spent : Option ℕ → ℕ → Bool
is_spent none candidate = false
is_spent (some last) candidate = leb candidate last

-- The step before the current one, the current one and the one after it.
abbrev pub candidates : ℕ → List ℕ
candidates current = (current - 1) ∷ current ∷ (current + 1) ∷ []

module _ (pyotp : Pyotp) where
  abbrev pub accepts : List ℕ → String → Option ℕ → ℕ → Bool
  accepts secret code last_step candidate =
      not (is_spent last_step candidate)
      && pyotp.strings_equal (pyotp.code_at secret candidate) code

  -- The loop of `verify` over the candidates that are left.
  abbrev pub first_accepted : List ℕ → String → Option ℕ → List ℕ → Option ℕ
  first_accepted secret code last_step [] = none
  first_accepted secret code last_step (k ∷ ks) =
      let rest = first_accepted secret code last_step ks in
      if accepts secret code last_step k then some k else rest

  unfoldable pub verify : ℕ → List ℕ → String → Option ℕ → Option ℕ
  verify now secret code last_step =
      first_accepted secret code last_step (candidates (pyotp.timecode now))
