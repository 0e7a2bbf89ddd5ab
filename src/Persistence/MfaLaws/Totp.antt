-- ===== src/Persistence/MfaLaws/Totp.antt =====
-- The TOTP step that was used last: what `advance_totp_step` makes of it.
use auth_core.Prelude.{
  ℕ, ◌≤◌, ◌<◌, ◌≡◌, Bool, true, false, ◌&&◌, Option, none, some, List, [], ◌∷◌, arith, ◌==◌,
  find_row, update_where, Bool-cases, inl, inr,
}
use auth_core.Providers.Totp.{is_spent}
use auth_core.Persistence.Tables.{Database, MfaDevice}
use auth_core.Persistence.MfaRepository.{is_at_step, same_step, stepped, advance_totp_step}

-- The step of one row is not after that of another, or before it. No step is before every step.
abbrev pub NotAfter : Option ℕ → Option ℕ → Type 0
NotAfter none b = Unit
NotAfter (some a) none = ⊥
NotAfter (some a) (some b) = a ≤ b

abbrev pub Before : Option ℕ → Option ℕ → Type 0
Before a none = ⊥
Before none (some b) = Unit
Before (some a) (some b) = a < b

pub NotAfter_refl : (a : Option ℕ) → NotAfter a a
NotAfter_refl none = tt
NotAfter_refl (some a) = omega arith

pub Before-of_NotAfter : (a b c : Option ℕ) → NotAfter a b → Before b c → Before a c
Before-of_NotAfter a b none le lt = lt
Before-of_NotAfter none b (some c) le lt = tt
Before-of_NotAfter (some a) none (some c) le lt = absurd le
Before-of_NotAfter (some a) (some b) (some c) le lt = omega arith

abbrev pub step_of : Option MfaDevice → Option ℕ
step_of none = none
step_of (some d) = d.last_totp_step

abbrev pub is_factor : ℕ → ℕ → MfaDevice → Bool
is_factor user_id mfa_id d = d.user_id == user_id && d.mfa_id == mfa_id

-- The step that a user's factor was used with last.
abbrev pub last_step : ℕ → ℕ → Database → Option ℕ
last_step user_id mfa_id db = step_of (find_row (is_factor user_id mfa_id) db.mfa_devices)

step-NotAfter :
    (s previous : Option ℕ) (k : ℕ)
    → is_spent previous k ≡ false
    → same_step s previous ≡ true
    → NotAfter s (some k)
step-NotAfter none previous k fresh same = tt
step-NotAfter (some a) none k fresh same = absurd (ground arith)
step-NotAfter (some a) (some p) k fresh same = ground arith

raised :
    (mfa_id k : ℕ) (previous : Option ℕ) (d : MfaDevice)
    → is_spent previous k ≡ false
    → is_at_step mfa_id previous d ≡ true
    → NotAfter d.last_totp_step (some k)
raised id k previous d fresh hit =
    let same : same_step d.last_totp_step previous ≡ true = ground arith in
    step-NotAfter d.last_totp_step previous k fresh same

module _ (now g k : ℕ) (previous : Option ℕ) (user_id mfa_id : ℕ) where
  abbrev update : List MfaDevice → List MfaDevice
  update xs = update_where (is_at_step g previous) (stepped now k) xs

  rows-NotAfter :
      is_spent previous k ≡ false
      → (xs : List MfaDevice)
      → NotAfter
          (step_of (find_row (is_factor user_id mfa_id) xs))
          (step_of (find_row (is_factor user_id mfa_id) (update xs)))
  rows-NotAfter fresh [] = tt
  rows-NotAfter fresh (x ∷ xs) = elim (Bool-cases (is_factor user_id mfa_id x)) [
    | inl mine ↦ elim (Bool-cases (is_at_step g previous x)) [
      | inl hit ↦ rw (hit, mine) (raised g k previous x fresh hit)
      | inr miss ↦ rw (miss, mine) (NotAfter_refl x.last_totp_step)
    ]
    | inr other ↦ elim (Bool-cases (is_at_step g previous x)) [
      | inl hit ↦ rw (hit, other) (rows-NotAfter fresh xs)
      | inr miss ↦ rw (miss, other) (rows-NotAfter fresh xs)
    ]
  ]

  rows-at :
      (xs : List MfaDevice) (d : MfaDevice)
      → find_row (is_factor user_id mfa_id) xs ≡ some d
      → is_at_step g previous d ≡ true
      → step_of (find_row (is_factor user_id mfa_id) (update xs)) ≡ some k
  rows-at [] d e hit = absurd (ground arith)
  rows-at (x ∷ xs) d e hit = ground (arith, rows-at xs d)

  -- A step that is not used up is not before the last step of any factor afterwards.
  pub advance_totp_step-NotAfter :
      (db : Database)
      → is_spent previous k ≡ false
      → NotAfter
          (last_step user_id mfa_id db)
          (last_step user_id mfa_id (advance_totp_step now g previous k db).1)
  unfolding advance_totp_step
  advance_totp_step-NotAfter db fresh = rows-NotAfter fresh db.mfa_devices

  -- The last step of the row that it reaches is the new one.
  pub advance_totp_step-at :
      (db : Database) (d : MfaDevice)
      → find_row (is_factor user_id mfa_id) db.mfa_devices ≡ some d
      → is_at_step g previous d ≡ true
      → last_step user_id mfa_id (advance_totp_step now g previous k db).1 ≡ some k
  unfolding advance_totp_step
  advance_totp_step-at db d e hit = rows-at db.mfa_devices d e hit
