-- ===== src/Control/MfaLaws/Steps.antt =====
-- The steps that the one-time passwords of a factor are accepted for.
use auth_core.Prelude.{
  ℕ, ◌≡◌, refl, subst, String, Bool, true, false, ◌&&◌, Option, none, some, List, [], ◌∷◌, arith,
  ◌==◌, if◌then◌else◌, find_row, Option-cases, Bool-cases, inl, inr, ==-refl,
}
use auth_core.Prelude.Action.{Outcome, ok, raised}
use auth_core.Security.{factor_is_locked}
use auth_core.Providers.Totp.{is_spent, first_accepted, candidates}
use auth_core.Providers.Totp.{verify, accepts}
use auth_core.Persistence.Tables.{MfaDevice}
use auth_core.Persistence.LoginRepository.{is_active_factor}
use auth_core.Persistence.MfaRepository.{factor, factor_of, advance_totp_step, same_step}
use auth_core.Persistence.MfaLaws.Totp.{
  NotAfter, Before, NotAfter_refl, Before-of_NotAfter, last_step, is_factor,
  advance_totp_step-NotAfter, advance_totp_step-at,
}
use auth_core.Control.Mfa.{
  MfaControl, MfaFault, uncaught, locked_error, W, verify_totp, check_totp, usable, open_secret,
}

-- A code presented for a user's factor at a time.
pub record TotpAttempt : Type 0 where
  pub at : ℕ
  pub user_id : ℕ
  pub factor_id : ℕ
  pub code : String

-- Each is before the next.
abbrev pub Rises : Option ℕ → List (Option ℕ) → Type 0
Rises previous [] = Unit
Rises previous (s ∷ ss) = Before previous s × Rises s ss

Rises-later : (a b : Option ℕ) (ss : List (Option ℕ)) → NotAfter a b → Rises b ss → Rises a ss
Rises-later a b [] le h = tt
Rises-later a b (s ∷ ss) le h = (Before-of_NotAfter a b s le h.0, h.1)

abbrev pub is_success : {E : Type 0} → Outcome E Bool → Bool
is_success (ok b) = b
is_success (raised e) = false

same_ids : (a b c d : ℕ) (r : Bool) → ((a == b && c == d) && r) ≡ true → (a ≡ b) × (c ≡ d)
same_ids a b c d r e = (ground arith, ground arith)

module _ (control : MfaControl) where
  first_accepted-fresh :
      (secret : List ℕ) (code : String) (last : Option ℕ) (ks : List ℕ) (k : ℕ)
      → first_accepted control.pyotp secret code last ks ≡ some k
      → is_spent last k ≡ false
  first_accepted-fresh secret code last [] k e = absurd (ground arith)
  first_accepted-fresh secret code last (j ∷ ks) k e =
      elim (Bool-cases (accepts control.pyotp secret code last j)) [
        | inl yes_ ↦
            let fresh : is_spent last j ≡ false = ground arith in
            let same : j ≡ k = ground arith in subst (λ x. is_spent last x ≡ false) same fresh
        | inr no_ ↦ first_accepted-fresh secret code last ks k (rw no_ at e)
      ]

  verify-fresh :
      (now : ℕ) (secret : List ℕ) (code : String) (last : Option ℕ) (k : ℕ)
      → verify control.pyotp now secret code last ≡ some k
      → is_spent last k ≡ false
  unfolding verify
  verify-fresh now secret code last k e =
      first_accepted-fresh secret code last (candidates (control.pyotp.timecode now)) k e

module _ (control : MfaControl) (user_id factor_id : ℕ) where
  abbrev last : W control → Option ℕ
  last w = last_step user_id factor_id w.database

  abbrev is_mine : TotpAttempt → Bool
  is_mine a = a.user_id == user_id && a.factor_id == factor_id

  -- The last steps of the factor after each attempt that succeeded for it.
  abbrev pub accepted_steps : List TotpAttempt → W control → List (Option ℕ)
  accepted_steps [] w = []
  accepted_steps (a ∷ as') w =
      let (r, w') = verify_totp control a.at a.user_id a.factor_id a.code w in
      let rest = accepted_steps as' w' in if is_mine a && is_success r then last w' ∷ rest else rest

  -- An attempt leaves the last step or moves it on, and moves it on if it succeeds for the factor.
  abbrev Moves : Bool → W control → Outcome MfaFault Bool × W control → Type 0
  Moves mine w r =
      NotAfter (last w) (last r.1) × ((mine && is_success r.0) ≡ true → Before (last w) (last r.1))

  Moves-unchanged :
      (mine : Bool) (w : W control) (r : Outcome MfaFault Bool)
      → is_success r ≡ false
      → Moves mine w (r, w)
  Moves-unchanged mine w r failed = (NotAfter_refl (last w), λ e. absurd (ground arith))

  Before-fresh : (s : Option ℕ) (k : ℕ) → is_spent s k ≡ false → Before s (some k)
  Before-fresh none k fresh = tt
  Before-fresh (some a) k fresh = ground arith

  same_step_refl : (s : Option ℕ) → same_step s s ≡ true
  same_step_refl none = refl
  same_step_refl (some a) = ground arith

  Moves-advance :
      (now u f k : ℕ) (w : W control) (d : MfaDevice)
      → find_row (is_factor u f) w.database.mfa_devices ≡ some d
      → is_active_factor d.status ≡ true
      → is_spent d.last_totp_step k ≡ false
      → let r = advance_totp_step now d.mfa_id d.last_totp_step k w.database in
        Moves (u == user_id && f == factor_id) w (ok r.0, record w { database = r.1 })
  Moves-advance now u f k w d found active fresh = (
    advance_totp_step-NotAfter now d.mfa_id k d.last_totp_step user_id factor_id w.database fresh,
    λ e.
        let mine : find_row (is_factor user_id factor_id) w.database.mfa_devices ≡ some d =
          (let ids = same_ids u user_id f factor_id _ e in
            subst (λ x. find_row (is_factor x factor_id) w.database.mfa_devices ≡ some d) ids.0
              (subst (λ y. find_row (is_factor u y) w.database.mfa_devices ≡ some d) ids.1
                found)) in
        let at_d =
          advance_totp_step-at now d.mfa_id k d.last_totp_step user_id factor_id w.database d mine
            (rw (active, same_step_refl d.last_totp_step, ==-refl) refl) in
        rw (mine, at_d) (Before-fresh d.last_totp_step k fresh),
  )

  check_totp-Moves :
      (now u f : ℕ) (code : String) (w : W control) (d : MfaDevice)
      → find_row (is_factor u f) w.database.mfa_devices ≡ some d
      → Moves
          (u == user_id && f == factor_id)
          w
          (check_totp control now u code (usable is_active_factor (some (factor_of d))) w)
  check_totp-Moves now u f code w d found =
      let mine = u == user_id && f == factor_id in
      elim (Option-cases d.encrypted_secret) [
        | inl empty ↦ rw empty (Moves-unchanged mine w (ok false) refl)
        | inr (stored, full) ↦ elim (Bool-cases (is_active_factor d.status)) [
          | inr idle ↦ rw (full, idle) (Moves-unchanged mine w (ok false) refl)
          | inl active ↦ elim (Option-cases (open_secret control u stored)) [
            | inl closed ↦ rw (full, active, closed) (Moves-unchanged mine w (raised uncaught) refl)
            | inr (secret, opened) ↦
                elim (Option-cases (verify control.pyotp now secret code d.last_totp_step)) [
                  | inl rejected ↦
                      rw (full, active, opened, rejected) (Moves-unchanged mine w (ok false) refl)
                  | inr (k, taken) ↦
                      rw (full, active, opened, taken)
                        (Moves-advance now u f k w d found active
                          (verify-fresh control now secret code d.last_totp_step k taken))
                ]
          ]
        ]
      ]

  verify_totp-Moves :
      (now u f : ℕ) (code : String) (w : W control)
      → Moves (u == user_id && f == factor_id) w (verify_totp control now u f code w)
  unfolding verify_totp factor
  verify_totp-Moves now u f code w =
      let mine = u == user_id && f == factor_id in
      elim (Bool-cases (factor_is_locked control.redis now f w.redis)) [
        | inl locked ↦ rw locked (Moves-unchanged mine w (raised locked_error) refl)
        | inr open_ ↦ elim (Option-cases (find_row (is_factor u f) w.database.mfa_devices)) [
          | inl missing ↦ rw (open_, missing) (Moves-unchanged mine w (ok false) refl)
          | inr (d, found) ↦ rw (open_, found) (check_totp-Moves now u f code w d found)
        ]
      ]

  -- Over any sequence of verifications of one-time passwords, for any factors, codes and times, the last
  -- steps that a factor's successes leave rise strictly, from the last step that it had at first: no
  -- step is accepted twice, and none is accepted after a later one.
  pub accepted_steps_rise :
      (attempts : List TotpAttempt) (w : W control) → Rises (last w) (accepted_steps attempts w)
  accepted_steps_rise [] w = tt
  accepted_steps_rise (a ∷ as') w =
      let r = verify_totp control a.at a.user_id a.factor_id a.code w in
      let moved = verify_totp-Moves a.at a.user_id a.factor_id a.code w in
      let rest = accepted_steps_rise as' r.1 in
      elim (Bool-cases (is_mine a && is_success r.0)) [
        | inl mine ↦ rw mine (moved.1 mine, rest)
        | inr other ↦
            rw other (Rises-later (last w) (last r.1) (accepted_steps as' r.1) moved.0 rest)
      ]
