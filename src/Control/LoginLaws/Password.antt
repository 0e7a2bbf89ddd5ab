-- ===== src/Control/LoginLaws/Password.antt =====
-- What it takes to log in with a password, and what failures lead to.
use auth_core.Prelude.{ℕ, ◌≡◌, String, true, false, Option, some, arith, Option-cases, inl, inr}
use auth_core.Prelude.Action.{Outcome, ok}
use auth_core.Entity.User.{normalize_email, state_is_active}
use auth_core.Entity.Login.{LoginIdentity, LoginDecision}
use auth_core.Persistence.LoginRepository.{password_identity, present}
use auth_core.Control.Login.{
  LoginControl, LoginFault, W, login_password, decide_password, login_locked,
}

module _ (control : LoginControl) (now : ℕ) (email password fingerprint : String)
    (ip_address : Option String) (event_id salt : ℕ) (token : String) where
  abbrev normalized : String
  normalized = normalize_email control.text_methods email

  abbrev login : W control → Outcome LoginFault LoginDecision × W control
  login w = login_password control now email password fingerprint ip_address event_id salt token w

  -- Who may log in with a password: neither the email nor the address is locked, and the email belongs to
  -- a verified identity of an active user, which has a stored hash that the password fits.
  pub record IsEntitled (i : LoginIdentity) (w : W control) : Type 0 where
    pub unlocked : login_locked control now normalized ip_address w.redis ≡ false
    pub found : password_identity control.text_methods normalized w.database ≡ some i
    pub password_hash : String
    pub stored : present i.password_hash ≡ some password_hash
    pub fits : control.password_hasher.verify password_hash password ≡ true
    pub verified : i.verified ≡ true
    pub is_active : state_is_active i.state ≡ true

  -- A login that is answered with a decision, and whose password is not the one of the dummy hash, was
  -- entitled to one.
  pub login_password-IsEntitled :
      (w : W control) (d : LoginDecision)
      → control.password_hasher.verify control.dummy_password_hash password ≡ false
      → (login w).0 ≡ ok d
      → (i : LoginIdentity) × IsEntitled i w
  unfolding login_password decide_password
  login_password-IsEntitled w d real e =
      elim (Option-cases (password_identity control.text_methods normalized w.database)) [
        | inl missing ↦ absurd (ground arith)
        | inr (i, found) ↦ elim (Option-cases (present i.password_hash)) [
          | inl unset ↦ absurd (ground arith)
          | inr (h, stored) ↦ (
            i,
            record {
              unlocked = ground arith;
              found = found;
              password_hash = h;
              stored = stored;
              fits = ground arith;
              verified = ground arith;
              is_active = ground arith;
            },
          )
        ]
      ]
