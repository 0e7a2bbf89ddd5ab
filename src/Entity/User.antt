-- ===== src/Entity/User.antt =====
-- entity/user.py. What Python does to a text, `strip` and `casefold`, is a parameter.
use auth_core.Prelude.{Bool, true, false, String}

pub data UserState : Type 0 where
  pending active locked suspended disabled anonymized : UserState

abbrev pub state_is_active : UserState → Bool
state_is_active UserState.active = true
state_is_active _ = false

pub record TextMethods : Type 0 where
  pub strip : String → String
  pub casefold : String → String

abbrev pub normalize_email : TextMethods → String → String
normalize_email texts email = texts.casefold (texts.strip email)
