-- ===== src/Entity/PasswordPolicy.antt =====
-- entity/password_policy.py
use auth_core.Prelude.{String, Bool, not, ◌||◌, ltb}
use auth_core.Entity.Text.{text_length}

-- The policy accepts the password, and does not raise.
unfoldable pub password_fits : String → Bool
password_fits password = not (ltb (text_length password) 12 || ltb 128 (text_length password))
