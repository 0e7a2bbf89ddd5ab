-- ===== src/Security/Scripts.antt =====
-- The two Lua scripts of infrastructure/redis_security.py. Redis runs a script as one step.
use auth_core.Prelude.{ℕ, none, some, ◌==◌, leb, if◌then◌else◌}
use auth_core.Redis.{Redis, KeyName, fields_of, counter}

-- The script's reply: -1, 1 or 0.
pub data OtpReply : Type 0 where
  missing accepted refused : OtpReply

module _ (client : Redis) where
  -- RATE_LIMIT_SCRIPT
  unfoldable pub rate_limit_script : ℕ → KeyName → ℕ → client.State → ℕ × client.State
  rate_limit_script now key window s =
      let s' = client.incr now key s in
      let current = counter (client.entry now key s') in
      (current, if current == 1 then client.expire now key window s' else s')

  -- `if attempts >= tonumber(ARGV[2])`, after the failure was counted
  count_failure : ℕ → KeyName → ℕ → client.State → client.State
  count_failure now key max_attempts s =
      let s' = client.hincrby_attempts now key s in
      if leb max_attempts (fields_of (client.entry now key s')).attempts
      then client.delete key s'
      else s'

  -- VERIFY_OTP_SCRIPT
  unfoldable pub verify_otp_script : ℕ → KeyName → ℕ → ℕ → client.State → OtpReply × client.State
  unfolding count_failure
  verify_otp_script now key candidate max_attempts s =
      elim (fields_of (client.entry now key s)).hash [
        | none ↦ (missing, s)
        | some stored ↦
            if stored == candidate
            then (accepted, client.delete key s)
            else (refused, count_failure now key max_attempts s)
      ]
