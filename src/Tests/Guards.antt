-- ===== src/Tests/Guards.antt =====
-- The limits on guesses and attempts, and the life of a token, at concrete inputs.
use auth_core.Prelude.{ℕ, ◌+◌, ◌*◌, ◌≡◌, refl, [], ◌∷◌, arith, ltb, if◌then◌else◌}
use auth_core.Prelude.Action.{ok, raised}
use auth_core.Redis.{second}
use auth_core.Redis.Memory.{nothing}
use auth_core.Security.{State, verify_and_consume_otp, store_otp_hash, login_is_locked, lock_login}
use auth_core.Security.Scripts.{missing, accepted}
use auth_core.Security.Keys.{of_text}
use auth_core.Security.Otp.{Guess, after_guesses, guesses_exhaust_otp, otp_lifetime, otp_single_use}
use auth_core.Security.Limits.{replies, count_up, rate_limit_counts, login_lock_lifetime}
use auth_core.Tokens.{issue, verify, invalid_token}
use auth_core.Tokens.RoundTrip.{granted_claims, verify-issue, verify-issue_expired}
use auth_core.Tests.Samples.{store, provider, grant}

abbrev at : ℕ → ℕ → Guess
at t c = record { at = t; candidate = c }

abbrev stored : State store
stored = store_otp_hash store 1_000_000 5 "login" 77 nothing

guesses_exhaust_otp_example :
    (verify_and_consume_otp store 9_000_000 5 "login" 77 2 (
      after_guesses store 5 "login" 2
        (at 2_000_000 70 ∷ at 3_000_000 71 ∷ [])
        (store_otp_hash store 1_000_000 5 "login" 77 nothing))).0
    ≡ missing
guesses_exhaust_otp_example =
    guesses_exhaust_otp store 5 "login" 2 77 1_000_000 9_000_000 77
      (at 2_000_000 70 ∷ at 3_000_000 71 ∷ []) nothing (omega arith)
      (omega arith, ground arith, (omega arith, ground arith, tt)) (omega arith) (omega arith)

otp_lifetime_example :
    (verify_and_consume_otp store 9_000_000 5 "login" 77 3
      (store_otp_hash store 1_000_000 5 "login" 77 nothing)).0
    ≡ (if ltb 9_000_000 (1_000_000 + 180 * second) then accepted else missing)
otp_lifetime_example = otp_lifetime store 5 "login" 3 77 1_000_000 9_000_000 nothing (omega arith)

stored-accepted : (verify_and_consume_otp store 2_000_000 5 "login" 77 3 stored).0 ≡ accepted
stored-accepted = otp_lifetime store 5 "login" 3 77 1_000_000 2_000_000 nothing (omega arith)

otp_single_use_example :
    (verify_and_consume_otp store 2_000_000 5 "login" 77 3
      (verify_and_consume_otp store 2_000_000 5 "login" 77 3 stored).1).0
    ≡ missing
otp_single_use_example =
    otp_single_use store 5 "login" 3 2_000_000 2_000_000 77 77 stored (omega arith) stored-accepted

rate_limit_counts_example :
    replies store "login" (of_text "a@b.c") 60 (1_000_000 ∷ 2_000_000 ∷ 3_000_000 ∷ []) nothing
    ≡ count_up 1 3
rate_limit_counts_example =
    rate_limit_counts store "login" (of_text "a@b.c") 60 1_000_000 (2_000_000 ∷ 3_000_000 ∷ [])
      nothing (omega arith) refl (omega arith, omega arith, (omega arith, omega arith, tt))

login_lock_lifetime_example :
    login_is_locked store 2_000_000 "a@b.c" (lock_login store 1_000_000 "a@b.c" nothing)
    ≡ ltb 2_000_000 (1_000_000 + 900 * second)
login_lock_lifetime_example =
    login_lock_lifetime store 1_000_000 2_000_000 "a@b.c" nothing (omega arith)

verify-issue_example :
    verify provider (issue provider grant 1_500_000).0 2_000_000
    ≡ ok (granted_claims provider grant 1_500_000)
verify-issue_example = verify-issue provider grant 1_500_000 2_000_000 (omega arith) (ground arith)

verify-issue_expired_example :
    verify provider (issue provider grant 1_500_000).0 902_000_000 ≡ raised invalid_token
verify-issue_expired_example =
    verify-issue_expired provider grant 1_500_000 902_000_000 (omega arith)
