-- ===== src/Tests/Mfa.antt =====
-- The properties of the second factors, at the sample tables.
use auth_core.Prelude.{
  ℕ, ◌+◌, ◌/◌, ◌≤◌, ◌≡◌, ◌↔◌, refl, true, false, none, some, List, [], ◌∷◌, ◌++◌, arith, str_eq,
  ◌==◌, if◌then◌else◌, length, drop, map, inr,
}
use auth_core.Prelude.Action.{ok, raised}
use auth_core.Entity.Json.{Members, text, uuid, object, member, end}
use auth_core.Entity.Mfa.{totp, MfaCompletion, session_ready}
use auth_core.Redis.Memory.{nothing}
use auth_core.Security.{
  State, store_mfa_challenge, get_mfa_challenge, consume_mfa_challenge, store_login_workflow,
  get_login_workflow, consume_login_workflow, increment_rate_limit, factor_is_locked,
}
use auth_core.Security.Scripts.{rate_limit_script}
use auth_core.Security.Keys.{of_uuid}
use auth_core.Providers.Totp.{Pyotp}
use auth_core.Providers.Totp
use auth_core.Providers.TotpLaws.{IsFirst, verify_iff}
use auth_core.Providers.Cipher.{AesGcm, encrypt, decrypt, decrypt-encrypt}
use auth_core.Persistence.Tables.{
  Database, MfaDevice, FactorType, FactorStatus, StoredSecret, encrypted, code_hashes,
}
use auth_core.Persistence.MfaRepository.{active_factors, factor, consume_backup_code}
use auth_core.Persistence.MfaLaws.Codes.{
  Attempt, bag_replies, occurrences, replies, stored, consume_backup_code-refines_bag,
}
use auth_core.Persistence.MfaLaws.Strong.{strong_count}
use auth_core.Persistence.MfaLaws.Totp.{last_step}
use auth_core.Control.Session.{assurance_of}
use auth_core.Control.Recovery.{has_recent_mfa}
use auth_core.Control.Mfa.{
  MfaControl, W, CompletionDraw, ready_workflow, complete, session_workflow, verify_totp,
  verify_challenge, finish_challenge, code_error, locked_error, challenge_error, revoke_factor,
  is_strong,
}
use auth_core.Control.MfaLaws.Recent.{counts_as_recent, complete-counts_as_recent}
use auth_core.Control.MfaLaws.Lock.{third_failure_locks}
use auth_core.Control.MfaLaws.Challenge.{challenge_single_use}
use auth_core.Control.MfaLaws.Strong.{revoke_factor_keeps_strong}
use auth_core.Control.MfaLaws.Steps.{TotpAttempt, Rises, accepted_steps, accepted_steps_rise}
use auth_core.Tests.Samples.{store, database}

-- A tag of 16 zeros in front.
abbrev tag : List ℕ
tag = 0 ∷ 0 ∷ 0 ∷ 0 ∷ 0 ∷ 0 ∷ 0 ∷ 0 ∷ 0 ∷ 0 ∷ 0 ∷ 0 ∷ 0 ∷ 0 ∷ 0 ∷ 0 ∷ []

tagged_length : (xs : List ℕ) → length (tag ++ xs) ≡ length xs + 16
tagged_length xs = ground arith

abbrev plain_cipher : AesGcm
plain_cipher = record {
  seal = λ nonce plaintext ad. tag ++ plaintext;
  unseal = λ nonce ciphertext ad. some (drop 16 ciphertext);
  length_seal = λ nonce plaintext ad. tagged_length plaintext;
  unseal_seal = λ nonce plaintext ad. refl;
}

abbrev clock : Pyotp
clock = record {
  timecode = λ now. now / 30_000_000;
  code_at = λ secret step. if step == 2 then "222222" else "000000";
  strings_equal = str_eq;
}

abbrev mfa : MfaControl
mfa = record {
  redis = store;
  password_hasher = record {
    hash = λ salt p. p;
    verify = λ h p. str_eq h p;
    needs_rehash = λ h. false;
  };
  aes = plain_cipher;
  pyotp = clock;
  webauthn = record {
    Credential = ℕ;
    verify_registration = λ c s. none;
    credential_id = λ c. some c;
    verify_authentication = λ c s p. none;
  };
  send_email_code = λ address code. true;
  send_sms_code = λ address code. true;
  otp_hash = λ s. 50;
  backup_digest = λ s. if str_eq s "AAAABBBB" then 51 else 52;
  upper = λ s. s;
  uuid_bytes = λ id. id ∷ [];
}

abbrev nonce : List ℕ
nonce = 1 ∷ 2 ∷ 3 ∷ 4 ∷ 5 ∷ 6 ∷ 7 ∷ 8 ∷ 9 ∷ 10 ∷ 11 ∷ 12 ∷ []

decrypt-encrypt_example :
    decrypt plain_cipher (encrypt plain_cipher nonce (42 ∷ 43 ∷ []) (5 ∷ [])) (5 ∷ [])
    ≡ some (42 ∷ 43 ∷ [])
decrypt-encrypt_example =
    decrypt-encrypt plain_cipher nonce (42 ∷ 43 ∷ []) (5 ∷ []) refl (omega arith)

verify_iff_example :
    (Totp.verify clock 90_000_000 (42 ∷ []) "222222" (some 1) ≡ some 2)
    ↔ IsFirst clock 90_000_000 (42 ∷ []) "222222" (some 1) 2
verify_iff_example = verify_iff clock 90_000_000 (42 ∷ []) "222222" (some 1) 2 (ground arith)

abbrev device : ℕ → FactorType → StoredSecret → MfaDevice
device id type secret = record {
  mfa_id = id;
  user_id = 5;
  factor_type = type;
  encrypted_secret = some secret;
  status = FactorStatus.active;
  label = none;
  verified_at = some 1;
  revoked_at = none;
  last_totp_step = none;
  last_used_at = none;
}

abbrev guarded : Database
guarded = record database {
  mfa_devices =
      device 80 FactorType.backup_codes (code_hashes (51 ∷ 53 ∷ []))
      ∷ device 81 FactorType.totp (encrypted (encrypt plain_cipher nonce (42 ∷ []) (5 ∷ [])))
      ∷ [];
}

abbrev codes : List Attempt
codes = record { at = 1; candidate = 51 } ∷ record { at = 2; candidate = 51 } ∷ []

consume_backup_code-refines_bag_example :
    replies 5 codes guarded
    ≡ bag_replies (map (λ a. a.candidate) codes) (occurrences (stored 5 guarded))
consume_backup_code-refines_bag_example =
    consume_backup_code-refines_bag 5 codes guarded (inr (80, (refl, (refl, tt))))

abbrev draw : CompletionDraw
draw = record { token = "ready"; identity_id = 90 }

abbrev plain_workflow : Members
plain_workflow = member "user_id" (uuid 5) (member "decision" (text "mfa_required") end)

abbrev guarded_world : W mfa
guarded_world = record { redis = nothing; database = guarded }

complete-counts_as_recent_example :
    ((consume_login_workflow store 2_000_000 "ready"
        (complete mfa 1_000_000 5 plain_workflow "totp" 99 draw guarded_world).1.redis).0
      ≡ some (ready_workflow 5 "totp"))
    × (has_recent_mfa (assurance_of (ready_workflow 5 "totp")) ≡ counts_as_recent totp)
complete-counts_as_recent_example =
    complete-counts_as_recent mfa 1_000_000 2_000_000 5 99 plain_workflow totp draw guarded_world
      refl (omega arith) (omega arith)

abbrev totp_challenge : Members
totp_challenge = member "purpose" (text "verify") (
    member "method" (text "totp") (
      member "user_id" (uuid 5)
        (member "workflow" (object plain_workflow) (member "factor_id" (uuid 81) end))))

abbrev failed : State store → State store
failed s = (increment_rate_limit store 1_000_000 "mfa_factor_failure" (of_uuid 81) 900 s).1

abbrev two_failures : W mfa
two_failures = record {
  redis = failed (failed (store_mfa_challenge store 1_000_000 "challenge" totp_challenge nothing));
  database = guarded;
}

challenged : get_mfa_challenge store 1_000_000 "challenge" two_failures.redis ≡ some totp_challenge
unfolding get_mfa_challenge store_mfa_challenge increment_rate_limit rate_limit_script
challenged = refl

wrong_code : (verify_totp mfa 1_000_000 5 81 "123456" two_failures).0 ≡ ok false
unfolding verify_totp factor_is_locked factor Totp.verify encrypt decrypt increment_rate_limit
    rate_limit_script store_mfa_challenge
wrong_code = refl

third :
    3
    ≤ (increment_rate_limit store 1_000_000 "mfa_factor_failure"
        (of_uuid 81)
        900
        two_failures.redis).0
unfolding increment_rate_limit rate_limit_script store_mfa_challenge
third = omega arith

third_failure_locks_example :
    ((verify_challenge mfa 1_000_000 "challenge" "123456" 99 draw two_failures).0
      ≡ raised code_error)
    × ((verify_totp mfa 2_000_000 5 81 "000000" (record {
      redis = (verify_challenge mfa 1_000_000 "challenge" "123456" 99 draw two_failures).1.redis;
      database = guarded;
    })).0
        ≡ raised locked_error)
third_failure_locks_example =
    third_failure_locks mfa 1_000_000 2_000_000 5 81 99 "challenge" "123456" "000000" draw
      totp_challenge two_failures guarded challenged refl refl refl refl wrong_code third
      (omega arith) (omega arith)

abbrev backup_challenge : Members
backup_challenge = member "purpose" (text "verify") (
    member "method" (text "backup_code")
      (member "user_id" (uuid 5) (member "workflow" (object plain_workflow) end)))

abbrev backup_world : W mfa
backup_world = record {
  redis = store_mfa_challenge store 1_000_000 "challenge" backup_challenge nothing;
  database = guarded;
}

abbrev completed : MfaCompletion
completed = record { result = session_ready; workflow_token = some "ready"; backup_codes = [] }

accepted_code :
    (verify_challenge mfa 1_000_000 "challenge" "AAAA-BBBB" 99 draw backup_world).0 ≡ ok completed
unfolding verify_challenge finish_challenge consume_backup_code complete session_workflow
    get_mfa_challenge consume_mfa_challenge store_mfa_challenge
accepted_code = refl

challenge_single_use_example :
    (verify_challenge mfa 2_000_000 "challenge" "AAAA-BBBB" 98 draw (record {
      redis = (verify_challenge mfa 1_000_000 "challenge" "AAAA-BBBB" 99 draw backup_world).1.redis;
      database = guarded;
    })).0
    ≡ raised challenge_error
challenge_single_use_example =
    challenge_single_use mfa "challenge" 1_000_000 2_000_000 99 98 "AAAA-BBBB" "AAAA-BBBB" draw draw
      backup_world completed guarded (omega arith) accepted_code

abbrev assured : Members
assured = member "user_id" (uuid 5) (member "assurance" (text "mfa") end)

abbrev managed : W mfa
managed = record {
  redis = store_login_workflow store 1_000_000 "flow" assured nothing;
  database = guarded;
}

in_flow : get_login_workflow store 1_000_000 "flow" managed.redis ≡ some assured
unfolding get_login_workflow store_login_workflow
in_flow = refl

one_strong : 1 ≤ strong_count is_strong 5 managed.database
unfolding active_factors
one_strong = omega arith

revoke_factor_keeps_strong_example :
    1 ≤ strong_count is_strong 5 (revoke_factor mfa 1_000_000 "flow" 81 99 draw managed).1.database
revoke_factor_keeps_strong_example =
    revoke_factor_keeps_strong mfa 1_000_000 81 5 99 "flow" assured draw managed in_flow refl
      (omega arith) one_strong

abbrev tries : List TotpAttempt
tries =
    record { at = 60_000_000; user_id = 5; factor_id = 81; code = "222222" }
    ∷ record { at = 61_000_000; user_id = 5; factor_id = 81; code = "222222" }
    ∷ []

accepted_steps_rise_example :
    Rises (last_step 5 81 guarded) (accepted_steps mfa 5 81 tries guarded_world)
accepted_steps_rise_example = accepted_steps_rise mfa 5 81 tries guarded_world
