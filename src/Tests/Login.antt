-- ===== src/Tests/Login.antt =====
-- The properties of the login workflows, at the sample tables.
use auth_core.Prelude.{
  ◌≤◌, ◌≡◌, ◌↔◌, refl, true, false, none, some, [], ◌∷◌, arith, str_eq, if◌then◌else◌,
}
use auth_core.Prelude.Action.{ok, raised}
use auth_core.Entity.User.{UserState}
use auth_core.Entity.Login.{
  session_ready, mfa_required, RiskLevel, LoginIdentity, LoginDecision, DeviceSignals,
}
use auth_core.Redis.Memory.{nothing}
use auth_core.Security.{State, increment_rate_limit, login_is_locked}
use auth_core.Security.Scripts.{rate_limit_script}
use auth_core.Security.Keys.{of_text}
use auth_core.Persistence.LoginRepository.{
  device_signals, fallback_methods, password_identity, identity,
}
use auth_core.Control.Login.{
  LoginControl, W, primary_decision, workflow_decision, login_password, decide_password,
  login_locked, record_password_failure, invalid_credentials, locked_error,
}
use auth_core.Control.LoginLaws.Risk.{
  session_ready_iff, second_login_is_ready, IsSignalled, IsSeenAgain,
}
use auth_core.Control.LoginLaws.Password.{IsEntitled, login_password-IsEntitled}
use auth_core.Control.LoginLaws.Lockout.{fifth_failure_locks}
use auth_core.Persistence.Tables.{Database}
use auth_core.Tests.Samples.{store, database}

abbrev login_control : LoginControl
login_control = record {
  redis = store;
  password_hasher = record {
    hash = λ salt p. p;
    verify = λ h p. str_eq h p;
    needs_rehash = λ h. false;
  };
  text_methods = record { strip = λ s. s; casefold = λ s. s };
  inet = λ s. if str_eq s "10.0.0.1" then some s else none;
  signal_hash = λ s. 1;
  dummy_password_hash = "dummy";
}

abbrev fresh : W login_control
fresh = record { redis = nothing; database = database }

abbrev known_user : LoginIdentity
known_user = record {
  user_id = 5;
  state = UserState.active;
  password_hash = some "hash";
  verified = true;
  has_phone = false;
}

abbrev stepped_up : LoginDecision
stepped_up = record {
  decision = mfa_required;
  risk = RiskLevel.high;
  workflow_token = "flow";
  allowed_methods = "email_otp" ∷ "password" ∷ [];
}

first_decision :
    (primary_decision login_control 1_000_000 known_user "device" none "password" 99 "flow" fresh).0
    ≡ ok stepped_up
unfolding primary_decision workflow_decision device_signals fallback_methods
first_decision = refl

session_ready_iff_example : (stepped_up.decision ≡ session_ready) ↔ (
    (s : DeviceSignals) × (db : Database) × IsSignalled login_control 1_000_000 known_user "device"
      none "password" 99 "flow" fresh s db
    × IsSeenAgain s)
session_ready_iff_example =
    session_ready_iff login_control 1_000_000 known_user "device" none "password" 99 "flow" fresh
      stepped_up first_decision

second_login_is_ready_example :
    (primary_decision login_control 2_000_000 known_user "device"
      (some "10.0.0.1")
      "password"
      98
      "flow_2"
      (primary_decision login_control 1_000_000 known_user "device"
        (some "10.0.0.1")
        "password"
        99
        "flow"
        fresh).1).0
    ≡ ok (record {
      decision = session_ready;
      risk = RiskLevel.low;
      workflow_token = "flow_2";
      allowed_methods = fallback_methods 5 database;
    })
second_login_is_ready_example =
    second_login_is_ready login_control 1_000_000 2_000_000 known_user "device" (some "10.0.0.1")
      "password" "password" 99 98 "flow" "flow_2" fresh refl

logged_in :
    (login_password login_control 1_000_000 "a@b.c" "hash" "device" none 99 1 "flow" fresh).0
    ≡ ok stepped_up
unfolding login_password decide_password login_locked login_is_locked primary_decision
    workflow_decision device_signals fallback_methods password_identity identity
logged_in = refl

login_password-IsEntitled_example :
    (i : LoginIdentity) × IsEntitled login_control 1_000_000 "a@b.c" "hash" "device" none 99 1
      "flow" i fresh
login_password-IsEntitled_example =
    login_password-IsEntitled login_control 1_000_000 "a@b.c" "hash" "device" none 99 1 "flow" fresh
      stepped_up refl logged_in

abbrev counted : State store → State store
counted s = (increment_rate_limit store 1_000_000 "login_password" (of_text "a@b.c") 60 s).1

abbrev four_failures : W login_control
four_failures = record {
  redis = counted (counted (counted (counted nothing)));
  database = database;
}

fifth :
    5
    ≤ (increment_rate_limit store 1_000_000 "login_password"
        (of_text "a@b.c")
        60
        four_failures.redis).0
unfolding increment_rate_limit rate_limit_script
fifth = omega arith

wrong_password :
    (login_password login_control 1_000_000 "a@b.c" "guess" "device" none 99 1 "flow"
      four_failures).0
    ≡ raised invalid_credentials
unfolding login_password decide_password login_locked login_is_locked record_password_failure
    password_identity identity increment_rate_limit rate_limit_script
wrong_password = refl

fifth_failure_locks_example :
    (login_password login_control 2_000_000 "a@b.c" "hash" "device" none 98 2 "flow_2" (record {
      redis =
          (login_password login_control 1_000_000 "a@b.c" "guess" "device" none 99 1 "flow"
            four_failures).1.redis;
      database = database;
    })).0
    ≡ raised locked_error
fifth_failure_locks_example =
    fifth_failure_locks login_control 1_000_000 2_000_000 "a@b.c" "a@b.c" "guess" "hash" "device"
      "device" none none 99 98 1 2 "flow" "flow_2" four_failures database fifth wrong_password refl
      (omega arith) (omega arith)
