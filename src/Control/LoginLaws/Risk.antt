-- ===== src/Control/LoginLaws/Risk.antt =====
-- Which devices a login is stepped up for.
use auth_core.Prelude.{
  ℕ, ◌≡◌, refl, ◌↔◌, String, true, false, Option, none, some, arith, eq_iff, find_row, ==-refl,
  Option-cases, inl, inr,
}
use auth_core.Prelude.Rows.{find_row-append_new, find_row-update_where}
use auth_core.Prelude.Action.{ok}
use auth_core.Entity.Login.{session_ready, RiskLevel, LoginIdentity, LoginDecision, DeviceSignals}
use auth_core.Persistence.Tables.{Database}
use auth_core.Persistence.LoginRepository.{
  device_signals, is_device, present, differs, stored, fallback_methods, new_device, seen_again,
  audit, signals_of, seen_devices,
}
use auth_core.Control.Login.{LoginControl, W, primary_decision, workflow_decision}

differs-present : (o : Option String) → differs o (present o) ≡ false
differs-present none = refl
differs-present (some s) = ground (arith, eq_iff s s)

-- The signals of a login that is not the first from its device, at the same address.
abbrev pub IsSeenAgain : DeviceSignals → Type 0
IsSeenAgain s = (s.known ≡ true) × (s.ip_changed ≡ false)

-- The tables after a login from a device, whose address the column gives back as it was written.
abbrev seen : ℕ → ℕ → ℕ → Option String → Database → Database
seen now user_id fingerprint ip db = record db {
  trusted_devices =
      seen_devices now user_id fingerprint ip
        (find_row (is_device user_id fingerprint) db.trusted_devices) db.trusted_devices;
}

device_signals_written :
    (inet : String → Option String) (now user_id fingerprint : ℕ) (ip : Option String)
    (db : Database)
    → stored inet ip ≡ some ip
    → device_signals inet now user_id fingerprint ip db
      ≡ some (
        signals_of ip (find_row (is_device user_id fingerprint) db.trusted_devices),
        seen now user_id fingerprint ip db,
      )
unfolding device_signals
device_signals_written inet now user_id fingerprint ip db same = rw (device_signals, same) refl

-- Whatever the tables hold, the device that was just seen is known, and so is its address.
seen-IsSeenAgain :
    (now user_id fingerprint : ℕ) (ip : Option String) (db : Database)
    → IsSeenAgain (
        signals_of ip (
          find_row
            (is_device user_id fingerprint)
            (seen now user_id fingerprint ip db).trusted_devices))
seen-IsSeenAgain now user_id fingerprint ip db =
    elim (Option-cases (find_row (is_device user_id fingerprint) db.trusted_devices)) [
      | inl fresh ↦
          rw
            (
              fresh,
              find_row-append_new (is_device user_id fingerprint)
                  (new_device now user_id fingerprint ip) db.trusted_devices fresh
                  (ground (arith, ==-refl user_id, ==-refl fingerprint)),
            )
            (refl, differs-present ip)
      | inr (d, known) ↦
          rw
            (
              known,
              find_row-update_where (is_device user_id fingerprint) (seen_again now ip) (λ x. refl)
                  d db.trusted_devices known,
            )
            (refl, differs-present ip)
    ]

module _ (control : LoginControl) (now : ℕ) (i : LoginIdentity) (fingerprint : String)
    (ip : Option String) (method : String) (correlation_id : ℕ) (token : String) where
  -- The outcome of `device_signals` in a login.
  abbrev pub IsSignalled : W control → DeviceSignals → Database → Type 0
  IsSignalled w s db =
      device_signals control.inet now i.user_id (control.signal_hash fingerprint) ip w.database
      ≡ some (s, db)

  -- A primary login that is answered with a decision is let through without a second factor exactly
  -- when the device is known and its address has not changed. Whether the device is trusted makes no
  -- difference.
  pub session_ready_iff :
      (w : W control) (d : LoginDecision)
      → (primary_decision control now i fingerprint ip method correlation_id token w).0 ≡ ok d
      → (d.decision ≡ session_ready)
        ↔ ((s : DeviceSignals) × (db : Database) × IsSignalled w s db × IsSeenAgain s)
  unfolding primary_decision workflow_decision
  session_ready_iff w d e =
      elim (Option-cases (
        device_signals control.inet now i.user_id (control.signal_hash fingerprint) ip
          w.database)) [
            | inl failed ↦ absurd (ground arith)
            | inr ((s, db), signalled) ↦ (
              λ r. (s, db, signalled, (ground arith, ground arith)),
              λ (s', db', signalled', k). ground arith,
            )
          ]

  ready_of_known :
      (w : W control) (s : DeviceSignals) (db : Database)
      → IsSignalled w s db
      → IsSeenAgain s
      → (primary_decision control now i fingerprint ip method correlation_id token w).0
        ≡ ok (record {
          decision = session_ready;
          risk = RiskLevel.low;
          workflow_token = token;
          allowed_methods = fallback_methods i.user_id db;
        })
  unfolding primary_decision workflow_decision
  ready_of_known w s db signalled (k, c) = rw signalled (ground arith)

  -- The devices after a primary login, and what its methods are read from.
  after_primary :
      (later : ℕ) (w : W control)
      → stored control.inet ip ≡ some ip
      → let h = control.signal_hash fingerprint in
        let db =
          (primary_decision control now i fingerprint ip method correlation_id token
            w).1.database in
        (db.trusted_devices ≡ (seen now i.user_id h ip w.database).trusted_devices)
        × (fallback_methods i.user_id (seen later i.user_id h ip db)
            ≡ fallback_methods i.user_id w.database)
  unfolding primary_decision workflow_decision audit fallback_methods
  after_primary later w same =
      rw
        (device_signals_written control.inet now i.user_id (control.signal_hash fingerprint) ip
          w.database same)
        (refl, refl)

-- Let a primary login take place from any device, also one that was never seen, and from no address or
-- one that PostgreSQL prints as it was given. Then the next primary login of the same user from the
-- same device and address is let through without a second factor.
pub second_login_is_ready :
    (control : LoginControl) (now later : ℕ) (i : LoginIdentity) (fingerprint : String)
    (ip : Option String) (method method' : String) (correlation_id correlation_id' : ℕ)
    (token token' : String) (w : W control)
    → stored control.inet ip ≡ some ip
    → (primary_decision control later i fingerprint ip method' correlation_id' token'
        (primary_decision control now i fingerprint ip method correlation_id token w).1).0
      ≡ ok (record {
        decision = session_ready;
        risk = RiskLevel.low;
        workflow_token = token';
        allowed_methods = fallback_methods i.user_id w.database;
      })
second_login_is_ready control now later i fingerprint ip method method' cid cid' token token' w
      same =
    let h = control.signal_hash fingerprint in
    let w' = (primary_decision control now i fingerprint ip method cid token w).1 in
    let (devices, methods) =
      after_primary control now i fingerprint ip method cid token later w same in
    let s = signals_of ip (find_row (is_device i.user_id h) w'.database.trusted_devices) in
    rw methods at (
      ready_of_known control later i fingerprint ip method' cid' token' w' s
        (seen later i.user_id h ip w'.database)
        (device_signals_written control.inet later i.user_id h ip w'.database same)
        (rw devices (seen-IsSeenAgain now i.user_id h ip w.database)))
