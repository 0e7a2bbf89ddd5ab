-- ===== src/Tests/Sessions.antt =====
-- The properties of the session repository, at the sample tables.
use auth_core.Prelude.{◌≤◌, ◌≡◌, ◌⊎◌, refl, false, true, some, find_row, [], arith, length, ◌==◌}
use auth_core.Entity.Session.{reused, invalid, rotated}
use auth_core.Persistence.SessionRepository.{
  rotate_refresh_token, revoke_session, session_is_active, revoke_all, list_sessions,
  create_session, active_rows, max_active_sessions, token_row, rotate_row, owned_row, revoke_locked,
}
use auth_core.Persistence.SessionLaws.Run.{here, next, rotates, revokes, IsNew}
use auth_core.Persistence.SessionLaws.SingleUse.{rotation_single_use}
use auth_core.Persistence.SessionLaws.Refusals.{ends_family, refusal_ends_family}
use auth_core.Persistence.SessionLaws.OneToken.{HasOneToken, Reach-HasOneToken}
use auth_core.Persistence.SessionLaws.Cap.{create_session-cap}
use auth_core.Persistence.SessionLaws.Ended.{revoke_session-ends}
use auth_core.Persistence.SessionLaws.RevokeAll.{list_sessions-revoke_all}
use auth_core.Tests.Samples.{
  database, used_database, rotation, new_session, family, session, used_token,
}

granted : (rotate_refresh_token 1_000_000 rotation database).0.status ≡ rotated
unfolding rotate_refresh_token token_row rotate_row
granted = refl

rotation_single_use_example :
    (rotate_refresh_token 3_000_000 rotation
      (revoke_session 5 2 "logout" 2_000_000
        (rotate_refresh_token 1_000_000 rotation database).1).1).0.status
    ≡ reused
rotation_single_use_example =
    rotation_single_use 1_000_000 3_000_000 rotation rotation database granted
      (next here
        (revokes 5 2 "logout" 2_000_000 (rotate_refresh_token 1_000_000 rotation database).1))
      refl

found_used : token_row 7 used_database ≡ some (used_token, family, session)
unfolding token_row
found_used = refl

reuse_ends : ends_family (rotate_refresh_token 2_000_000 rotation used_database).0.status ≡ true
unfolding rotate_refresh_token token_row rotate_row
reuse_ends = refl

still_found :
    find_row
      (λ x. x.token_hash == 7)
      (rotate_refresh_token 2_000_000 rotation used_database).1.tokens
    ≡ some used_token
unfolding rotate_refresh_token token_row rotate_row revoke_locked
still_found = refl

refusal_ends_family_example :
    ((rotate_refresh_token 3_000_000 rotation
        (rotate_refresh_token 2_000_000 rotation used_database).1).0.status
      ≡ reused)
    ⊎ ((rotate_refresh_token 3_000_000 rotation
          (rotate_refresh_token 2_000_000 rotation used_database).1).0.status
        ≡ invalid)
refusal_ends_family_example =
    refusal_ends_family 2_000_000 3_000_000 rotation rotation (used_token, family, session)
      used_token used_database found_used reuse_ends here still_found refl

one_token : HasOneToken database
one_token id = ground arith

Reach-HasOneToken_example : HasOneToken (rotate_refresh_token 1_000_000 rotation database).1
Reach-HasOneToken_example =
    Reach-HasOneToken (next here (rotates 1_000_000 rotation database)) one_token

new_session-IsNew : IsNew new_session database
new_session-IsNew = record {
  no_session = (refl, tt);
  no_session_of_family = (refl, tt);
  no_token_of_family = (refl, tt);
}

create_session-cap_example :
    length (active_rows 5 1_000_000 (create_session 1_000_000 new_session database).1)
    ≤ max_active_sessions
create_session-cap_example = create_session-cap 1_000_000 new_session database new_session-IsNew

found_session : owned_row 5 2 database ≡ some (family, session)
unfolding owned_row
found_session = refl

revoke_session-ends_example :
    session_is_active 2 3_000_000
      (rotate_refresh_token 2_000_000 rotation (revoke_session 5 2 "logout" 1_000_000 database).1).1
    ≡ false
revoke_session-ends_example =
    revoke_session-ends 5 2 1_000_000 3_000_000 "logout" database (family, session) found_session
      (next here (rotates 2_000_000 rotation (revoke_session 5 2 "logout" 1_000_000 database).1))

list_sessions-revoke_all_example :
    list_sessions 5 2_000_000 (revoke_all 5 "logout_all" 1_000_000 database).1 ≡ []
list_sessions-revoke_all_example =
    list_sessions-revoke_all 5 1_000_000 2_000_000 "logout_all" database
