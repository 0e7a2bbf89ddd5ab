-- ===== src/Tests/Control.antt =====
-- The properties of the session control, at the sample world.
use auth_core.Prelude.{◌≡◌, ◌↔◌, refl, some, arith, [], ◌∷◌}
use auth_core.Prelude.Action.{ok, raised}
use auth_core.Entity.Session.{ClientType, TokenPair}
use auth_core.Tokens.{verify, issue}
use auth_core.Persistence.SessionRepository.{owned_row, token_row, rotate_refresh_token, rotate_row}
use auth_core.Persistence.SessionLaws.Run.{here}
use auth_core.Control.Session.{
  Token, invalid_session, authenticate, logout, logout_all, refresh, reuse_error, rotated_or_raise,
}
use auth_core.Control.SessionLaws.Authenticate.{IsStanding, authenticate_iff}
use auth_core.Control.SessionLaws.ShutOut.{logout_shuts_out, logout_all_shuts_out}
use auth_core.Control.SessionLaws.Refresh.{reuse_shuts_out, refresh_replaces_token}
use auth_core.Tests.Samples.{
  control, world, used_world, claims, access_token, family, session, token, used_token, draw,
  database, grant,
}

verified : verify control.tokens access_token 2_000_000 ≡ ok claims
unfolding verify issue
verified = refl

verified_later : verify control.tokens access_token 3_000_000 ≡ ok claims
unfolding verify issue
verified_later = refl

authenticate_iff_example :
    (((authenticate control 2_000_000 access_token world).0 ≡ ok claims) ↔ (
      (verify control.tokens access_token 2_000_000 ≡ ok claims)
      × IsStanding control 2_000_000 claims world))
    × ((authenticate control 2_000_000 access_token world).1 ≡ world)
authenticate_iff_example = authenticate_iff control 2_000_000 access_token claims world

found_session : owned_row 5 2 database ≡ some (family, session)
unfolding owned_row
found_session = refl

logout_shuts_out_example :
    (authenticate control 3_000_000 access_token (logout control 2_000_000 claims 99 world).1).0
    ≡ raised invalid_session
logout_shuts_out_example =
    logout_shuts_out control 2_000_000 3_000_000 99 claims claims access_token world
      (logout control 2_000_000 claims 99 world).1 (family, session) found_session here
      verified_later refl

logout_all_shuts_out_example :
    (authenticate control 3_000_000 access_token (record {
      redis = (logout_all control 2_000_000 claims 99 world).1.redis;
      database = database;
    })).0
    ≡ raised invalid_session
logout_all_shuts_out_example =
    logout_all_shuts_out control 2_000_000 3_000_000 99 claims claims access_token world database
      (omega arith) (omega arith) verified_later refl (ground arith)

found_used : token_row 7 used_world.database ≡ some (used_token, family, session)
unfolding token_row
found_used = refl

reuse_shuts_out_example :
    ((refresh control 2_000_000 "first" ClientType.web "device" 99 draw used_world).0
      ≡ raised (reuse_error control))
    × ((authenticate control 3_000_000 access_token (record {
      redis =
          (refresh control 2_000_000 "first" ClientType.web "device" 99 draw used_world).1.redis;
      database = database;
    })).0
        ≡ raised invalid_session)
reuse_shuts_out_example =
    reuse_shuts_out control 2_000_000 99 "first" "device" ClientType.web draw 3_000_000 used_token
      family session used_world database access_token claims found_used refl (omega arith)
      (omega arith) verified_later refl

found_token : token_row 7 world.database ≡ some (token, family, session)
unfolding token_row
found_token = refl

abbrev pair : TokenPair (Token control)
pair = record {
  access_token =
      (issue control.tokens (record grant { jti = 14; assurance = "refresh_token" ∷ [] })
        2_000_000).0;
  refresh_token = "second";
  access_expires_at =
      (issue control.tokens (record grant { jti = 14; assurance = "refresh_token" ∷ [] })
        2_000_000).1;
  refresh_expires_at = 86_400_000_000;
  session_id = 2;
  csrf_token = some "csrf";
}

refreshed : (refresh control 2_000_000 "first" ClientType.web "device" 99 draw world).0 ≡ ok pair
unfolding refresh rotated_or_raise rotate_refresh_token token_row rotate_row
refreshed = refl

refresh_replaces_token_example :
    (authenticate control 3_000_000 access_token (record {
      redis = (refresh control 2_000_000 "first" ClientType.web "device" 99 draw world).1.redis;
      database = database;
    })).0
    ≡ raised invalid_session
refresh_replaces_token_example =
    refresh_replaces_token control 2_000_000 99 "first" "device" ClientType.web draw 3_000_000 token
      family session world pair database access_token claims found_token refreshed (omega arith)
      (omega arith) verified_later refl
