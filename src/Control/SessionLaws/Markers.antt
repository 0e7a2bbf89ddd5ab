-- ===== src/Control/SessionLaws/Markers.antt =====
-- The revocation markers in Redis: who sets them, and for how long they stand.
use auth_core.Prelude.{ℕ, ◌+◌, ◌*◌, ◌/◌, ◌≤◌, ◌<◌, ◌≡◌, true, some, List, [], ◌∷◌, arith}
use auth_core.Entity.Session.{RevocationResult}
use auth_core.Redis.{KeyName, lasting, integer, second}
use auth_core.Redis.Laws.{entry-set_self}
use auth_core.Security.{
  RedisSecurityStore, State, revoke_access_token, access_token_is_revoked, revoke_family,
  family_is_revoked, revoke_user, user_revoked_at, timestamp,
}
use auth_core.Security.Keys
use auth_core.Control.Session.{
  SessionControl, mark_revoked, mark_all_revoked, access_ttl_seconds, refresh_family_seconds,
}

module _ (control : SessionControl) (now : ℕ) where
  abbrev store : RedisSecurityStore
  store = control.redis

  abbrev family_key : ℕ → KeyName
  family_key id = (Keys.family_revocation store.opaque id refresh_family_seconds).name

  abbrev jti_key : ℕ → KeyName
  jti_key jti = (Keys.access_revocation store.opaque jti access_ttl_seconds).name

  abbrev user_key : ℕ → KeyName
  user_key id = (Keys.user_revocation store.opaque id).name

  -- Whole markers, written now.
  abbrev pub FamilyMarked : ℕ → State store → Type 0
  FamilyMarked id s =
      store.client.entry now (family_key id) s
      ≡ some (lasting (integer 1) (now + refresh_family_seconds * second))

  abbrev pub TokenMarked : ℕ → State store → Type 0
  TokenMarked jti s =
      store.client.entry now (jti_key jti) s
      ≡ some (lasting (integer 1) (now + access_ttl_seconds * second))

  abbrev pub UserMarked : ℕ → State store → Type 0
  UserMarked id s =
      store.client.entry now (user_key id) s
      ≡ some (lasting (integer (timestamp now)) (now + 2_592_000 * second))

  pub mark_revoked-FamilyMarked :
      (v : RevocationResult) (s : State store)
      → FamilyMarked v.family_id (mark_revoked control now v s)
  unfolding mark_revoked revoke_family revoke_access_token
  mark_revoked-FamilyMarked v s = rw entry-set_self (ground arith)

  mark_revoked-keeps_family :
      (id : ℕ) (v : RevocationResult) (s : State store)
      → FamilyMarked id s
      → FamilyMarked id (mark_revoked control now v s)
  unfolding mark_revoked revoke_family revoke_access_token
  mark_revoked-keeps_family id v s m =
      let s' = revoke_access_token store now v.access_jti access_ttl_seconds s in
      ground (
        arith,
        store.client.entry_set now (family_key v.family_id) (family_key id) (integer 1)
            refresh_family_seconds s',
        store.client.entry_set now (jti_key v.access_jti) (family_key id) (integer 1)
            access_ttl_seconds s,
      )

  pub mark_revoked-keeps_user :
      (id : ℕ) (v : RevocationResult) (s : State store)
      → UserMarked id s
      → UserMarked id (mark_revoked control now v s)
  unfolding mark_revoked revoke_family revoke_access_token
  mark_revoked-keeps_user id v s m =
      let s' = revoke_access_token store now v.access_jti access_ttl_seconds s in
      ground (
        arith,
        store.client.entry_set now (family_key v.family_id) (user_key id) (integer 1)
            refresh_family_seconds s',
        store.client.entry_set now (jti_key v.access_jti) (user_key id) (integer 1)
            access_ttl_seconds s,
      )

  pub mark_all_revoked-keeps_user :
      (id : ℕ) (vs : List RevocationResult) (s : State store)
      → UserMarked id s
      → UserMarked id (mark_all_revoked control now vs s)
  unfolding mark_all_revoked
  mark_all_revoked-keeps_user id [] s m = m
  mark_all_revoked-keeps_user id (v ∷ vs) s m =
      mark_all_revoked-keeps_user id vs (mark_revoked control now v s)
        (mark_revoked-keeps_user id v s m)

  pub revoke_user-UserMarked :
      (id : ℕ) (s : State store) → UserMarked id (revoke_user store now id now s)
  unfolding revoke_user
  revoke_user-UserMarked id s = rw entry-set_self (ground arith)

  pub revoke_access_token-TokenMarked :
      (jti : ℕ) (s : State store)
      → TokenMarked jti (revoke_access_token store now jti access_ttl_seconds s)
  unfolding revoke_access_token
  revoke_access_token-TokenMarked jti s = rw entry-set_self (ground arith)

  -- What the markers mean to whoever asks later.
  pub family_is_revoked-marked :
      (later id : ℕ) (s : State store)
      → now ≤ later
      → FamilyMarked id s
      → later < now + refresh_family_seconds * second
      → family_is_revoked store later id s ≡ true
  unfolding family_is_revoked
  family_is_revoked-marked later id s le m lt =
      ground (arith, store.client.entry_later now later (family_key id) s le)

  pub access_token_is_revoked-marked :
      (later jti : ℕ) (s : State store)
      → now ≤ later
      → TokenMarked jti s
      → later < now + access_ttl_seconds * second
      → access_token_is_revoked store later jti s ≡ true
  unfolding access_token_is_revoked
  access_token_is_revoked-marked later jti s le m lt =
      ground (arith, store.client.entry_later now later (jti_key jti) s le)

  pub user_revoked_at-marked :
      (later id : ℕ) (s : State store)
      → now ≤ later
      → UserMarked id s
      → later < now + 2_592_000 * second
      → user_revoked_at store later id s ≡ some (now / second * second)
  unfolding user_revoked_at
  user_revoked_at-marked later id s le m lt =
      ground (arith, store.client.entry_later now later (user_key id) s le)
