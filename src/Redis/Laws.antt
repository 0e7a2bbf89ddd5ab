-- ===== src/Redis/Laws.antt =====
-- What a command does at its own key, and what time does to an entry.
use auth_core.Prelude.{ℕ, ◌+◌, ◌*◌, ◌≡◌, refl, true, none, some, List, [], ◌∷◌, eq_iff, ==-refl}
use auth_core.Redis.{
  Redis, KeyName, same_name, same_digests, Fields, Value, live, lasting, second, incremented,
  expiring, with_fields, attempted,
}

same_digests_refl : (ds : List ℕ) → same_digests ds ds ≡ true
same_digests_refl [] = refl
same_digests_refl (d ∷ ds) = rw ==-refl (same_digests_refl ds)

pub same_name_refl : (k : KeyName) → same_name k k ≡ true
same_name_refl k = rw ((eq_iff k.template k.template).1 refl) (same_digests_refl k.digests)

module _ (client : Redis) (now : ℕ) (k : KeyName) (s : client.State) where
  pub entry-set_self :
      (v : Value) (ex : ℕ)
      → client.entry now k (client.set now k v ex s)
        ≡ live now (some (lasting v (now + ex * second)))
  entry-set_self v ex = rw (client.entry_set, same_name_refl)

  pub entry-delete_self : client.entry now k (client.delete k s) ≡ none
  entry-delete_self = rw (client.entry_delete, same_name_refl)

  pub entry-incr_self :
      client.entry now k (client.incr now k s) ≡ some (incremented (client.entry now k s))
  entry-incr_self = rw (client.entry_incr, same_name_refl)

  pub entry-expire_self :
      (seconds : ℕ)
      → client.entry now k (client.expire now k seconds s)
        ≡ live now (expiring (now + seconds * second) (client.entry now k s))
  entry-expire_self seconds = rw (client.entry_expire, same_name_refl)

  pub entry-hset_self :
      (f : Fields)
      → client.entry now k (client.hset now k f s) ≡ some (with_fields f (client.entry now k s))
  entry-hset_self f = rw (client.entry_hset, same_name_refl)

  pub entry-hincrby_self :
      client.entry now k (client.hincrby_attempts now k s) ≡ some (attempted (client.entry now k s))
  entry-hincrby_self = rw (client.entry_hincrby_attempts, same_name_refl)
