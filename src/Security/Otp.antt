-- ===== src/Security/Otp.antt =====
-- One-time passwords: what an attacker who guesses can reach, over any sequence of guesses in time.
use auth_core.Prelude.{
  ℕ, suc, ◌+◌, ◌*◌, ◌≤◌, ◌<◌, ◌≡◌, ◌≢◌, refl, String, Option, none, some, List, [], ◌∷◌, arith, ◌⊎◌,
  inl, inr, if◌then◌else◌, ltb, length,
}
use auth_core.Redis.{Redis, KeyName, Entry, live, lasting, fields, second, fields_of}
use auth_core.Redis.Laws.{entry-delete_self, entry-hincrby_self, entry-expire_self, entry-hset_self}
use auth_core.Security.{RedisSecurityStore, State, verify_and_consume_otp, store_otp_hash}
use auth_core.Security.Scripts.{missing, accepted, verify_otp_script}
use auth_core.Security.Keys
use native.Mathlib.Nat.{add-zero}

-- A candidate's digest, presented at a time.
pub record Guess : Type 0 where
  pub at : ℕ
  pub candidate : ℕ

-- The code `h` is gone, or it has seen at least `n` failures and fewer than the limit.
abbrev Spent : ℕ → ℕ → ℕ → Option Entry → Type 0
Spent h n limit e =
    ((fields_of e).hash ≡ none)
    ⊎ (((fields_of e).hash ≡ some h)
        × (n ≤ (fields_of e).attempts)
        × ((fields_of e).attempts < limit))

Spent-live : (h n limit t : ℕ) (e : Option Entry) → Spent h n limit e → Spent h n limit (live t e)
Spent-live h n limit t none sp = inl refl
Spent-live h n limit t (some e) sp = ground arith

module _ (client : Redis) (k : KeyName) where
  Spent-later :
      (h n limit now later : ℕ) (s : client.State)
      → now ≤ later
      → Spent h n limit (client.entry now k s)
      → Spent h n limit (client.entry later k s)
  Spent-later h n limit now later s le sp =
      rw (client.entry_later now later k s le)
        (Spent-live h n limit later (client.entry now k s) sp)

  Spent-refused :
      (h n limit now c : ℕ) (s : client.State)
      → c ≢ h
      → Spent h n limit (client.entry now k s)
      → Spent h (n + 1) limit (client.entry now k (verify_otp_script client now k c limit s).1)
  unfolding verify_otp_script
  Spent-refused h n limit now c s ne sp = ground (
    arith,
    entry-hincrby_self client now k s,
    entry-delete_self client now k (client.hincrby_attempts now k s),
  )

module _ (store : RedisSecurityStore) (user_id : ℕ) (purpose : String) (limit : ℕ) where
  -- The server after a run of guesses, and the replies.
  abbrev pub after_guesses : List Guess → State store → State store
  after_guesses [] s = s
  after_guesses (g ∷ gs) s =
      after_guesses gs (verify_and_consume_otp store g.at user_id purpose g.candidate limit s).1

  -- The guesses come one after the other, from a time on, and none is the digest `h`.
  abbrev pub WrongFrom : ℕ → ℕ → List Guess → Type 0
  WrongFrom h now [] = Unit
  WrongFrom h now (g ∷ gs) = (now ≤ g.at) × (g.candidate ≢ h) × WrongFrom h g.at gs

  abbrev pub last_at : ℕ → List Guess → ℕ
  last_at now [] = now
  last_at now (g ∷ gs) = last_at g.at gs

  abbrev key : KeyName
  key = (Keys.otp store.opaque user_id purpose).name

  Spent-after_guesses :
      (h n now : ℕ) (gs : List Guess) (s : State store)
      → WrongFrom h now gs
      → Spent h n limit (store.client.entry now key s)
      → Spent h (n + length gs) limit (store.client.entry (last_at now gs) key (after_guesses gs s))
  Spent-after_guesses h n now [] s wrong sp = rw add-zero sp
  Spent-after_guesses h n now (g ∷ gs) s wrong sp = rw suc_shift (
      Spent-after_guesses h (n + 1) g.at gs
        (verify_and_consume_otp store g.at user_id purpose g.candidate limit s).1 wrong.2
        (unfold verify_and_consume_otp in
          Spent-refused store.client key h n limit g.at g.candidate s wrong.1
            (Spent-later store.client key h n limit now g.at s wrong.0 sp)))
    where
      suc_shift : n + suc (length gs) ≡ n + 1 + length gs
      suc_shift = omega arith

  entry-store :
      (h now : ℕ) (s : State store)
      → store.client.entry now key (store_otp_hash store now user_id purpose h s)
        ≡ some (lasting (fields (record { hash = some h; attempts = 0 })) (now + 180 * second))
  unfolding store_otp_hash
  entry-store h now s = ground (
    arith,
    entry-expire_self store.client now key
        (store.client.hset now key (record { hash = some h; attempts = 0 }) s) 180,
    entry-hset_self store.client now key s (record { hash = some h; attempts = 0 }),
  )

  Spent-store :
      (h now : ℕ) (s : State store)
      → 0 < limit
      → Spent h 0 limit (store.client.entry now key (store_otp_hash store now user_id purpose h s))
  Spent-store h now s pos = rw entry-store (inr (refl, omega arith, pos))

  missing_of_no_hash :
      (now c : ℕ) (s : State store)
      → (fields_of (store.client.entry now key s)).hash ≡ none
      → (verify_and_consume_otp store now user_id purpose c limit s).0 ≡ missing
  unfolding verify_and_consume_otp verify_otp_script
  missing_of_no_hash now c s e = ground arith

  no_hash_of_Spent :
      (h n : ℕ) (e : Option Entry) → Spent h n limit e → limit ≤ n → (fields_of e).hash ≡ none
  no_hash_of_Spent h n e sp le = ground arith

  -- Let as many wrong guesses as a positive limit, or more, follow the storing of a code, at any times
  -- that do not go back. From then on every candidate is answered as missing, the right one too.
  pub guesses_exhaust_otp :
      (h now later c : ℕ) (gs : List Guess) (s : State store)
      → 0 < limit
      → WrongFrom h now gs
      → limit ≤ length gs
      → last_at now gs ≤ later
      → (verify_and_consume_otp store later user_id purpose c limit
          (after_guesses gs (store_otp_hash store now user_id purpose h s))).0
        ≡ missing
  guesses_exhaust_otp h now later c gs s pos wrong enough le =
      missing_of_no_hash later c (after_guesses gs fresh) (
        no_hash_of_Spent h (0 + length gs) (store.client.entry later key (after_guesses gs fresh))
          (Spent-later store.client key h (0 + length gs) limit (last_at now gs) later
            (after_guesses gs fresh) le
            (Spent-after_guesses h 0 now gs fresh wrong (Spent-store h now s pos)))
          (omega arith))
    where
      fresh : State store
      fresh = store_otp_hash store now user_id purpose h s

  -- A stored code is accepted until 180 seconds have passed, and is missing from then on.
  pub otp_lifetime :
      (h now later : ℕ) (s : State store)
      → now ≤ later
      → (verify_and_consume_otp store later user_id purpose h limit
          (store_otp_hash store now user_id purpose h s)).0
        ≡ (if ltb later (now + 180 * second) then accepted else missing)
  unfolding verify_and_consume_otp verify_otp_script
  otp_lifetime h now later s le =
      let fresh = store_otp_hash store now user_id purpose h s in
      ground (arith, store.client.entry_later now later key fresh le, entry-store h now s)

  entry-accepted :
      (now h : ℕ) (s : State store)
      → (verify_and_consume_otp store now user_id purpose h limit s).0 ≡ accepted
      → store.client.entry now key (verify_and_consume_otp store now user_id purpose h limit s).1
        ≡ none
  unfolding verify_and_consume_otp verify_otp_script
  entry-accepted now h s acc = ground (arith, entry-delete_self store.client now key s)

  -- An accepted code is spent: whatever is presented next, then or later, is answered as missing.
  pub otp_single_use :
      (now later h c : ℕ) (s : State store)
      → now ≤ later
      → (verify_and_consume_otp store now user_id purpose h limit s).0 ≡ accepted
      → (verify_and_consume_otp store later user_id purpose c limit
          (verify_and_consume_otp store now user_id purpose h limit s).1).0
        ≡ missing
  otp_single_use now later h c s le acc =
      let s' = (verify_and_consume_otp store now user_id purpose h limit s).1 in
      missing_of_no_hash later c s'
        (ground (arith, store.client.entry_later now later key s' le, entry-accepted now h s acc))
