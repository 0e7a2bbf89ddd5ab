-- ===== src/Security/Limits.antt =====
-- Rate limits and locks of infrastructure/redis_security.py: fixed windows, counted exactly.
use auth_core.Prelude.{
  ℕ, suc, ◌+◌, ◌*◌, ◌≤◌, ◌<◌, ◌≡◌, refl, String, none, some, List, [], ◌∷◌, arith, ltb, length,
}
use auth_core.Redis.{KeyName, lasting, integer, second}
use auth_core.Redis.Laws.{entry-incr_self, entry-expire_self, entry-set_self}
use auth_core.Security.{
  RedisSecurityStore, State, increment_rate_limit, lock_login, login_is_locked,
}
use auth_core.Security.Scripts.{rate_limit_script}
use auth_core.Security.Keys.{Subject}
use auth_core.Security.Keys

-- `count_up n k` is n, n + 1, …, k numbers.
abbrev pub count_up : ℕ → ℕ → List ℕ
count_up n Prim.Native.Nat.zero = []
count_up n (suc k) = n ∷ count_up (n + 1) k

module _ (store : RedisSecurityStore) (route : String) (subject : Subject) (window : ℕ) where
  -- The counts that a run of attempts is answered with.
  abbrev pub replies : List ℕ → State store → List ℕ
  replies [] s = []
  replies (t ∷ ts) s =
      let (n, s') = increment_rate_limit store t route subject window s in n ∷ replies ts s'

  -- The attempts come one after the other, from a time on and before an end.
  abbrev pub Within : ℕ → ℕ → List ℕ → Type 0
  Within now until [] = Unit
  Within now until (t ∷ ts) = (now ≤ t) × (t < until) × Within t until ts

  abbrev pub key : KeyName
  key = (Keys.rate_limit store.opaque route subject window).name

  entry-increment :
      (t n until : ℕ) (s : State store)
      → 0 < n
      → t < until
      → store.client.entry t key s ≡ some (lasting (integer n) until)
      → ((increment_rate_limit store t route subject window s).0 ≡ n + 1)
        × (store.client.entry t key (increment_rate_limit store t route subject window s).1
            ≡ some (lasting (integer (n + 1)) until))
  unfolding increment_rate_limit rate_limit_script
  entry-increment t n until s pos lt e = ground (arith, entry-incr_self store.client t key s)

  entry-increment_first :
      (t : ℕ) (s : State store)
      → 0 < window
      → store.client.entry t key s ≡ none
      → ((increment_rate_limit store t route subject window s).0 ≡ 1)
        × (store.client.entry t key (increment_rate_limit store t route subject window s).1
            ≡ some (lasting (integer 1) (t + window * second)))
  unfolding increment_rate_limit rate_limit_script
  entry-increment_first t s pos e = ground (
    arith,
    entry-incr_self store.client t key s,
    entry-expire_self store.client t key (store.client.incr t key s) window,
  )

  entry_kept :
      (now t n until : ℕ) (s : State store)
      → now ≤ t
      → t < until
      → store.client.entry now key s ≡ some (lasting (integer n) until)
      → store.client.entry t key s ≡ some (lasting (integer n) until)
  entry_kept now t n until s le lt e = ground (arith, store.client.entry_later now t key s le)

  replies_from :
      (now n until : ℕ) (ts : List ℕ) (s : State store)
      → 0 < n
      → Within now until ts
      → now < until
      → store.client.entry now key s ≡ some (lasting (integer n) until)
      → replies ts s ≡ count_up (n + 1) (length ts)
  replies_from now n until [] s pos w lt e = refl
  replies_from now n until (t ∷ ts) s pos w lt e =
      let inc = entry-increment t n until s pos w.1 (entry_kept now t n until s w.0 w.1 e) in
      let s' = (increment_rate_limit store t route subject window s).1 in
      rw (inc.0, replies_from t (n + 1) until ts s' (omega arith) w.2 w.1 inc.1)

  -- From a state with no count, the attempts of one window are answered 1, 2, 3, …
  pub rate_limit_counts :
      (now : ℕ) (ts : List ℕ) (s : State store)
      → 0 < window
      → store.client.entry now key s ≡ none
      → Within now (now + window * second) ts
      → replies (now ∷ ts) s ≡ count_up 1 (suc (length ts))
  rate_limit_counts now ts s pos e w =
      let first = entry-increment_first now s pos e in
      let s' = (increment_rate_limit store now route subject window s).1 in
      rw (
        first.0,
        replies_from now 1 (now + window * second) ts s' (omega arith) w (omega arith) first.1,
      )

  -- A window of positive length that began with a first attempt is forgotten when it is over: the
  -- next attempt, at its end or later, is answered 1.
  pub rate_limit_restarts :
      (now later : ℕ) (s : State store)
      → 0 < window
      → store.client.entry now key s ≡ none
      → now + window * second ≤ later
      → (increment_rate_limit store later route subject window
          (increment_rate_limit store now route subject window s).1).0
        ≡ 1
  rate_limit_restarts now later s pos e le =
      let s' = (increment_rate_limit store now route subject window s).1 in
      let first = entry-increment_first now s pos e in
      (entry-increment_first later s' pos
        (ground (arith, store.client.entry_later now later key s' (omega arith), first.1))).0

-- A login lock stands for 900 seconds from when it is set, and no longer.
pub login_lock_lifetime :
    (store : RedisSecurityStore) (now later : ℕ) (subject : String) (s : State store)
    → now ≤ later
    → login_is_locked store later subject (lock_login store now subject s)
      ≡ ltb later (now + 900 * second)
unfolding login_is_locked lock_login
login_lock_lifetime store now later subject s le =
    let k = (Keys.login_lock store.opaque subject).name in
    let s' = lock_login store now subject s in
    ground (
      arith,
      store.client.entry_later now later k s' le,
      entry-set_self store.client now k s (integer 1) 900,
    )
