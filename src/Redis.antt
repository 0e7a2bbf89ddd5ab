-- ===== src/Redis.antt =====
-- The Redis server that infrastructure/redis_security.py calls: a parameter, with the documented
-- effect of each command on what is stored. Times are microseconds; an entry is gone at its deadline.
pub mod Memory
pub mod Laws
pub mod Stored
pub use Stored.*
use auth_core.Prelude.{ℕ, ◌+◌, ◌*◌, ◌≤◌, ◌≡◌, Option, none, some, if◌then◌else◌}

pub record Redis : Type 1 where
  pub State : Type 0
  -- What is stored under a name at a time.
  pub entry : ℕ → KeyName → State → Option Entry
  pub set : ℕ → KeyName → Value → ℕ → State → State
  pub delete : KeyName → State → State
  pub incr : ℕ → KeyName → State → State
  pub expire : ℕ → KeyName → ℕ → State → State
  pub hset : ℕ → KeyName → Fields → State → State
  pub hincrby_attempts : ℕ → KeyName → State → State
  pub entry_later :
      (now later : ℕ) (k : KeyName) (s : State)
      → now ≤ later
      → entry later k s ≡ live later (entry now k s)
  -- SET key value EX seconds
  pub entry_set :
      (now : ℕ) (k j : KeyName) (v : Value) (ex : ℕ) (s : State)
      → entry now j (set now k v ex s)
        ≡ (if same_name k j then live now (some (lasting v (now + ex * second))) else entry now j s)
  -- DEL key
  pub entry_delete :
      (now : ℕ) (k j : KeyName) (s : State)
      → entry now j (delete k s) ≡ (if same_name k j then none else entry now j s)
  -- INCR key: a missing key counts from 0, a time to live stays.
  pub entry_incr :
      (now : ℕ) (k j : KeyName) (s : State)
      → entry now j (incr now k s)
        ≡ (if same_name k j then some (incremented (entry now k s)) else entry now j s)
  -- EXPIRE key seconds
  pub entry_expire :
      (now : ℕ) (k j : KeyName) (seconds : ℕ) (s : State)
      → entry now j (expire now k seconds s) ≡ (
          if same_name k j
          then live now (expiring (now + seconds * second) (entry now k s))
          else entry now j s)
  -- HSET key hash .. attempts ..: a time to live stays.
  pub entry_hset :
      (now : ℕ) (k j : KeyName) (f : Fields) (s : State)
      → entry now j (hset now k f s)
        ≡ (if same_name k j then some (with_fields f (entry now k s)) else entry now j s)
  -- HINCRBY key attempts 1
  pub entry_hincrby_attempts :
      (now : ℕ) (k j : KeyName) (s : State)
      → entry now j (hincrby_attempts now k s)
        ≡ (if same_name k j then some (attempted (entry now k s)) else entry now j s)
