-- ===== src/Redis/Memory.antt =====
-- A server in memory: what is stored as a function of the name. It shows that the laws of `Redis`
-- can hold, and lets the operations run.
use auth_core.Prelude.{
  ℕ, ◌+◌, ◌*◌, ◌≤◌, ◌≡◌, refl, Option, none, some, arith, if◌then◌else◌, Bool-cases, inl, inr,
}
use auth_core.Redis.{
  Redis, KeyName, same_name, Entry, live, second, lasting, Value, incremented, expiring,
  with_fields, attempted, deadline_of,
}

abbrev Contents : Type 0
Contents = KeyName → Option Entry

abbrev entry : ℕ → KeyName → Contents → Option Entry
entry now k s = live now (s k)

abbrev put : KeyName → Option Entry → Contents → Contents
put k o s j = if same_name k j then o else s j

pub entry_put :
    (now : ℕ) (k j : KeyName) (o : Option Entry) (s : Contents)
    → entry now j (put k o s) ≡ (if same_name k j then live now o else entry now j s)
entry_put now k j o s = elim (Bool-cases (same_name k j)) [
  | inl same ↦ rw same
  | inr other ↦ rw other
]

-- A write that keeps the deadline of a live entry is itself live.
live_kept :
    (now : ℕ) (o : Option Entry) (v : Value)
    → live now (some (record { value = v; deadline = deadline_of (live now o) }))
      ≡ some (record { value = v; deadline = deadline_of (live now o) })
live_kept now none v = refl
live_kept now (some e) v = ground arith

pub entry_later :
    (now later : ℕ) (k : KeyName) (s : Contents)
    → now ≤ later
    → entry later k s ≡ live later (entry now k s)
entry_later now later k s h = ground arith

pub entry_put_kept :
    (now : ℕ) (k j : KeyName) (v : Value) (s : Contents)
    → entry now j (put k (some (record { value = v; deadline = deadline_of (entry now k s) })) s)
      ≡ (if same_name k j
          then some (record { value = v; deadline = deadline_of (entry now k s) })
          else entry now j s)
entry_put_kept now k j v s = rw entry_put (rw (live_kept now (s k) v))

abbrev pub memory : Redis
memory = record {
  State = Contents;
  entry = entry;
  set = λ now k v ex. put k (some (lasting v (now + ex * second)));
  delete = λ k. put k none;
  incr = λ now k s. put k (some (incremented (entry now k s))) s;
  expire = λ now k seconds s. put k (expiring (now + seconds * second) (entry now k s)) s;
  hset = λ now k f s. put k (some (with_fields f (entry now k s))) s;
  hincrby_attempts = λ now k s. put k (some (attempted (entry now k s))) s;
  entry_later = entry_later;
  entry_set = λ now k j v ex s. entry_put now k j _ s;
  entry_delete = λ now k j s. entry_put now k j none s;
  entry_incr = λ now k j s. entry_put_kept now k j _ s;
  entry_expire = λ now k j seconds s. entry_put now k j _ s;
  entry_hset = λ now k j f s. entry_put_kept now k j _ s;
  entry_hincrby_attempts = λ now k j s. entry_put_kept now k j _ s;
}

-- A server that holds nothing.
abbrev pub nothing : Contents
nothing k = none
