-- ===== src/Redis/Stored.antt =====
-- Key names and stored values, as the commands of infrastructure/redis_security.py shape them.
use auth_core.Prelude.{
  ℕ, ◌+◌, String, Bool, true, false, ◌&&◌, Option, none, some, List, [], ◌∷◌, ◌==◌, ltb, str_eq,
  if◌then◌else◌,
}
use auth_core.Entity.Json.{Members}

-- Microseconds.
abbrev pub second : ℕ
second = 1_000_000

-- An f-string of the key factory: its literal parts, and the digests that fill its places.
pub record KeyName : Type 0 where
  pub template : String
  pub digests : List ℕ

abbrev pub same_digests : List ℕ → List ℕ → Bool
same_digests [] [] = true
same_digests (a ∷ as') (b ∷ bs) = a == b && same_digests as' bs
same_digests _ _ = false

abbrev pub same_name : KeyName → KeyName → Bool
same_name a b = str_eq a.template b.template && same_digests a.digests b.digests

-- The hash fields of a one-time password.
pub record Fields : Type 0 where
  pub hash : Option ℕ
  pub attempts : ℕ

-- A decimal number, a JSON document, or a hash.
pub data Value : Type 0 where
  integer : ℕ → Value
  document : Members → Value
  fields : Fields → Value

pub record Entry : Type 0 where
  pub value : Value
  pub deadline : Option ℕ

abbrev pub lasting : Value → ℕ → Entry
lasting v until = record { value = v; deadline = some until }

abbrev pub passed : ℕ → Option ℕ → Bool
passed now none = false
passed now (some d) = if ltb now d then false else true

abbrev pub live : ℕ → Option Entry → Option Entry
live now none = none
live now (some e) = if passed now e.deadline then none else some e

abbrev pub deadline_of : Option Entry → Option ℕ
deadline_of none = none
deadline_of (some e) = e.deadline

abbrev pub counter_value : Value → ℕ
counter_value (integer n) = n
counter_value _ = 0

abbrev pub counter : Option Entry → ℕ
counter none = 0
counter (some e) = counter_value e.value

abbrev pub fields_value : Value → Fields
fields_value (fields f) = f
fields_value _ = record { hash = none; attempts = 0 }

abbrev pub fields_of : Option Entry → Fields
fields_of none = record { hash = none; attempts = 0 }
fields_of (some e) = fields_value e.value

abbrev pub incremented : Option Entry → Entry
incremented o = record { value = integer (counter o + 1); deadline = deadline_of o }

abbrev pub expiring : ℕ → Option Entry → Option Entry
expiring until none = none
expiring until (some e) = some (lasting e.value until)

abbrev pub with_fields : Fields → Option Entry → Entry
with_fields f o = record { value = fields f; deadline = deadline_of o }

abbrev pub attempted : Option Entry → Entry
attempted o =
    let f = fields_of o in with_fields (record { hash = f.hash; attempts = f.attempts + 1 }) o
