-- ===== src/Entity/Json.antt =====
-- The JSON documents that workflows are stored as. A text that spells a UUID is `uuid`.
use auth_core.Prelude.{ℕ, String, Bool, Option, none, some, List, str_eq, if◌then◌else◌}

mutual
  pub data Json : Type 0 where
    text : String → Json
    uuid : ℕ → Json
    number : ℕ → Json
    flag : Bool → Json
    texts : List String → Json
    object : Members → Json

  pub data Members : Type 0 where
    end : Members
    member : String → Json → Members → Members

-- `payload.get(name)`
abbrev pub get : String → Members → Option Json
get name end = none
get name (member n v rest) = let found = get name rest in if str_eq n name then some v else found
