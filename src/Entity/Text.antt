-- ===== src/Entity/Text.antt =====
-- The texts that the controls check: phone numbers, six-digit codes, passwords. Which code points are
-- decimal digits or white space in Python's `re` is a parameter.
use auth_core.Prelude.{
  ℕ, suc, String, Bool, true, false, ◌&&◌, ◌||◌, Option, none, some, leb, ◌==◌, if◌then◌else◌,
}
use Prim.Native.Char.{code}

pub record CharacterClasses : Type 0 where
  pub is_space : ℕ → Bool
  pub is_decimal : ℕ → Bool

-- `len(text)`
abbrev pub text_length : String → ℕ
text_length String.[] = 0
text_length (String.◌∷◌ c s) = suc (text_length s)

-- `a + b`
abbrev pub text_append : String → String → String
text_append String.[] t = t
text_append (String.◌∷◌ c s) t = String.◌∷◌ c (text_append s t)

module _ (classes : CharacterClasses) where
  -- `[\s()-]`
  abbrev pub is_filler : ℕ → Bool
  is_filler c = classes.is_space c || c == b'(' || c == b')' || c == b'-'

  -- `re.sub(r"[\s()-]", "", phone)`
  abbrev pub without_filler : String → String
  without_filler String.[] = String.[]
  without_filler (String.◌∷◌ c s) =
      let rest = without_filler s in if is_filler (code c) then rest else String.◌∷◌ c rest

  abbrev pub all_decimal : String → Bool
  all_decimal String.[] = true
  all_decimal (String.◌∷◌ c s) = classes.is_decimal (code c) && all_decimal s

  -- `^\d{6}$`
  abbrev pub is_six_digits : String → Bool
  is_six_digits s = text_length s == 6 && all_decimal s

  -- `[1-9]\d{7,14}`
  abbrev is_number : String → Bool
  is_number String.[] = false
  is_number (String.◌∷◌ c s) =
      leb b'1' (code c)
      && leb (code c) b'9'
      && leb 7 (text_length s)
      && leb (text_length s) 14
      && all_decimal s

  -- `^\+[1-9]\d{7,14}$`
  abbrev pub is_phone : String → Bool
  is_phone String.[] = false
  is_phone (String.◌∷◌ c s) = code c == b'+' && is_number s

  -- `_normalize_phone`, none where it raises
  unfoldable pub normalize_phone : String → Option String
  normalize_phone phone =
      let normalized = without_filler phone in if is_phone normalized then some normalized else none
