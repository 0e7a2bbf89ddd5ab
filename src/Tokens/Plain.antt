-- ===== src/Tokens/Plain.antt =====
-- Tokens that are not signed: they show that what is asked of `Jwt` can hold.
use auth_core.Prelude.{
  ℕ, ◌*◌, ◌≤◌, ◌<◌, ◌≡◌, String, ◌&&◌, Option, none, some, arith, leb, ltb, str_eq, eq_iff,
  if◌then◌else◌,
}
use auth_core.Redis.{second}
use auth_core.Tokens.{Payload, Jwt}

abbrev plain_decode : String → String → ℕ → Payload → Option Payload
plain_decode issuer audience now p =
    if str_eq p.iss issuer
      && str_eq p.aud audience
      && leb (p.nbf * second) now
      && ltb now (p.exp * second)
    then some p
    else none

pub plain_decode_encode :
    (issuer audience : String) (now : ℕ) (p : Payload)
    → p.iss ≡ issuer
    → p.aud ≡ audience
    → p.nbf * second ≤ now
    → now < p.exp * second
    → plain_decode issuer audience now p ≡ some p
plain_decode_encode issuer audience now p ei ea le lt =
    ground (arith, eq_iff p.iss issuer, eq_iff p.aud audience)

pub plain_decode_expired :
    (issuer audience : String) (now : ℕ) (p : Payload)
    → p.exp * second ≤ now
    → plain_decode issuer audience now p ≡ none
plain_decode_expired issuer audience now p le = ground arith

abbrev pub plain : Jwt
plain = record {
  Token = Payload;
  encode = λ p. p;
  decode = plain_decode;
  decode_encode = plain_decode_encode;
  decode_expired = plain_decode_expired;
}
