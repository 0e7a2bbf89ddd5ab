-- ===== src/Providers/Cipher.antt =====
-- infrastructure/security/secrets.py: `LocalAESGCMSecretCipher`. AES-GCM of `cryptography` is a
-- parameter: it adds a tag of 16 bytes, gives back what it encrypted, and fails by `InvalidTag`.
use auth_core.Prelude.{
  ℕ, suc, ◌+◌, ◌≤◌, ◌≡◌, refl, ap, subst, Bool, true, false, not, ◌||◌, Option, none, some, List,
  [], ◌∷◌, ◌++◌, arith, ◌==◌, ltb, if◌then◌else◌, length, take, drop,
}

pub record AesGcm : Type 0 where
  pub seal : List ℕ → List ℕ → List ℕ → List ℕ
  pub unseal : List ℕ → List ℕ → List ℕ → Option (List ℕ)
  pub length_seal :
      (nonce plaintext associated_data : List ℕ)
      → length (seal nonce plaintext associated_data) ≡ length plaintext + 16
  pub unseal_seal :
      (nonce plaintext associated_data : List ℕ)
      → unseal nonce (seal nonce plaintext associated_data) associated_data ≡ some plaintext

-- `VERSION`
abbrev pub version : List ℕ
version = 1 ∷ []

-- `ciphertext[:1] != self.VERSION`
abbrev pub has_version : List ℕ → Bool
has_version [] = false
has_version (b ∷ bs) = b == 1

take-append : {A : Type 0} (xs ys : List A) → take (length xs) (xs ++ ys) ≡ xs
take-append [] ys = refl
take-append (x ∷ xs) ys = ap (λ r. x ∷ r) (take-append xs ys)

drop-append : {A : Type 0} (xs ys : List A) → drop (length xs) (xs ++ ys) ≡ ys
drop-append [] ys = refl
drop-append (x ∷ xs) ys = drop-append xs ys

length-append : {A : Type 0} (xs ys : List A) → length (xs ++ ys) ≡ length xs + length ys
length-append [] ys = omega arith
length-append (x ∷ xs) ys = ground (arith, length-append xs ys)

module _ (aes : AesGcm) where
  -- With the 12 bytes of the nonce that it draws.
  unfoldable pub encrypt : List ℕ → List ℕ → List ℕ → List ℕ
  encrypt nonce plaintext associated_data =
      version ++ (nonce ++ aes.seal nonce plaintext associated_data)

  -- None where it raises.
  unfoldable pub decrypt : List ℕ → List ℕ → Option (List ℕ)
  decrypt ciphertext associated_data =
      if ltb (length ciphertext) 30 || not (has_version ciphertext)
      then none
      else aes.unseal (take 12 (drop 1 ciphertext)) (drop 13 ciphertext) associated_data

  -- What was encrypted with a nonce of 12 bytes is decrypted with the same associated data, if it is
  -- not empty.
  pub decrypt-encrypt :
      (nonce plaintext associated_data : List ℕ)
      → length nonce ≡ 12
      → 1 ≤ length plaintext
      → decrypt (encrypt nonce plaintext associated_data) associated_data ≡ some plaintext
  unfolding encrypt decrypt
  decrypt-encrypt nonce plaintext ad twelve full =
      let body = aes.seal nonce plaintext ad in
      let size = length-append nonce body in
      let sealed = aes.length_seal nonce plaintext ad in
      let long : ltb (suc (length (nonce ++ body))) 30 ≡ false = ground (arith, size, sealed) in
      let taken : take 12 (nonce ++ body) ≡ nonce =
        subst (λ n. take n (nonce ++ body) ≡ nonce) twelve (take-append nonce body) in
      let dropped : drop 12 (nonce ++ body) ≡ body =
        subst (λ n. drop n (nonce ++ body) ≡ body) twelve (drop-append nonce body) in
      rw (long, taken, dropped) (aes.unseal_seal nonce plaintext ad)

  -- The empty text is encrypted, but what comes out is too short for its own decryption.
  pub decrypt-encrypt_empty :
      (nonce associated_data : List ℕ)
      → length nonce ≡ 12
      → decrypt (encrypt nonce [] associated_data) associated_data ≡ none
  unfolding encrypt decrypt
  decrypt-encrypt_empty nonce ad twelve =
      let body = aes.seal nonce [] ad in
      let size = length-append nonce body in
      let sealed = aes.length_seal nonce [] ad in
      let short : ltb (suc (length (nonce ++ body))) 30 ≡ true = ground (arith, size, sealed) in
      rw short refl
