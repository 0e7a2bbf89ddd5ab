-- ===== src/Persistence/MfaLaws/Strong.antt =====
-- How many strong factors a user has, before and after one is revoked.
use auth_core.Prelude.{
  ℕ, ◌+◌, ◌≤◌, ◌≡◌, refl, sym, subst, Bool, true, false, ◌&&◌, some, List, [], ◌∷◌, map, arith,
  ◌==◌, leb, length, rows_where, find_row, update_where, Bool-cases, inl, inr,
}
use auth_core.Prelude.Rows.{find_row_holds}
use auth_core.Persistence.Tables.{Database, MfaDevice, FactorType}
use auth_core.Persistence.LoginRepository.{is_active_factor}
use auth_core.Persistence.MfaRepository.{
  MfaFactor, factor_of, is_active_of, active_factors, revoke_factor, revoked_at_time,
}

module _ {A : Type 0} (p w : A → Bool) where
  -- An update takes a test away from the rows that it reaches at most.
  count-update_where :
      (f : A → A) (xs : List A)
      → length (rows_where p xs)
        ≤ length (rows_where p (update_where w f xs)) + length (rows_where (λ x. p x && w x) xs)
  count-update_where f [] = omega arith
  count-update_where f (x ∷ xs) = ground (arith, count-update_where f xs)

  count_both : (xs : List A) → length (rows_where (λ x. p x && w x) xs) ≤ length (rows_where w xs)
  count_both [] = omega arith
  count_both (x ∷ xs) = ground (arith, count_both xs)

  -- A row that passes the one test and not the other.
  count_one_less :
      (q : A → Bool)
      → ((x : A) → q x ≡ true → w x ≡ true)
      → (xs : List A) (d : A) → find_row q xs ≡ some d
      → p d ≡ false
      → length (rows_where (λ x. p x && w x) xs) + 1 ≤ length (rows_where w xs)
  count_one_less q imp [] d e weak = absurd (ground arith)
  count_one_less q imp (x ∷ xs) d e weak = elim (Bool-cases (q x)) [
    | inl hit ↦ ground (arith, imp x, count_both xs)
    | inr miss ↦ ground (arith, count_one_less q imp xs d)
  ]

rows_where-map :
    {A B : Type 0} (f : A → B) (q : A → Bool) (p : B → Bool) (xs : List A)
    → length (rows_where p (map f (rows_where q xs))) ≡ length (rows_where (λ x. p (f x) && q x) xs)
rows_where-map f q p [] = refl
rows_where-map f q p (x ∷ xs) = ground (arith, rows_where-map f q p xs)

and_false : (b : Bool) → (b && false) ≡ false
and_false true = refl
and_false false = refl

find_row-map :
    {A B : Type 0} (f : A → B) (q : A → Bool) (p : B → Bool) (xs : List A) (b : B)
    → find_row p (map f (rows_where q xs)) ≡ some b
    → (a : A) × (find_row (λ x. p (f x) && q x) xs ≡ some a) × (f a ≡ b)
find_row-map f q p [] b e = absurd (ground arith)
find_row-map f q p (x ∷ xs) b e = elim (Bool-cases (q x)) [
  | inl hit ↦ elim (Bool-cases (p (f x))) [
    | inl fits ↦ (x, rw (fits, hit) refl, ground arith)
    | inr not_ ↦ rw not_ (find_row-map f q p xs b (rw (hit, not_) at e))
  ]
  | inr miss ↦ rw (miss, and_false) (find_row-map f q p xs b (rw miss at e))
]

find_row_ext :
    {A : Type 0} (p q : A → Bool)
    → ((x : A) → p x ≡ q x)
    → (xs : List A) → find_row p xs ≡ find_row q xs
find_row_ext p q same [] = refl
find_row_ext p q same (x ∷ xs) = rw (same x, find_row_ext p q same xs) refl

-- `{"totp", "passkey"}`, as the control asks for it.
module _ (strong : FactorType → Bool) (user_id : ℕ) where
  abbrev pub strong_count : Database → ℕ
  strong_count db = length (rows_where (λ f. strong f.factor_type) (active_factors user_id db))

  abbrev strong_row : MfaDevice → Bool
  strong_row d = strong d.factor_type && is_active_of user_id d

  -- With the row of the factor, and its key.
  revoked-keeps_strong :
      (now mfa_id : ℕ) (xs : List MfaDevice) (d : MfaDevice)
      → length (rows_where (λ x. x.mfa_id == mfa_id) xs) ≤ 1
      → find_row (λ x. x.mfa_id == mfa_id && is_active_of user_id x) xs ≡ some d
      → 1 ≤ length (rows_where strong_row xs)
      → (strong d.factor_type && leb (length (rows_where strong_row xs)) 1) ≡ false
      → 1
        ≤ length (
            rows_where strong_row (update_where (λ x. x.mfa_id == mfa_id) (revoked_at_time now) xs))
  revoked-keeps_strong now id xs d single found some_ guard =
      let w : MfaDevice → Bool = λ x. x.mfa_id == id in
      let fewer = count-update_where strong_row w (revoked_at_time now) xs in
      let both = count_both strong_row w xs in
      elim (Bool-cases (strong d.factor_type)) [
        | inl is_strong ↦ ground (arith, fewer, both, rw is_strong at guard)
        | inr weak ↦
            let q : MfaDevice → Bool = λ x. x.mfa_id == id && is_active_of user_id x in
            let less =
              count_one_less strong_row w q (λ x h. ground arith) xs d found (rw weak refl) in
            omega (arith, fewer, less)
      ]

  -- Let the user have an active factor with a key that no two rows share. If it is not strong, or the
  -- user has a second strong one, then its removal leaves one.
  pub revoke_factor-keeps_strong :
      (now mfa_id : ℕ) (db : Database) (target : MfaFactor)
      → length (rows_where (λ d. d.mfa_id == mfa_id) db.mfa_devices) ≤ 1
      → find_row (λ f. f.mfa_id == mfa_id) (active_factors user_id db) ≡ some target
      → 1 ≤ strong_count db
      → (strong target.factor_type && leb (strong_count db) 1) ≡ false
      → 1 ≤ strong_count (revoke_factor now user_id mfa_id db).1
  unfolding active_factors revoke_factor
  revoke_factor-keeps_strong now id db target single found some_ guard =
      let xs = db.mfa_devices in
      let (d, at_d, same) =
        find_row-map factor_of (is_active_of user_id) (λ f. f.mfa_id == id) xs target found in
      let before = rows_where-map factor_of (is_active_of user_id) (λ f. strong f.factor_type) xs in
      let looked =
        find_row_ext (λ x. x.user_id == user_id && x.mfa_id == id && is_active_factor x.status)
          (λ x. x.mfa_id == id && is_active_of user_id x) (λ x. ground arith) xs in
      let key : d.mfa_id ≡ id =
        ground (arith, find_row_holds (λ x. x.mfa_id == id && is_active_of user_id x) xs d at_d) in
      let ys = update_where (λ x. x.mfa_id == id) (revoked_at_time now) xs in
      let after = rows_where-map factor_of (is_active_of user_id) (λ f. strong f.factor_type) ys in
      let kept = revoked-keeps_strong now id xs d single at_d (subst (λ n. 1 ≤ n) before some_) (
        subst (λ t. (strong t.factor_type && leb (length (rows_where strong_row xs)) 1) ≡ false)
          (sym same) (subst (λ n. (strong target.factor_type && leb n 1) ≡ false) before guard)) in
      rw (looked, at_d, key, after) kept
