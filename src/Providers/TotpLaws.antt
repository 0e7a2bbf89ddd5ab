-- ===== src/Providers/TotpLaws.antt =====
-- Which step the verification of a one-time password accepts.
use auth_core.Prelude.{
  ℕ, ◌+◌, ◌-◌, ◌≤◌, ◌<◌, ◌≡◌, ◌↔◌, refl, sym, subst, String, Bool, true, false, Option, none, some,
  List, arith, Bool-cases, inl, inr, ◌==◌, ltb, ap,
}
use auth_core.Providers.Totp.{Pyotp, verify, is_spent, accepts}

-- A step that is not used up.
abbrev pub IsFresh : Option ℕ → ℕ → Type 0
IsFresh none k = Unit
IsFresh (some last) k = last < k

IsFresh-of : (last : Option ℕ) (k : ℕ) → is_spent last k ≡ false → IsFresh last k
IsFresh-of none k e = tt
IsFresh-of (some last) k e = ground arith

is_spent-of : (last : Option ℕ) (k : ℕ) → IsFresh last k → is_spent last k ≡ false
is_spent-of none k h = refl
is_spent-of (some last) k h = ground arith

module _ (pyotp : Pyotp) (now : ℕ) (secret : List ℕ) (code : String) (last_step : Option ℕ) where
  -- A step from the one before the current one to the one after it, that is not used up, and whose code
  -- is the one presented.
  abbrev pub Matches : ℕ → Type 0
  Matches k =
      (pyotp.timecode now ≤ k + 1)
      × (k ≤ pyotp.timecode now + 1)
      × IsFresh last_step k
      × (pyotp.strings_equal (pyotp.code_at secret k) code ≡ true)

  Matches-of :
      (k : ℕ)
      → pyotp.timecode now ≤ k + 1
      → k ≤ pyotp.timecode now + 1
      → accepts pyotp secret code last_step k ≡ true
      → Matches k
  Matches-of k lo hi e = (lo, hi, IsFresh-of last_step k (ground arith), ground arith)

  accepts-of : (k : ℕ) → Matches k → accepts pyotp secret code last_step k ≡ true
  accepts-of k m = rw (is_spent-of last_step k m.2, m.3) refl

  -- A step that matches, and that no matching step is before.
  abbrev pub IsFirst : ℕ → Type 0
  IsFirst k = Matches k × ¬ ((j : ℕ) × (j < k) × Matches j)

  abbrev A : ℕ → Bool
  A = accepts pyotp secret code last_step

  differs : (j k : ℕ) → A j ≡ false → A k ≡ true → ¬ (j ≡ k)
  differs j k f t e = ground (arith, subst (λ x. A x ≡ true) (sym e) t)

  neither : (c j : ℕ) → A (c - 1) ≡ false → A c ≡ false → A j ≡ true → j < c + 1 → c ≤ j + 1 → ⊥
  neither c j f g t lt le = elim (Bool-cases (j == c)) [
    | inl at_c ↦ differs c j g t (ground arith)
    | inr before ↦ differs (c - 1) j f t (ground arith)
  ]

  verify_sound :
      (k : ℕ) → 1 ≤ pyotp.timecode now → verify pyotp now secret code last_step ≡ some k → IsFirst k
  unfolding verify
  verify_sound k pos e =
      let c = pyotp.timecode now in
      elim (Bool-cases (A (c - 1))) [
        | inl hit ↦
            let first : IsFirst (c - 1) = (
              Matches-of (c - 1) (omega arith) (omega arith) hit,
              λ (j, lt, m). omega (arith, m.0),
            ) in
            subst IsFirst (ground arith) first
        | inr miss ↦ elim (Bool-cases (A c)) [
          | inl hit' ↦
              let first : IsFirst c = (
                Matches-of c (omega arith) (omega arith) hit',
                λ (j, lt, m). differs (c - 1) j miss (accepts-of j m) (omega (arith, m.0)),
              ) in
              subst IsFirst (ground arith) first
          | inr miss' ↦ elim (Bool-cases (A (c + 1))) [
            | inl hit'' ↦
                let first : IsFirst (c + 1) = (
                  Matches-of (c + 1) (omega arith) (omega arith) hit'',
                  λ (j, lt, m). neither c j miss miss' (accepts-of j m) lt m.0,
                ) in
                subst IsFirst (ground arith) first
            | inr miss'' ↦ absurd (ground arith)
          ]
        ]
      ]

  first_le : (k j : ℕ) → IsFirst k → Matches j → k ≤ j
  first_le k j first m = elim (Bool-cases (ltb j k)) [
    | inl before ↦ absurd (first.1 (j, ground arith, m))
    | inr after ↦ ground arith
  ]

  verify_complete :
      (k : ℕ) → 1 ≤ pyotp.timecode now → IsFirst k → verify pyotp now secret code last_step ≡ some k
  unfolding verify
  verify_complete k pos first =
      let c = pyotp.timecode now in
      elim (Bool-cases (A (c - 1))) [
        | inl hit ↦
            let le =
              first_le k (c - 1) first (Matches-of (c - 1) (omega arith) (omega arith) hit) in
            let same : c - 1 ≡ k = omega (arith, first.0.0) in rw hit (ap some same)
        | inr miss ↦ elim (Bool-cases (A c)) [
          | inl hit' ↦
              let le = first_le k c first (Matches-of c (omega arith) (omega arith) hit') in
              let ne = differs (c - 1) k miss (accepts-of k first.0) in
              let same : c ≡ k = omega (arith, first.0.0) in rw (miss, hit') (ap some same)
          | inr miss' ↦
              let t = accepts-of k first.0 in
              let gt : ¬ (k < c + 1) = λ lt. neither c k miss miss' t lt first.0.0 in
              let same : c + 1 ≡ k = omega (arith, first.0.1) in
              let hit'' : A (c + 1) ≡ true = subst (λ x. A x ≡ true) (sym same) t in
              rw (miss, miss', hit'') (ap some same)
        ]
      ]

  -- At any time after the first step of 1970, the verification accepts a step exactly when that is the
  -- first that matches: of the three steps around the current one, not used up, and with this code.
  pub verify_iff :
      (k : ℕ)
      → 1 ≤ pyotp.timecode now
      → (verify pyotp now secret code last_step ≡ some k) ↔ IsFirst k
  verify_iff k pos = (verify_sound k pos, verify_complete k pos)
