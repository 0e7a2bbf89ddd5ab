-- ===== src/Persistence/RecoveryLaws/History.antt =====
-- The history of passwords: what a new row leaves of it.
use auth_core.Prelude.{
  ℕ, suc, zero, ◌≤◌, ◌≡◌, refl, String, Bool, true, false, not, some, List, [], ◌∷◌, ◌++◌, arith,
  ◌==◌, ==-refl, leb, ltb, find_row, rows_where, length, order_by_desc, insert_by_desc, drop,
  Bool-cases, inl, inr,
}
use auth_core.Prelude.Rows.{Every}
use auth_core.Persistence.Tables.{PasswordHistory}
use auth_core.Persistence.RecoveryRepository.{remember, history_of, of_identity, is_listed}

module _ {ℓ} {A : Type ℓ} where
  rows_where-insert_by_desc :
      (q : A → Bool) (key : A → ℕ) (x : A) (xs : List A)
      → length (rows_where q (insert_by_desc key x xs)) ≡ length (rows_where q (x ∷ xs))
  rows_where-insert_by_desc q key x [] = refl
  rows_where-insert_by_desc q key x (y ∷ ys) = ground (arith, rows_where-insert_by_desc q key x ys)

  pub rows_where-order_by_desc :
      (q : A → Bool) (key : A → ℕ) (xs : List A)
      → length (rows_where q (order_by_desc key xs)) ≡ length (rows_where q xs)
  rows_where-order_by_desc q key [] = refl
  rows_where-order_by_desc q key (x ∷ xs) = ground (
    arith,
    rows_where-insert_by_desc q key x (order_by_desc key xs),
    rows_where-order_by_desc q key xs,
  )

  -- Rows that fail a test from the k-th on: at most k pass it.
  pub length-rows_where-drop :
      (q : A → Bool) (k : ℕ) (xs : List A)
      → Every (λ x. q x ≡ false) (drop k xs)
      → length (rows_where q xs) ≤ k
  length-rows_where-drop q zero [] h = omega arith
  length-rows_where-drop q zero (x ∷ xs) h = ground (arith, length-rows_where-drop q zero xs)
  length-rows_where-drop q (suc k) [] h = omega arith
  length-rows_where-drop q (suc k) (x ∷ xs) h = ground (arith, length-rows_where-drop q k xs)

  rows_where_both :
      (p q : A → Bool) (xs : List A)
      → rows_where p (rows_where q xs) ≡ rows_where q (rows_where p xs)
  rows_where_both p q [] = refl
  rows_where_both p q (x ∷ xs) = ground (arith, rows_where_both p q xs)

  -- A row with the greatest key comes first, wherever it stood.
  order_by_desc-append_last :
      (key : A → ℕ) (n : A) (xs : List A)
      → Every (λ x. ltb (key x) (key n) ≡ true) xs
      → order_by_desc key (xs ++ n ∷ []) ≡ n ∷ order_by_desc key xs
  order_by_desc-append_last key n [] h = refl
  order_by_desc-append_last key n (x ∷ xs) h =
      ground (arith, order_by_desc-append_last key n xs h.1)

  rows_where-append_last :
      (q : A → Bool) (n : A) (xs : List A)
      → q n ≡ true
      → rows_where q (xs ++ n ∷ []) ≡ rows_where q xs ++ n ∷ []
  rows_where-append_last q n [] h = ground arith
  rows_where-append_last q n (x ∷ xs) h = ground (arith, rows_where-append_last q n xs h)

  Every-rows_where :
      (P : A → Type 0) (q : A → Bool) (xs : List A) → Every P xs → Every P (rows_where q xs)
  Every-rows_where P q [] h = tt
  Every-rows_where P q (x ∷ xs) h = elim (Bool-cases (q x)) [
    | inl hit ↦ rw (hit, rows_where) (h.0, Every-rows_where P q xs h.1)
    | inr miss ↦ rw (miss, rows_where) (Every-rows_where P q xs h.1)
  ]

  Every-insert_by_desc :
      (P : A → Type 0) (key : A → ℕ) (x : A) (xs : List A)
      → P x
      → Every P xs
      → Every P (insert_by_desc key x xs)
  Every-insert_by_desc P key x [] h hs = (h, tt)
  Every-insert_by_desc P key x (y ∷ ys) h hs = elim (Bool-cases (leb (key y) (key x))) [
    | inl le ↦ rw (insert_by_desc, le) (h, hs)
    | inr above ↦ rw (insert_by_desc, above) (hs.0, Every-insert_by_desc P key x ys h hs.1)
  ]

  Every-order_by_desc :
      (P : A → Type 0) (key : A → ℕ) (xs : List A) → Every P xs → Every P (order_by_desc key xs)
  Every-order_by_desc P key [] h = tt
  Every-order_by_desc P key (x ∷ xs) h =
      Every-insert_by_desc P key x (order_by_desc key xs) h.0 (Every-order_by_desc P key xs h.1)

  Every-drop : (P : A → Type 0) (k : ℕ) (xs : List A) → Every P xs → Every P (drop k xs)
  Every-drop P zero xs h = h
  Every-drop P (suc k) [] h = tt
  Every-drop P (suc k) (x ∷ xs) h = Every-drop P k xs h.1

  -- A lookup that no row but a new one passes finds the new one, if it is selected.
  find_row-rows_where_last :
      (p q : A → Bool) (n : A) (xs : List A)
      → Every (λ x. p x ≡ false) xs
      → p n ≡ true
      → q n ≡ true
      → find_row p (rows_where q (xs ++ n ∷ [])) ≡ some n
  find_row-rows_where_last p q n [] h hit kept = ground arith
  find_row-rows_where_last p q n (x ∷ xs) h hit kept =
      ground (arith, find_row-rows_where_last p q n xs h.1)

-- A row whose id is listed in what the rows are part of.
listed_part :
    (hs all : List PasswordHistory)
    → ((id : ℕ) → is_listed id hs ≡ true → is_listed id all ≡ true)
    → Every (λ h. not (is_listed h.history_id all) ≡ false) hs
listed_part [] all part = tt
listed_part (h ∷ hs) all part = (
  ground (arith, part h.history_id, ==-refl h.history_id),
  listed_part hs all (λ id e. part id (ground arith)),
)

-- Remembering a password leaves its identity four passwords at most.
pub remember-few :
    (now history_id identity_id : ℕ) (password_hash : String) (hs : List PasswordHistory)
    → length (
        rows_where (of_identity identity_id) (remember now history_id identity_id password_hash hs))
      ≤ 4
unfolding remember history_of
remember-few now history_id identity_id password_hash hs =
    let added =
      hs
      ++ record {
        history_id = history_id;
        identity_id = identity_id;
        password_hash = password_hash;
        created_at = now;
      }
        ∷ [] in
    let own = rows_where (of_identity identity_id) added in
    let sorted = order_by_desc (λ h. h.created_at) own in
    let kept : PasswordHistory → Bool = λ h. not (is_listed h.history_id (drop 4 sorted)) in
    rw (rows_where_both (of_identity identity_id) kept added) (
      omega (
        arith,
        rows_where-order_by_desc kept (λ h. h.created_at) own,
        length-rows_where-drop kept 4 sorted
            (listed_part (drop 4 sorted) (drop 4 sorted) (λ id e. e)),
      ))

-- The new row of a password that is remembered.
abbrev pub new_row : ℕ → ℕ → ℕ → String → PasswordHistory
new_row now history_id identity_id password_hash = record {
  history_id = history_id;
  identity_id = identity_id;
  password_hash = password_hash;
  created_at = now;
}

not_listed :
    (history_id : ℕ) (hs : List PasswordHistory)
    → Every (λ h. (h.history_id == history_id) ≡ false) hs
    → is_listed history_id hs ≡ false
not_listed history_id [] e = refl
not_listed history_id (h ∷ hs) e = ground (arith, not_listed history_id hs e.1)

-- A new row, under a new id and later than the rows of its identity, is among the rows kept.
pub remember-new :
    (now history_id identity_id : ℕ) (password_hash : String) (hs : List PasswordHistory)
    → Every (λ h. (h.history_id == history_id) ≡ false) hs
    → Every (λ h. ltb h.created_at now ≡ true) (rows_where (of_identity identity_id) hs)
    → find_row
        (λ h. h.history_id == history_id)
        (remember now history_id identity_id password_hash hs)
      ≡ some (new_row now history_id identity_id password_hash)
unfolding remember history_of
remember-new now history_id identity_id password_hash hs fresh older =
    let n = new_row now history_id identity_id password_hash in
    let own = rows_where (of_identity identity_id) hs in
    let sorted = order_by_desc (λ h. h.created_at) own in
    let IsOther : PasswordHistory → Type 0 = λ h. (h.history_id == history_id) ≡ false in
    let old = not_listed history_id (drop 3 sorted) (
      Every-drop IsOther 3 sorted (
        Every-order_by_desc IsOther (λ h. h.created_at) own
          (Every-rows_where IsOther (of_identity identity_id) hs fresh))) in
    rw
      (
        rows_where-append_last (of_identity identity_id) n hs (==-refl identity_id),
        order_by_desc-append_last (λ h. h.created_at) n own older,
      )
      (find_row-rows_where_last (λ h. h.history_id == history_id)
        (λ h. not (is_listed h.history_id (drop 3 sorted))) n hs fresh (==-refl history_id)
        (rw old refl))
