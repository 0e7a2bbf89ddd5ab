-- ===== src/Prelude/Rows.antt =====
-- Lemmas on tables: what `update` and `insert` do to a lookup by a column and to a count of rows.
use Prim.Native.Nat.{ℕ, zero, suc, ◌+◌, ◌≤◌}
use mathlib.Core.Path.{◌≡◌, refl, subst}
use mathlib.Core.Bool.{Bool, true, false, ◌&&◌}
use mathlib.Core.Option.{none, some}
use mathlib.Core.List.{List, [], ◌∷◌, ◌++◌}
use native.Mathlib.Omega.{arith}
use mathlib.Core.Bool.{false≢true}
use mathlib.Core.Logic.{inl, inr}
use auth_core.Prelude.Tests.{Option-cases, Bool-cases, if◌then◌else◌}
use auth_core.Prelude.Tables.{length, take, rows_where, find_row, update_where, insert_by, order_by}

module _ {ℓ} {A : Type ℓ} where
  -- A row that a lookup returns satisfies the lookup's test.
  pub find_row_holds : (p : A → Bool) (xs : List A) (x : A) → find_row p xs ≡ some x → p x ≡ true
  find_row_holds p [] x e = ground arith
  find_row_holds p (y ∷ ys) x e = ground (arith, find_row_holds p ys x)

  -- Whether the row that a lookup returns satisfies a second test.
  abbrev pub found_and : (A → Bool) → (A → Bool) → List A → Bool
  found_and p q xs = elim (find_row p xs) [ none ↦ false | some x ↦ q x ]

  pub found_and-append :
      (p q : A → Bool) (xs ys : List A) → found_and p q xs ≡ true → found_and p q (xs ++ ys) ≡ true
  found_and-append p q [] ys e = ground arith
  found_and-append p q (x ∷ xs) ys e = ground (arith, found_and-append p q xs ys)

  -- An update that keeps the test of a lookup, and what is asked of the row, keeps the answer.
  pub found_and-update_where :
      (p q w : A → Bool) (f : A → A)
      → ((x : A) → p (f x) ≡ p x)
      → ((x : A) → q x ≡ true → q (f x) ≡ true)
      → (xs : List A) → found_and p q xs ≡ true
      → found_and p q (update_where w f xs) ≡ true
  found_and-update_where p q w f same keep [] e = ground arith
  found_and-update_where p q w f same keep (x ∷ xs) e =
      ground (arith, same x, keep x, found_and-update_where p q w f same keep xs)

  -- An update that sets what is asked, on rows that the lookup returns.
  pub found_and-update_self :
      (p q w : A → Bool) (f : A → A)
      → ((x : A) → p (f x) ≡ p x)
      → ((x : A) → p x ≡ true → w x ≡ true)
      → ((x : A) → q (f x) ≡ true)
      → (xs : List A) (y : A) → find_row p xs ≡ some y
      → found_and p q (update_where w f xs) ≡ true
  found_and-update_self p q w f same hit sets [] y e = ground arith
  found_and-update_self p q w f same hit sets (x ∷ xs) y e =
      ground (arith, same x, hit x, sets x, found_and-update_self p q w f same hit sets xs y)

  -- An update that reaches the row that a lookup returns.
  pub found_and-update_found :
      (p q w : A → Bool) (f : A → A)
      → ((x : A) → p (f x) ≡ p x)
      → (xs : List A) (y : A) → find_row p xs ≡ some y
      → w y ≡ true
      → q (f y) ≡ true
      → found_and p q (update_where w f xs) ≡ true
  found_and-update_found p q w f same [] y e hit sets = ground arith
  found_and-update_found p q w f same (x ∷ xs) y e hit sets =
      ground (arith, same x, found_and-update_found p q w f same xs y)

  pub found_and-of_find :
      (p q : A → Bool) (xs : List A) (y : A)
      → find_row p xs ≡ some y
      → q y ≡ true
      → found_and p q xs ≡ true
  found_and-of_find p q xs y e h = rw (e, found_and) h

  pub found_and-exists :
      (p q : A → Bool) (xs : List A)
      → found_and p q xs ≡ true
      → (x : A) × (find_row p xs ≡ some x) × (q x ≡ true)
  found_and-exists p q xs e = elim (Option-cases (find_row p xs)) [
    | inl missing ↦ absurd (false≢true (rw (missing, found_and) at e))
    | inr (x, found) ↦ (x, found, rw (found, found_and) at e)
  ]

  -- A predicate of every row.
  abbrev pub Every : (A → Type 0) → List A → Type 0
  Every P [] = Unit
  Every P (x ∷ xs) = P x × Every P xs

  pub Every-update_where :
      (P : A → Type 0) (w : A → Bool) (f : A → A)
      → ((x : A) → P x → P (f x))
      → (xs : List A) → Every P xs
      → Every P (update_where w f xs)
  Every-update_where P w f keep [] h = tt
  Every-update_where P w f keep (x ∷ xs) h =
      (if_keeps (w x) (keep x h.0), Every-update_where P w f keep xs h.1)
    where
      if_keeps : (b : Bool) → P (f x) → P (if b then f x else x)
      if_keeps true k = k
      if_keeps false k = h.0

  -- Sorting keeps the number of rows that pass a test.
  rows_where-insert_by :
      (q : A → Bool) (key : A → ℕ) (x : A) (xs : List A)
      → length (rows_where q (insert_by key x xs)) ≡ length (rows_where q (x ∷ xs))
  rows_where-insert_by q key x [] = refl
  rows_where-insert_by q key x (y ∷ ys) = ground (arith, rows_where-insert_by q key x ys)

  pub rows_where-order_by :
      (q : A → Bool) (key : A → ℕ) (xs : List A)
      → length (rows_where q (order_by key xs)) ≡ length (rows_where q xs)
  rows_where-order_by q key [] = refl
  rows_where-order_by q key (x ∷ xs) =
      ground (arith, rows_where-insert_by q key x (order_by key xs), rows_where-order_by q key xs)

  length-insert_by :
      (key : A → ℕ) (x : A) (xs : List A) → length (insert_by key x xs) ≡ suc (length xs)
  length-insert_by key x [] = refl
  length-insert_by key x (y ∷ ys) = ground (arith, length-insert_by key x ys)

  pub length-order_by : (key : A → ℕ) (xs : List A) → length (order_by key xs) ≡ length xs
  length-order_by key [] = refl
  length-order_by key (x ∷ xs) =
      ground (arith, length-insert_by key x (order_by key xs), length-order_by key xs)

  pub rows_where-and :
      (p q : A → Bool) (xs : List A)
      → rows_where (λ x. p x && q x) xs ≡ rows_where q (rows_where p xs)
  rows_where-and p q [] = refl
  rows_where-and p q (x ∷ xs) = ground (arith, rows_where-and p q xs)

  pub length-rows_where-le : (q : A → Bool) (xs : List A) → length (rows_where q xs) ≤ length xs
  length-rows_where-le q [] = omega arith
  length-rows_where-le q (x ∷ xs) = ground (arith, length-rows_where-le q xs)

  -- A test that fails on the first rows passes on the others at most.
  pub length-rows_where-take :
      (q : A → Bool) (k : ℕ) (xs : List A)
      → Every (λ x. q x ≡ false) (take k xs)
      → k ≤ length xs
      → length (rows_where q xs) + k ≤ length xs
  length-rows_where-take q zero xs h le = omega (arith, length-rows_where-le q xs)
  length-rows_where-take q (suc k) [] h le = omega arith
  length-rows_where-take q (suc k) (x ∷ xs) h le = ground (arith, length-rows_where-take q k xs)

  pub rows_where-none :
      (q : A → Bool) (xs : List A) → Every (λ x. q x ≡ false) xs → rows_where q xs ≡ []
  rows_where-none q [] h = refl
  rows_where-none q (x ∷ xs) h = ground (arith, rows_where-none q xs h.1)

  pub length-rows_where_mono :
      (p q : A → Bool)
      → ((x : A) → p x ≡ true → q x ≡ true)
      → (xs : List A) → length (rows_where p xs) ≤ length (rows_where q xs)
  length-rows_where_mono p q imp [] = omega arith
  length-rows_where_mono p q imp (x ∷ xs) = ground (arith, imp x, length-rows_where_mono p q imp xs)

  pub Every-append :
      (P : A → Type 0) (xs ys : List A) → Every P xs → Every P ys → Every P (xs ++ ys)
  Every-append P [] ys h k = k
  Every-append P (x ∷ xs) ys h k = (h.0, Every-append P xs ys h.1 k)

  -- What holds of every row holds of the one that a lookup returns.
  pub Every-find :
      (P : A → Type 0) (p : A → Bool) (xs : List A) (x : A)
      → Every P xs
      → find_row p xs ≡ some x
      → P x
  Every-find P p [] x h e = absurd (ground arith)
  Every-find P p (y ∷ ys) x h e = elim (Bool-cases (p y)) [
    | inl hit ↦ (let same : y ≡ x = ground arith in subst P same h.0)
    | inr miss ↦ Every-find P p ys x h.1 (rw miss at e)
  ]

  -- What a lookup returns once a row is added, and once the row that it returns is updated or replaced.
  pub find_row-append_new :
      (p : A → Bool) (x : A) (xs : List A)
      → find_row p xs ≡ none
      → p x ≡ true
      → find_row p (xs ++ x ∷ []) ≡ some x
  find_row-append_new p x [] e h = ground arith
  find_row-append_new p x (y ∷ ys) e h = ground (arith, find_row-append_new p x ys)

  pub find_row-update_where :
      (p : A → Bool) (f : A → A)
      → ((x : A) → p (f x) ≡ p x)
      → (x : A) (xs : List A) → find_row p xs ≡ some x
      → find_row p (update_where p f xs) ≡ some (f x)
  find_row-update_where p f same x [] e = ground arith
  find_row-update_where p f same x (y ∷ ys) e =
      ground (arith, same y, find_row-update_where p f same x ys)

  pub find_row-replace :
      (p w : A → Bool) (x y : A)
      → w x ≡ true
      → p y ≡ true
      → (xs : List A) → find_row p xs ≡ some x
      → find_row p (update_where w (λ z. y) xs) ≡ some y
  find_row-replace p w x y hit fits [] e = ground arith
  find_row-replace p w x y hit fits (z ∷ zs) e =
      ground (arith, find_row-replace p w x y hit fits zs)
