-- ===== src/Persistence/MfaLaws/Codes.antt =====
-- Backup codes against a bag of digests.
use auth_core.Prelude.{
  ℕ, ◌+◌, ◌-◌, ◌≡◌, ◌∙◌, refl, true, ltb, ap, subst, Bool, false, Option, none, some, List, [], ◌∷◌,
  map, arith, ◌==◌, if◌then◌else◌, find_row, update_where, ◌⊎◌, inl, inr, Option-cases, Bool-cases,
}
use auth_core.Prelude.Rows.{Every, Every-find, find_row_holds}
use auth_core.Persistence.Tables.{Database, MfaDevice}
use auth_core.Persistence.MfaRepository.{
  consume_backup_code, is_backup, backup_row, hashes_of, remove, has_hash, left_over,
}

-- A candidate's digest, presented at a time.
pub record Attempt : Type 0 where
  pub at : ℕ
  pub candidate : ℕ

-- The abstract store: a bag of digests, which is how often each is in it. One that is there is taken out
-- once.
abbrev pub without : ℕ → (ℕ → ℕ) → ℕ → ℕ
without h bag j = if j == h then bag j - 1 else bag j

abbrev pub bag_replies : List ℕ → (ℕ → ℕ) → List Bool
bag_replies [] bag = []
bag_replies (h ∷ hs) bag = ltb 0 (bag h) ∷ bag_replies hs (without h bag)

abbrev pub occurrences : List ℕ → ℕ → ℕ
occurrences [] j = 0
occurrences (x ∷ xs) j = if x == j then 1 + occurrences xs j else occurrences xs j

bag_replies_ext :
    (hs : List ℕ) (b c : ℕ → ℕ) → ((j : ℕ) → b j ≡ c j) → bag_replies hs b ≡ bag_replies hs c
bag_replies_ext [] b c same = refl
bag_replies_ext (h ∷ hs) b c same =
    rw (same h, bag_replies_ext hs (without h b) (without h c) (λ j. rw (same j) refl)) refl

has_hash-occurrences : (h : ℕ) (xs : List ℕ) → has_hash h xs ≡ ltb 0 (occurrences xs h)
has_hash-occurrences h [] = refl
has_hash-occurrences h (x ∷ xs) = ground (arith, has_hash-occurrences h xs)

occurrences-remove :
    (h j : ℕ) (xs : List ℕ)
    → has_hash h xs ≡ true
    → occurrences (remove h xs) j ≡ without h (occurrences xs) j
occurrences-remove h j [] e = absurd (ground arith)
occurrences-remove h j (x ∷ xs) e = ground (arith, occurrences-remove h j xs)

-- The same store as a list.
abbrev list_replies : List ℕ → List ℕ → List Bool
list_replies [] bag = []
list_replies (h ∷ hs) bag =
    has_hash h bag ∷ list_replies hs (if has_hash h bag then remove h bag else bag)

untouched :
    (h j : ℕ) (xs : List ℕ)
    → has_hash h xs ≡ false
    → occurrences xs j ≡ without h (occurrences xs) j
untouched h j [] absent = ground arith
untouched h j (x ∷ xs) absent = ground (arith, untouched h j xs)

occurrences-after :
    (h : ℕ) (xs : List ℕ) (j : ℕ)
    → occurrences (if has_hash h xs then remove h xs else xs) j ≡ without h (occurrences xs) j
occurrences-after h xs j = elim (Bool-cases (has_hash h xs)) [
  | inl there ↦ rw there (occurrences-remove h j xs there)
  | inr absent ↦ rw absent (untouched h j xs absent)
]

list_replies-bag : (hs xs : List ℕ) → list_replies hs xs ≡ bag_replies hs (occurrences xs)
list_replies-bag [] xs = refl
list_replies-bag (h ∷ hs) xs =
    let xs' = if has_hash h xs then remove h xs else xs in
    let same =
      bag_replies_ext hs (occurrences xs') (without h (occurrences xs)) (occurrences-after h xs) in
    rw (list_replies-bag hs xs', same, has_hash-occurrences h xs) refl

abbrev pub stored_of : Option MfaDevice → List ℕ
stored_of none = []
stored_of (some d) = hashes_of d.encrypted_secret

module _ (user_id : ℕ) where
  -- The digests that the user's row holds.
  abbrev pub stored : Database → List ℕ
  stored db = stored_of (backup_row user_id db)

  abbrev pub replies : List Attempt → Database → List Bool
  replies [] db = []
  replies (a ∷ as') db =
      let (b, db') = consume_backup_code a.at user_id a.candidate db in b ∷ replies as' db'

  -- The user has no active row of backup codes, or only rows of one primary key.
  abbrev NoRow : List MfaDevice → Type 0
  NoRow = Every (λ d. is_backup user_id d ≡ false)

  abbrev OneKey : ℕ → List MfaDevice → Type 0
  OneKey mfa_id = Every (λ d. is_backup user_id d ≡ (d.mfa_id == mfa_id))

  abbrev pub IsSingle : Database → Type 0
  IsSingle db = NoRow db.mfa_devices ⊎ ((mfa_id : ℕ) × OneKey mfa_id db.mfa_devices)

  find-NoRow : (xs : List MfaDevice) → NoRow xs → find_row (is_backup user_id) xs ≡ none
  find-NoRow [] h = refl
  find-NoRow (x ∷ xs) h = ground (arith, find-NoRow xs h.1)

  -- The row is emptied, and revoked.
  emptied-NoRow :
      (now mfa_id : ℕ) (xs : List MfaDevice)
      → OneKey mfa_id xs
      → NoRow (update_where (λ d. d.mfa_id == mfa_id) (left_over now []) xs)
  emptied-NoRow now id [] h = tt
  emptied-NoRow now id (x ∷ xs) h = (ground (arith, h.0), emptied-NoRow now id xs h.1)

  kept-OneKey :
      (now mfa_id c : ℕ) (cs : List ℕ) (xs : List MfaDevice)
      → OneKey mfa_id xs
      → OneKey mfa_id (update_where (λ d. d.mfa_id == mfa_id) (left_over now (c ∷ cs)) xs)
  kept-OneKey now id c cs [] h = tt
  kept-OneKey now id c cs (x ∷ xs) h = (ground (arith, h.0), kept-OneKey now id c cs xs h.1)

  find-kept :
      (now mfa_id c : ℕ) (cs : List ℕ) (xs : List MfaDevice) (d : MfaDevice)
      → OneKey mfa_id xs
      → find_row (is_backup user_id) xs ≡ some d
      → find_row
          (is_backup user_id)
          (update_where (λ d. d.mfa_id == mfa_id) (left_over now (c ∷ cs)) xs)
        ≡ some (left_over now (c ∷ cs) d)
  find-kept now id c cs [] d h e = absurd (ground arith)
  find-kept now id c cs (x ∷ xs) d h e = ground (arith, h.0, find-kept now id c cs xs d)

  -- One attempt is answered as the bag answers it, and leaves what the bag leaves.
  AnsweredAs : Database → ℕ → Bool × Database → Type 0
  AnsweredAs db h r =
      (r.0 ≡ has_hash h (stored db))
      × (stored r.1 ≡ (if has_hash h (stored db) then remove h (stored db) else stored db))
      × IsSingle r.1

  taken :
      (now h mfa_id : ℕ) (left : List ℕ) (db : Database) (d : MfaDevice)
      → OneKey mfa_id db.mfa_devices
      → backup_row user_id db ≡ some d
      → remove h (hashes_of d.encrypted_secret) ≡ left
      → let db' = record db {
        mfa_devices = update_where (λ x. x.mfa_id == mfa_id) (left_over now left) db.mfa_devices;
      } in
        (stored db' ≡ left) × IsSingle db'
  taken now h id [] db d keyed found e = (
    rw
        (find-NoRow (update_where (λ x. x.mfa_id == id) (left_over now []) db.mfa_devices)
          (emptied-NoRow now id db.mfa_devices keyed))
        refl,
    inl (emptied-NoRow now id db.mfa_devices keyed),
  )
  taken now h id (c ∷ cs) db d keyed found e = (
    rw (find-kept now id c cs db.mfa_devices d keyed found) refl,
    inr (id, kept-OneKey now id c cs db.mfa_devices keyed),
  )

  -- The key of the rows is that of the row found.
  row_key :
      (db : Database) (d : MfaDevice)
      → IsSingle db
      → backup_row user_id db ≡ some d
      → OneKey d.mfa_id db.mfa_devices
  row_key db d (inl empty) found = absurd (ground (arith, find-NoRow db.mfa_devices empty))
  row_key db d (inr (id, keyed)) found =
      let hit = find_row_holds (is_backup user_id) db.mfa_devices d found in
      let own =
        Every-find (λ x. is_backup user_id x ≡ (x.mfa_id == id)) (is_backup user_id) db.mfa_devices
          d keyed found in
      let same : id ≡ d.mfa_id = ground (arith, hit, own) in
      subst (λ i. OneKey i db.mfa_devices) same keyed

  consume-AnsweredAs :
      (now h : ℕ) (db : Database)
      → IsSingle db
      → AnsweredAs db h (consume_backup_code now user_id h db)
  unfolding consume_backup_code AnsweredAs
  consume-AnsweredAs now h db single = elim (Option-cases (backup_row user_id db)) [
    | inl missing ↦ rw missing (refl, ap stored_of missing, single)
    | inr (d, found) ↦ elim (Bool-cases (has_hash h (hashes_of d.encrypted_secret))) [
      | inl there ↦
          let keyed = row_key db d single found in
          let done =
            taken now h d.mfa_id (remove h (hashes_of d.encrypted_secret)) db d keyed found refl in
          rw (found, there) (refl, done.0, done.1)
      | inr absent ↦ rw (found, absent) (refl, ap stored_of found, single)
    ]
  ]

  replies-list :
      (attempts : List Attempt) (db : Database)
      → IsSingle db
      → replies attempts db ≡ list_replies (map (λ a. a.candidate) attempts) (stored db)
  unfolding AnsweredAs
  replies-list [] db single = refl
  replies-list (a ∷ as') db single =
      let one = consume-AnsweredAs a.at a.candidate db single in
      let rest = replies-list as' (consume_backup_code a.at user_id a.candidate db).1 one.2 in
      rw (rest, one.1, one.0) refl

  -- Backup codes refine a bag of digests: while the user has active rows of one primary key at most,
  -- any sequence of attempts is answered as a bag answers it that holds the stored digests at first,
  -- each as often as it is stored, and gives out one with every success.
  pub consume_backup_code-refines_bag :
      (attempts : List Attempt) (db : Database)
      → IsSingle db
      → replies attempts db
        ≡ bag_replies (map (λ a. a.candidate) attempts) (occurrences (stored db))
  consume_backup_code-refines_bag attempts db single =
      replies-list attempts db single
      ∙ list_replies-bag (map (λ a. a.candidate) attempts) (stored db)
