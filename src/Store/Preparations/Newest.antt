-- ===== src/Store/Preparations/Newest.antt =====
-- `ORDER BY created_at DESC, rowid DESC`: what the first row of a query is.
use nebius_serverless_challe.Prelude.{
  ◌≤◌, Text, ◌≡◌, refl, sym, ap, ◌∙◌, inl, inr, Bool, true, false, ◌&&◌, ◌||◌, Option, none, some,
  List, [], ◌∷◌, ◌++◌, arith, leb, Bool-cases, All, All-map, select, find?, any, select_stored,
  All-of_select, Memᴰ,
}
use nebius_serverless_challe.Models.{PreparationAttempt}
use nebius_serverless_challe.Store.Database.{Database, AttemptRow}
use nebius_serverless_challe.Store.Preparations.{
  insert_newest, newest_onto, newest_first, first_row, load_attempt, of_setup, of_fingerprint,
  is_accepted, latest_preparation, accepted_preparation,
}

-- Younger rows first.
abbrev pub IsNewestFirst : List AttemptRow → Type 0
IsNewestFirst [] = Unit
IsNewestFirst (r ∷ rows) =
    All (λ (x : AttemptRow). x.created_at ≤ r.created_at) rows × IsNewestFirst rows

module _ (P : AttemptRow → Type 0) where
  All-insert_newest :
      (r : AttemptRow) (xs : List AttemptRow) → P r → All P xs → All P (insert_newest r xs)
  All-insert_newest r [] h hs = (h, tt)
  All-insert_newest r (x ∷ xs) h hs = elim (Bool-cases (leb x.created_at r.created_at)) [
    | inl e ↦ rw e (h, hs)
    | inr e ↦ rw e (hs.0, All-insert_newest r xs h hs.1)
  ]

  All-newest_onto :
      (sorted rows : List AttemptRow) → All P sorted → All P rows → All P (newest_onto sorted rows)
  unfolding newest_onto
  All-newest_onto sorted [] h hs = h
  All-newest_onto sorted (r ∷ rows) h hs =
      All-newest_onto (insert_newest r sorted) rows (All-insert_newest r sorted hs.0 h) hs.1

  pub All-newest_first : (rows : List AttemptRow) → All P rows → All P (newest_first rows)
  unfolding newest_first
  All-newest_first rows h = All-newest_onto [] rows tt h

insert_newest-IsNewestFirst :
    (r : AttemptRow) (xs : List AttemptRow) → IsNewestFirst xs → IsNewestFirst (insert_newest r xs)
insert_newest-IsNewestFirst r [] h = (tt, tt)
insert_newest-IsNewestFirst r (x ∷ xs) h = elim (Bool-cases (leb x.created_at r.created_at)) [
  | inl e ↦
      let le : x.created_at ≤ r.created_at = ground arith in
      rw e (
        (
          le,
          All-map _ (λ (y : AttemptRow). y.created_at ≤ r.created_at) (λ y k. omega arith) xs h.0,
        ),
        h,
      )
  | inr e ↦ rw e (
    All-insert_newest (λ (y : AttemptRow). y.created_at ≤ x.created_at) r xs (ground arith) h.0,
    insert_newest-IsNewestFirst r xs h.1,
  )
]

newest_onto-IsNewestFirst :
    (sorted rows : List AttemptRow) → IsNewestFirst sorted → IsNewestFirst (newest_onto sorted rows)
unfolding newest_onto
newest_onto-IsNewestFirst sorted [] h = h
newest_onto-IsNewestFirst sorted (r ∷ rows) h =
    newest_onto-IsNewestFirst (insert_newest r sorted) rows (insert_newest-IsNewestFirst r sorted h)

any-insert_newest :
    (p : AttemptRow → Bool) (r : AttemptRow) (xs : List AttemptRow)
    → any p (insert_newest r xs) ≡ p r || any p xs
any-insert_newest p r [] = refl
any-insert_newest p r (x ∷ xs) = ground (arith, any-insert_newest p r xs)

any-newest_onto :
    (p : AttemptRow → Bool) (sorted rows : List AttemptRow)
    → any p (newest_onto sorted rows) ≡ any p sorted || any p rows
unfolding newest_onto
any-newest_onto p sorted [] = ground arith
any-newest_onto p sorted (r ∷ rows) =
    ground (arith, any-newest_onto p (insert_newest r sorted) rows, any-insert_newest p r sorted)

-- The sorted rows are the same rows.
pub any-newest_first :
    (p : AttemptRow → Bool) (rows : List AttemptRow) → any p (newest_first rows) ≡ any p rows
unfolding newest_first
any-newest_first p rows = any-newest_onto p [] rows

find?-insert_newest :
    (p : AttemptRow → Bool) (r : AttemptRow) (xs : List AttemptRow)
    → find? p xs ≡ none
    → p r ≡ true
    → find? p (insert_newest r xs) ≡ some r
find?-insert_newest p r [] h e = ground arith
find?-insert_newest p r (x ∷ xs) h e = ground (arith, find?-insert_newest p r xs)

newest_onto-append :
    (sorted rows : List AttemptRow) (r : AttemptRow)
    → newest_onto sorted (rows ++ r ∷ []) ≡ insert_newest r (newest_onto sorted rows)
unfolding newest_onto
newest_onto-append sorted [] r = refl
newest_onto-append sorted (x ∷ rows) r = newest_onto-append (insert_newest x sorted) rows r

-- A new row that passes a test which no row passed before is the one that is found.
pub find?-newest_first-append :
    (p : AttemptRow → Bool) (rows : List AttemptRow) (r : AttemptRow)
    → find? p (newest_first rows) ≡ none
    → p r ≡ true
    → find? p (newest_first (rows ++ r ∷ [])) ≡ some r
unfolding newest_first
find?-newest_first-append p rows r h e =
    rw (newest_onto-append [] rows r) (find?-insert_newest p r (newest_onto [] rows) h e)

module _ (P : AttemptRow → Type 0) where
  All-of_insert_newest :
      (r : AttemptRow) (xs : List AttemptRow) → All P (insert_newest r xs) → P r × All P xs
  All-of_insert_newest r [] h = h
  All-of_insert_newest r (x ∷ xs) h = elim (Bool-cases (leb x.created_at r.created_at)) [
    | inl e ↦ let h' : All P (r ∷ x ∷ xs) = rw e at h in (h'.0, h'.1)
    | inr e ↦
        let h' : All P (x ∷ insert_newest r xs) = rw e at h in
        let (hr, hs) = All-of_insert_newest r xs h'.1 in (hr, (h'.0, hs))
  ]

  All-of_newest_onto :
      (sorted rows : List AttemptRow) → All P (newest_onto sorted rows) → All P sorted × All P rows
  unfolding newest_onto
  All-of_newest_onto sorted [] h = (h, tt)
  All-of_newest_onto sorted (r ∷ rows) h =
      let (hs, hrows) = All-of_newest_onto (insert_newest r sorted) rows h in
      let (hr, hsorted) = All-of_insert_newest r sorted hs in (hsorted, (hr, hrows))

-- What a query with a test, an order and `LIMIT 1` returns: a stored row that passes the test, and
-- is no older than any other that does.
pub record IsNewest (p : AttemptRow → Bool) (rows : List AttemptRow) (a : PreparationAttempt)
    : Type 0 where
  pub row : AttemptRow
  pub loaded : a ≡ load_attempt row
  pub stored : Memᴰ row rows
  pub passes : p row ≡ true
  pub newest : All (λ (x : AttemptRow). p x ≡ true → x.created_at ≤ row.created_at) rows

first_row-IsNewest :
    (p : AttemptRow → Bool) (rows sorted : List AttemptRow) (a : PreparationAttempt)
    → newest_first (select p rows) ≡ sorted
    → first_row sorted ≡ some a
    → IsNewest p rows a
unfolding newest_first
first_row-IsNewest p rows [] a e h = cc
first_row-IsNewest p rows (r ∷ rest) a e h =
    let order : IsNewestFirst (r ∷ rest) =
      rw e at (newest_onto-IsNewestFirst [] (select p rows) tt) in
    let held : All (λ x. Memᴰ x rows × (p x ≡ true)) (r ∷ rest) =
      rw e at (
        All-newest_first (λ x. Memᴰ x rows × (p x ≡ true)) (select p rows)
          (select_stored p rows)) in
    let below =
      All-of_newest_onto (λ x. x.created_at ≤ r.created_at) [] (select p rows)
        (rw e ((omega arith), order.0)) in
    record {
      row = r;
      loaded = ground arith;
      stored = held.0.0;
      passes = held.0.1;
      newest = All-of_select (λ x. x.created_at ≤ r.created_at) p rows below.1;
    }

any-select_self :
    (p : AttemptRow → Bool) (rows : List AttemptRow) → any (λ _. true) (select p rows) ≡ any p rows
any-select_self p [] = refl
any-select_self p (r ∷ rows) = ground (arith, any-select_self p rows)

first_row-none :
    (p : AttemptRow → Bool) (rows sorted : List AttemptRow)
    → newest_first (select p rows) ≡ sorted
    → first_row sorted ≡ none
    → any p rows ≡ false
first_row-none p rows [] e h =
    sym (any-select_self p rows)
    ∙ sym (any-newest_first (λ _. true) (select p rows))
    ∙ ap (any (λ _. true)) e
first_row-none p rows (r ∷ rest) e h = cc

-- The outcome of such a query: no row passes the test, or the newest that does is loaded.
abbrev pub NewestOf : (AttemptRow → Bool) → List AttemptRow → Option PreparationAttempt → Type 0
NewestOf p rows none = any p rows ≡ false
NewestOf p rows (some a) = IsNewest p rows a

pub first_row-NewestOf :
    (p : AttemptRow → Bool) (rows : List AttemptRow) (o : Option PreparationAttempt)
    → first_row (newest_first (select p rows)) ≡ o
    → NewestOf p rows o
first_row-NewestOf p rows none h = first_row-none p rows _ refl h
first_row-NewestOf p rows (some a) h = first_row-IsNewest p rows _ a refl h

-- `latest_preparation` returns the newest of the tenant's attempts for the setup, and nothing
-- exactly if there is none.
pub latest_preparation-NewestOf :
    (tenant setup : Text) (db : Database)
    → NewestOf (of_setup tenant setup) db.preparation_attempts (latest_preparation tenant setup db)
unfolding latest_preparation
latest_preparation-NewestOf tenant setup db =
    first_row-NewestOf (of_setup tenant setup) db.preparation_attempts _ refl

-- `accepted_preparation` returns the newest of the tenant's accepted attempts for the setup with
-- exactly the given fingerprint, and nothing exactly if there is none.
pub accepted_preparation-NewestOf :
    (tenant setup fingerprint : Text) (db : Database)
    → NewestOf
        (λ r. of_fingerprint tenant setup fingerprint r && is_accepted r.attempt.state)
        db.preparation_attempts
        (accepted_preparation tenant setup fingerprint db)
unfolding accepted_preparation
accepted_preparation-NewestOf tenant setup fingerprint db =
    first_row-NewestOf _ db.preparation_attempts _ refl
