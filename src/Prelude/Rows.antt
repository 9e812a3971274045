-- ===== src/Prelude/Rows.antt =====
-- Tables as lists of rows in the order of their `rowid`, and the SQL statements over them: a
-- `WHERE` clause is a test on a row.
use Prim.Native.Nat.{ℕ, ◌+◌, ◌≤◌, ◌<◌}
use mathlib.Core.Path.{◌≡◌, refl, subst}
use mathlib.Core.Logic.{inl, inr}
use mathlib.Core.Bool.{Bool, true, false, ◌&&◌, ◌||◌}
use mathlib.Core.Option.{Option, none, some, some-injective}
use mathlib.Core.List.{List, [], ◌∷◌, ◌++◌, Memᴰ}
use native.Mathlib.Omega.{arith}
use nebius_serverless_challe.Prelude.Tests.{if◌then◌else◌, Bool-cases}
use nebius_serverless_challe.Prelude.Lists.{All, All-map}

module _ {ℓ} {A : Type ℓ} where
  -- `SELECT … WHERE p`, all rows
  abbrev pub select : (A → Bool) → List A → List A
  select p [] = []
  select p (x ∷ xs) = if p x then x ∷ select p xs else select p xs

  -- `SELECT … WHERE p`, the first row
  abbrev pub find? : (A → Bool) → List A → Option A
  find? p [] = none
  find? p (x ∷ xs) = if p x then some x else find? p xs

  -- `SELECT COUNT(*) … WHERE p`
  abbrev pub count_if : (A → Bool) → List A → ℕ
  count_if p [] = 0
  count_if p (x ∷ xs) = (if p x then 1 else 0) + count_if p xs

  abbrev pub any : (A → Bool) → List A → Bool
  any p [] = false
  any p (x ∷ xs) = p x || any p xs

  -- `UPDATE … SET f WHERE p`
  abbrev pub update_where : (A → Bool) → (A → A) → List A → List A
  update_where p f [] = []
  update_where p f (x ∷ xs) = (if p x then f x else x) ∷ update_where p f xs

  -- `DELETE … WHERE p`
  abbrev pub delete_where : (A → Bool) → List A → List A
  delete_where p [] = []
  delete_where p (x ∷ xs) = if p x then delete_where p xs else x ∷ delete_where p xs

  pub count_if-append :
      (p : A → Bool) (xs ys : List A) → count_if p (xs ++ ys) ≡ count_if p xs + count_if p ys
  count_if-append p [] ys = omega arith
  count_if-append p (x ∷ xs) ys = ground (arith, count_if-append p xs ys)

  pub find?-append_none :
      (p : A → Bool) (xs ys : List A) → find? p xs ≡ none → find? p (xs ++ ys) ≡ find? p ys
  find?-append_none p [] ys h = refl
  find?-append_none p (x ∷ xs) ys h = ground (arith, find?-append_none p xs ys)

  -- What a lookup finds satisfies the test.
  pub find?_sound : (p : A → Bool) (xs : List A) (a : A) → find? p xs ≡ some a → p a ≡ true
  find?_sound p [] a h = cc
  find?_sound p (x ∷ xs) a h = ground (arith, find?_sound p xs a)

  -- What a lookup finds satisfies whatever every row satisfies.
  pub All-find? {κ} :
      (P : A → Type κ) (p : A → Bool) (xs : List A) (a : A) → All P xs → find? p xs ≡ some a → P a
  All-find? P p [] a h e = cc
  All-find? P p (x ∷ xs) a h e = elim (Bool-cases (p x)) [
    | inl t ↦ subst P (some-injective _ _ (rw t at e)) h.0
    | inr f ↦ All-find? P p xs a h.1 (rw f at e)
  ]

  pub All-select {κ} :
      (P : A → Type κ) (p : A → Bool) (xs : List A) → All P xs → All P (select p xs)
  All-select P p [] h = tt
  All-select P p (x ∷ xs) h = elim (Bool-cases (p x)) [
    | inl t ↦ rw t (h.0, All-select P p xs h.1)
    | inr f ↦ rw f (All-select P p xs h.1)
  ]

  -- What a query returns satisfies its test.
  pub select_sound : (p : A → Bool) (xs : List A) → All (λ a. p a ≡ true) (select p xs)
  select_sound p [] = tt
  select_sound p (x ∷ xs) = elim (Bool-cases (p x)) [
    | inl t ↦ rw t (t, select_sound p xs)
    | inr f ↦ rw f (select_sound p xs)
  ]

  pub select-append :
      (p : A → Bool) (xs ys : List A) → select p (xs ++ ys) ≡ select p xs ++ select p ys
  select-append p [] ys = refl
  select-append p (x ∷ xs) ys = ground (arith, select-append p xs ys)

  pub All-delete_where {κ} :
      (P : A → Type κ) (p : A → Bool) (xs : List A) → All P xs → All P (delete_where p xs)
  All-delete_where P p [] h = tt
  All-delete_where P p (x ∷ xs) h = elim (Bool-cases (p x)) [
    | inl t ↦ rw t (All-delete_where P p xs h.1)
    | inr f ↦ rw f (h.0, All-delete_where P p xs h.1)
  ]

  -- A row that passes two tests is not found where no row passes the first.
  pub find?_of_any-false :
      (p q : A → Bool) (xs : List A)
      → ((a : A) → p a ≡ false → q a ≡ false)
      → any p xs ≡ false
      → find? q xs ≡ none
  find?_of_any-false p q [] d h = refl
  find?_of_any-false p q (x ∷ xs) d h = ground (arith, d x, find?_of_any-false p q xs d)

  pub any-append : (p : A → Bool) (xs ys : List A) → any p (xs ++ ys) ≡ any p xs || any p ys
  any-append p [] ys = refl
  any-append p (x ∷ xs) ys = ground (arith, any-append p xs ys)

  pub find?_of_any :
      (p : A → Bool) (xs : List A) → any p xs ≡ true → (a : A) × (find? p xs ≡ some a)
  find?_of_any p [] h = cc
  find?_of_any p (x ∷ xs) h = elim (Bool-cases (p x)) [
    | inl t ↦ (x, rw t)
    | inr f ↦ let (a, e) = find?_of_any p xs (rw f at h) in (a, rw (f, e))
  ]

  pub count_if_of_any-false :
      (p q : A → Bool) (xs : List A)
      → ((a : A) → p a ≡ false → q a ≡ false)
      → any p xs ≡ false
      → count_if q xs ≡ 0
  count_if_of_any-false p q [] d h = refl
  count_if_of_any-false p q (x ∷ xs) d h = ground (arith, d x, count_if_of_any-false p q xs d)

  pub any_of_find?-none : (p : A → Bool) (xs : List A) → find? p xs ≡ none → any p xs ≡ false
  any_of_find?-none p [] h = refl
  any_of_find?-none p (x ∷ xs) h = ground (arith, any_of_find?-none p xs)

  pub All-of_select {κ} :
      (P : A → Type κ) (p : A → Bool) (xs : List A)
      → All P (select p xs)
      → All (λ a. p a ≡ true → P a) xs
  All-of_select P p [] h = tt
  All-of_select P p (x ∷ xs) h = elim (Bool-cases (p x)) [
    | inl t ↦ let h' : All P (x ∷ select p xs) = rw t at h in (λ _. h'.0, All-of_select P p xs h'.1)
    | inr f ↦ (λ t. cc, All-of_select P p xs (rw f at h))
  ]

  pub All-Memᴰ : (xs : List A) → All (λ a. Memᴰ a xs) xs
  All-Memᴰ [] = tt
  All-Memᴰ (x ∷ xs) = (
    Memᴰ.head refl,
    All-map (λ a. Memᴰ a xs) (λ a. Memᴰ a (x ∷ xs)) (λ a m. Memᴰ.tail m) xs (All-Memᴰ xs),
  )

  -- What a query returns is stored, and satisfies its test.
  pub select_stored :
      (p : A → Bool) (xs : List A) → All (λ a. Memᴰ a xs × (p a ≡ true)) (select p xs)
  select_stored p xs =
      both (select p xs) (All-select (λ a. Memᴰ a xs) p xs (All-Memᴰ xs)) (select_sound p xs)
    where
      both :
          (ys : List A)
          → All (λ a. Memᴰ a xs) ys
          → All (λ a. p a ≡ true) ys
          → All (λ a. Memᴰ a xs × (p a ≡ true)) ys
      both = elim [ [] ↦ λ h k. tt | y ∷ (ys → ih) ↦ λ h k. ((h.0, k.0), ih h.1 k.1) ]

  pub any_of_found :
      (p q : A → Bool) (xs : List A) (a : A) → find? p xs ≡ some a → q a ≡ true → any q xs ≡ true
  any_of_found p q [] a h e = cc
  any_of_found p q (x ∷ xs) a h e = elim (Bool-cases (p x)) [
    | inl t ↦
        let same : x ≡ a = some-injective _ _ (rw t at h) in
        let e' : q x ≡ true = rw (← same) at e in rw e'
    | inr f ↦ rw (any_of_found p q xs a (rw f at h) e) (ground arith)
  ]

  pub any-select : (p q : A → Bool) (xs : List A) → any q (select p xs) ≡ any (λ a. p a && q a) xs
  any-select p q [] = refl
  any-select p q (x ∷ xs) = ground (arith, any-select p q xs)

  pub any_of_count_if : (p : A → Bool) (xs : List A) → 0 < count_if p xs → any p xs ≡ true
  any_of_count_if p [] h = elim h [ ]
  any_of_count_if p (x ∷ xs) h = ground (arith, any_of_count_if p xs)

  -- A stronger test passes no more rows.
  pub count_if_mono :
      (p q : A → Bool) (xs : List A)
      → ((a : A) → p a ≡ false → q a ≡ false)
      → count_if q xs ≤ count_if p xs
  count_if_mono p q [] d = omega arith
  count_if_mono p q (x ∷ xs) d = ground (arith, d x, count_if_mono p q xs d)
