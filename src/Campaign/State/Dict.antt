-- ===== src/Campaign/State/Dict.antt =====
-- What setting a key does to the counts of a dict.
use nebius_serverless_challe.Prelude.{
  ℕ, ◌+◌, ◌≤◌, ◌<◌, Text, ◌≡◌, refl, inl, inr, Bool, true, false, Option, none, some, List, [], ◌∷◌,
  arith, ◌==◌, if◌then◌else◌, Bool-cases, count_if, any, count_if_of_any-false,
}
use nebius_serverless_challe.Campaign.State.{
  Attempt, is_active_state, has_key, replace_key, insert_key, dict_get, dict_set, first_active,
}

-- Whether an entry's value passes a test.
abbrev pub passes : {V : Type 0} → (V → Bool) → (Text × V) → Bool
passes p e = p e.1

abbrev pub passing : {V : Type 0} → (V → Bool) → Option V → ℕ
passing p none = 0
passing p (some v) = if p v then 1 else 0

module _ {V : Type 0} where
  dict_get_of_any-false :
      (k : Text) (d : List (Text × V)) → any (has_key k) d ≡ false → dict_get k d ≡ none
  dict_get_of_any-false k [] h = refl
  dict_get_of_any-false k ((j, w) ∷ d) h = ground (arith, dict_get_of_any-false k d)

  count_if-insert_key :
      (q : (Text × V) → Bool) (k : Text) (v : V) (d : List (Text × V))
      → count_if q (insert_key k v d) ≡ count_if q d + (if q (k, v) then 1 else 0)
  count_if-insert_key q k v [] = ground arith
  count_if-insert_key q k v ((j, w) ∷ d) = ground (arith, count_if-insert_key q k v d)

  count_if-replace_key :
      (p : V → Bool) (k : Text) (v : V) (d : List (Text × V))
      → any (has_key k) d ≡ true
      → count_if (passes p) (replace_key k v d) + passing p (dict_get k d)
        ≡ count_if (passes p) d + (if p v then 1 else 0)
  count_if-replace_key p k v [] h = absurd (ground arith)
  count_if-replace_key p k v ((j, w) ∷ d) h = ground (arith, count_if-replace_key p k v d)

  -- The count of the values that pass a test, after a key is set.
  pub count_if-dict_set :
      (p : V → Bool) (k : Text) (v : V) (d : List (Text × V))
      → count_if (passes p) (dict_set k v d) + passing p (dict_get k d)
        ≡ count_if (passes p) d + (if p v then 1 else 0)
  count_if-dict_set p k v d = elim (Bool-cases (any (has_key k) d)) [
    | inl here ↦ rw here (count_if-replace_key p k v d here)
    | inr new ↦
        rw (new, dict_get_of_any-false k d new)
          (ground (arith, count_if-insert_key (passes p) k v d))
  ]

  dict_get-replace_key :
      (i k : Text) (v : V) (d : List (Text × V))
      → any (has_key k) d ≡ true
      → dict_get i (replace_key k v d) ≡ (if k == i then some v else dict_get i d)
  dict_get-replace_key i k v [] h = absurd (ground arith)
  dict_get-replace_key i k v ((j, w) ∷ d) h = ground (arith, dict_get-replace_key i k v d)

  dict_get-insert_key :
      (i k : Text) (v : V) (d : List (Text × V))
      → any (has_key k) d ≡ false
      → dict_get i (insert_key k v d) ≡ (if k == i then some v else dict_get i d)
  dict_get-insert_key i k v [] h = refl
  dict_get-insert_key i k v ((j, w) ∷ d) h = ground (arith, dict_get-insert_key i k v d)

  -- A dict, after a key is set, read at any key.
  pub dict_get-dict_set :
      (i k : Text) (v : V) (d : List (Text × V))
      → dict_get i (dict_set k v d) ≡ (if k == i then some v else dict_get i d)
  dict_get-dict_set i k v d = elim (Bool-cases (any (has_key k) d)) [
    | inl here ↦ rw here (dict_get-replace_key i k v d here)
    | inr new ↦ rw new (dict_get-insert_key i k v d new)
  ]

  keys-replace_key :
      (i k : Text) (v : V) (d : List (Text × V))
      → count_if (has_key i) (replace_key k v d) ≡ count_if (has_key i) d
  keys-replace_key i k v [] = refl
  keys-replace_key i k v ((j, w) ∷ d) = ground (arith, keys-replace_key i k v d)

  -- A key stands once after it is set, if no key stood twice before.
  pub keys-dict_set :
      (i k : Text) (v : V) (d : List (Text × V))
      → ((j : Text) → count_if (has_key j) d ≤ 1)
      → count_if (has_key i) (dict_set k v d) ≤ 1
  keys-dict_set i k v d h = elim (Bool-cases (any (has_key k) d)) [
    | inl here ↦ rw (here, keys-replace_key i k v d) (h i)
    | inr new ↦
        let once = h i in
        rw new (ground (arith, once, count_if-insert_key (has_key i) k v d, none_yet new))
  ]
    where
      none_yet : any (has_key k) d ≡ false → (k == i) ≡ true → count_if (has_key i) d ≡ 0
      none_yet new same = count_if_of_any-false (has_key k) (has_key i) d (λ e n. ground arith) new

  any_of_dict_get :
      (k : Text) (v : V) (d : List (Text × V)) → dict_get k d ≡ some v → 0 < count_if (has_key k) d
  any_of_dict_get k v [] h = absurd (ground arith)
  any_of_dict_get k v ((j, w) ∷ d) h = ground (arith, any_of_dict_get k v d)

-- The first active attempt is the one that its key finds, if no key stands twice.
pub dict_get-first_active :
    (k : Text) (a : Attempt) (d : List (Text × Attempt))
    → ((j : Text) → count_if (has_key j) d ≤ 1)
    → first_active d ≡ some (k, a)
    → dict_get k d ≡ some a
dict_get-first_active k a [] h e = absurd (ground arith)
dict_get-first_active k a ((j, b) ∷ d) h e =
    let later = λ (i : first_active d ≡ some (k, a)).
      dict_get-first_active k a d (λ i. ground (arith, h i)) i in
    elim (Bool-cases (is_active_state b.state)) [
      | inl active ↦ ground arith
      | inr idle ↦ ground (arith, later, any_of_dict_get k a d, h k)
    ]

pub count_if_of_first_active-none :
    (d : List (Text × Attempt))
    → first_active d ≡ none
    → count_if (passes (λ (a : Attempt). is_active_state a.state)) d ≡ 0
count_if_of_first_active-none [] h = refl
count_if_of_first_active-none ((k, a) ∷ d) h = ground (arith, count_if_of_first_active-none d)

pub first_active_sound :
    (k : Text) (a : Attempt) (d : List (Text × Attempt))
    → first_active d ≡ some (k, a)
    → is_active_state a.state ≡ true
first_active_sound k a [] e = absurd (ground arith)
first_active_sound k a ((j, b) ∷ d) e = elim (Bool-cases (is_active_state b.state)) [
  | inl active ↦ ground arith
  | inr idle ↦ ground (arith, first_active_sound k a d)
]
