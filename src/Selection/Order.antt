-- ===== src/Selection/Order.antt =====
-- What the code of sim2policy/src/sim2policy/checkpoint_selection.py relies on in an order, and the
-- first greatest element of a list.
use nebius_serverless_challe.Prelude.{
  ◌+◌, ◌≡◌, refl, sym, ap, ◌∙◌, ◌⊎◌, inl, inr, Bool, true, false, Option, none, some, List, [], ◌∷◌,
  arith, if◌then◌else◌, Bool-cases, length, All, Memᴰ,
}

-- The test `<` on the values of a type: floats other than NaN have it, and so do ranking keys.
pub record Less (A : Type 0) : Type 0 where
  pub lt : A → A → Bool
  pub lt-asym : (a b : A) → lt a b ≡ true → lt b a ≡ false
  pub lt-cotrans : (a b c : A) → lt a c ≡ true → (lt a b ≡ true) ⊎ (lt b c ≡ true)

-- `max` keeps the first of the greatest elements.
module _ {A : Type 0} where
  abbrev pub max_from : (A → A → Bool) → A → List A → A
  max_from lt x [] = x
  max_from lt x (y ∷ ys) = max_from lt (if lt x y then y else x) ys

  -- `sorted` with `reverse=True` is stable: equal elements stay in their order.
  abbrev pub insert_desc : (A → A → Bool) → A → List A → List A
  insert_desc lt x [] = x ∷ []
  insert_desc lt x (y ∷ ys) = if lt x y then y ∷ insert_desc lt x ys else x ∷ y ∷ ys

  abbrev pub sort_desc : (A → A → Bool) → List A → List A
  sort_desc lt [] = []
  sort_desc lt (x ∷ xs) = insert_desc lt x (sort_desc lt xs)

  abbrev pub head? : List A → Option A
  head? [] = none
  head? (x ∷ xs) = some x

  pub length-insert_desc :
      (lt : A → A → Bool) (x : A) (ys : List A) → length (insert_desc lt x ys) ≡ length ys + 1
  length-insert_desc lt x [] = refl
  length-insert_desc lt x (y ∷ ys) = ground (arith, length-insert_desc lt x ys)

  pub length-sort_desc : (lt : A → A → Bool) (xs : List A) → length (sort_desc lt xs) ≡ length xs
  length-sort_desc lt [] = refl
  length-sort_desc lt (x ∷ xs) =
      omega (arith, length-insert_desc lt x (sort_desc lt xs), length-sort_desc lt xs)

  best : (A → A → Bool) → A → Option A → A
  best lt x none = x
  best lt x (some y) = if lt x y then y else x

  head-insert_desc :
      (lt : A → A → Bool) (x : A) (ys : List A)
      → head? (insert_desc lt x ys) ≡ some (best lt x (head? ys))
  unfolding best
  head-insert_desc lt x [] = refl
  head-insert_desc lt x (y ∷ ys) = ground arith

module _ {A : Type 0} (order : Less A) where
  open order use {lt, lt-asym, lt-cotrans}

  best_of_three :
      (x y z : A)
      → best lt (if lt x y then y else x) (some z) ≡ best lt x (some (best lt y (some z)))
  unfolding best
  best_of_three x y z = elim (Bool-cases (lt x y)) [
    | inl xy ↦ ground (arith, lt-cotrans x z y, lt-asym y z)
    | inr yx ↦ ground (arith, lt-cotrans x y z)
  ]

  best_step :
      (x y : A) (o : Option A)
      → best lt (if lt x y then y else x) o ≡ best lt x (some (best lt y o))
  best_step x y none = unfold best in refl
  best_step x y (some z) = best_of_three x y z

  max_from-best : (x : A) (ys : List A) → max_from lt x ys ≡ best lt x (head? (sort_desc lt ys))
  max_from-best x [] = unfold best in refl
  max_from-best x (y ∷ ys) =
      max_from-best (if lt x y then y else x) ys
      ∙ best_step x y (head? (sort_desc lt ys))
      ∙ ap (best lt x) (sym (head-insert_desc lt y (sort_desc lt ys)))

  -- The first element of the sorted list is the first greatest element.
  pub head-sort_desc :
      (x : A) (ys : List A) → head? (sort_desc lt (x ∷ ys)) ≡ some (max_from lt x ys)
  head-sort_desc x ys = head-insert_desc lt x (sort_desc lt ys) ∙ ap some (sym (max_from-best x ys))

  over_both :
      (x y greatest : A)
      → lt greatest (if lt x y then y else x) ≡ false
      → (lt greatest x ≡ false) × (lt greatest y ≡ false)
  over_both x y greatest h = elim (Bool-cases (lt x y)) [
    | inl less ↦ ground (arith, lt-asym x y, lt-cotrans greatest y x)
    | inr more ↦ ground (arith, lt-cotrans greatest x y)
  ]

  -- Nothing is greater than it.
  pub max_from-greatest :
      (x : A) (ys : List A) → All (λ y. lt (max_from lt x ys) y ≡ false) (x ∷ ys)
  max_from-greatest x [] = (ground (arith, lt-asym x x), tt)
  max_from-greatest x (y ∷ ys) =
      let m = if lt x y then y else x in
      let greatest = max_from lt m ys in
      let after = max_from-greatest m ys in
      let (over_x, over_y) = over_both x y greatest after.0 in (over_x, (over_y, after.1))

-- The elements with their keys, or `none` if a key raises.
abbrev pub with_keys : {A K : Type 0} → (A → Option K) → List A → Option (List (K × A))
with_keys key [] = some []
with_keys key (x ∷ xs) = elim (key x) [
  | none ↦ none
  | some k ↦ elim (with_keys key xs) [ none ↦ none | some rest ↦ some ((k, x) ∷ rest) ]
]

-- One of the elements, with its key, and that no element has a greater key.
pub record IsGreatest {A K : Type 0} (key : A → Option K) (lt : K → K → Bool) (xs : List A) (w : A)
    : Type 0 where
  pub own_key : K
  pub ranked : key w ≡ some own_key
  pub chosen_from : Memᴰ w xs
  pub greatest : All (λ x. (k : K) × (key x ≡ some k) × (lt own_key k ≡ false)) xs
