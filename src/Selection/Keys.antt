-- ===== src/Selection/Keys.antt =====
-- The ranking keys of sim2policy/src/sim2policy/checkpoint_selection.py and their order.
use mathlib.Core.Path.{subst}
use nebius_serverless_challe.Prelude.{
  ◌≡◌, refl, sym, ◌⊎◌, inl, inr, Bool, true, false, Option, some, List, [], ◌∷◌, arith, Bool-cases,
  Option-cases, length, All, All-map, Memᴰ,
}
use nebius_serverless_challe.Selection.Order.{
  Less, max_from, with_keys, IsGreatest, max_from-greatest,
}
use nebius_serverless_challe.Selection.{Floats, lex_lt}

module _ (F : Floats) where
  open F use {Float, less}

  pub lex_lt-asym : (xs ys : List Float) → lex_lt F xs ys ≡ true → lex_lt F ys xs ≡ false
  lex_lt-asym [] [] h = refl
  lex_lt-asym [] (y ∷ ys) h = refl
  lex_lt-asym (x ∷ xs) [] h = absurd (ground arith)
  lex_lt-asym (x ∷ xs) (y ∷ ys) h = ground (arith, less.lt-asym x y, lex_lt-asym xs ys)

  pub lex_lt-cotrans :
      (xs ys zs : List Float)
      → lex_lt F xs zs ≡ true
      → (lex_lt F xs ys ≡ true) ⊎ (lex_lt F ys zs ≡ true)
  lex_lt-cotrans [] [] zs h = inr h
  lex_lt-cotrans [] (y ∷ ys) zs h = inl refl
  lex_lt-cotrans (x ∷ xs) ys [] h = absurd (ground arith)
  lex_lt-cotrans (x ∷ xs) [] (z ∷ zs) h = inr refl
  lex_lt-cotrans (x ∷ xs) (y ∷ ys) (z ∷ zs) h = elim (Bool-cases (lex_lt F (x ∷ xs) (y ∷ ys))) [
    | inl less_now ↦ inl less_now
    | inr not_less ↦ inr (
        ground (
          arith,
          less.lt-cotrans x y z,
          less.lt-cotrans y z x,
          less.lt-cotrans z x y,
          less.lt-asym x z,
          less.lt-asym x y,
          lex_lt-cotrans xs ys zs,
        ))
  ]

  -- Pairs of a ranking key and an element, by the keys.
  abbrev pub key_order : {A : Type 0} → Less (List Float × A)
  key_order = record {
    lt = λ a b. lex_lt F a.0 b.0;
    lt-asym = λ a b. lex_lt-asym a.0 b.0;
    lt-cotrans = λ a b c. lex_lt-cotrans a.0 b.0 c.0;
  }

module _ {A K : Type 0} (key : A → Option K) where
  with_keys_cons :
      (x : A) (xs : List A) (pairs : List (K × A))
      → with_keys key (x ∷ xs) ≡ some pairs
      → (k : K) × (rest : List (K × A)) × (key x ≡ some k)
        × (with_keys key xs ≡ some rest)
        × (pairs ≡ (k, x) ∷ rest)
  with_keys_cons x xs pairs h = elim (Option-cases (key x)) [
    | inl failed ↦ absurd (ground arith)
    | inr (k, one) ↦ elim (Option-cases (with_keys key xs)) [
      | inl failed ↦ absurd (ground arith)
      | inr (rest, others) ↦ (k, rest, one, others, ground arith)
    ]
  ]

  pub length-with_keys :
      (xs : List A) (pairs : List (K × A))
      → with_keys key xs ≡ some pairs
      → length pairs ≡ length xs
  length-with_keys [] pairs h = ground arith
  length-with_keys (x ∷ xs) pairs h =
      let (k, rest, one, others, same) = with_keys_cons x xs pairs h in
      rw same (omega (arith, length-with_keys xs rest others))

  -- Every element has a key, and what holds of the keys holds of the elements' keys.
  with_keys-All :
      (P : K → Type 0) (xs : List A) (pairs : List (K × A))
      → with_keys key xs ≡ some pairs
      → All (λ (p : K × A). P p.0) pairs
      → All (λ (x : A). (k : K) × (key x ≡ some k) × P k) xs
  with_keys-All P [] pairs h all = tt
  with_keys-All P (x ∷ xs) pairs h all =
      let (k, rest, one, others, same) = with_keys_cons x xs pairs h in
      let all' = subst (All (λ (p : K × A). P p.0)) same all in
      ((k, one, all'.0), with_keys-All P xs rest others all'.1)

  -- Each pair is an element with its key.
  abbrev IsPair : List A → K × A → Type 0
  IsPair xs p = (key p.1 ≡ some p.0) × Memᴰ p.1 xs

  with_keys_sound :
      (xs : List A) (pairs : List (K × A)) → with_keys key xs ≡ some pairs → All (IsPair xs) pairs
  with_keys_sound [] pairs h =
      let same : [] ≡ pairs = ground arith in subst (All (IsPair [])) same tt
  with_keys_sound (x ∷ xs) pairs h =
      let (k, rest, one, others, same) = with_keys_cons x xs pairs h in
      let later =
        All-map (IsPair xs) (IsPair (x ∷ xs)) (λ p m. (m.0, Memᴰ.tail m.1)) rest
          (with_keys_sound xs rest others) in
      subst (All (IsPair (x ∷ xs))) (sym same) ((one, Memᴰ.head refl), later)

  All-max_from :
      {B : Type 0} (P : B → Type 0) (lt : B → B → Bool) (x : B) (xs : List B)
      → All P (x ∷ xs)
      → P (max_from lt x xs)
  All-max_from P lt x [] h = h.0
  All-max_from P lt x (y ∷ ys) h = elim (Bool-cases (lt x y)) [
    | inl less_now ↦ rw less_now (All-max_from P lt y ys (h.1.0, h.1.1))
    | inr more ↦ rw more (All-max_from P lt x ys (h.0, h.1.1))
  ]

  pub max_from-ranked :
      (order : Less (K × A)) (p : K × A) (ps : List (K × A)) (xs : List A)
      → with_keys key xs ≡ some (p ∷ ps)
      → key (max_from order.lt p ps).1 ≡ some (max_from order.lt p ps).0
  max_from-ranked order p ps xs h =
      (All-max_from (IsPair xs) order.lt p ps (with_keys_sound xs (p ∷ ps) h)).0

  -- The first greatest of the pairs is an element with the greatest key.
  pub max_from-IsGreatest :
      (lt : K → K → Bool) (order : Less (K × A)) (p : K × A) (ps : List (K × A)) (xs : List A)
      → order.lt ≡ (λ a b. lt a.0 b.0)
      → with_keys key xs ≡ some (p ∷ ps)
      → IsGreatest key lt xs (max_from order.lt p ps).1
  max_from-IsGreatest lt order p ps xs by_keys h =
      let top = max_from order.lt p ps in
      let own = All-max_from (IsPair xs) order.lt p ps (with_keys_sound xs (p ∷ ps) h) in
      let over : All (λ (q : K × A). lt top.0 q.0 ≡ false) (p ∷ ps) =
        subst (λ (f : K × A → K × A → Bool). All (λ (q : K × A). f top q ≡ false) (p ∷ ps)) by_keys
          (max_from-greatest order p ps) in
      record {
        own_key = top.0;
        ranked = own.0;
        chosen_from = own.1;
        greatest = with_keys-All (λ k. lt top.0 k ≡ false) xs (p ∷ ps) h over;
      }
