-- ===== src/Auth/Codes.antt =====
-- One-time codes: when a guess succeeds, and how often one may guess.
use nebius_serverless_challe.Prelude.{
  ℕ, suc, ◌+◌, ◌≤◌, ◌<◌, Text, ◌≡◌, refl, ◌≢◌, ◌↔◌, ◌⊎◌, inl, inr, Option, none, some, List, [],
  ◌∷◌, arith, ltb, Bool-cases, Option-cases, length, All,
}
use native.Mathlib.Nat.{add-zero, add-suc, suc-add}
use nebius_serverless_challe.Models.{PendingCode}
use nebius_serverless_challe.Store.Auth.{
  AuthState, dict_get, dict_set, dict_get-dict_set, dict_get-dict_pop, get_code,
}
use nebius_serverless_challe.Auth.{max_verify_attempts, verify_code}

-- A guess signs in exactly if a code is pending for the address, it has not expired, at most four
-- guesses were made at it before, and the hashes agree.
pub verify_code_succeeds :
    (email hash token ttl now joined opened : ℕ) (s : AuthState)
    → ((verify_code email hash token ttl now joined opened s).0 ≡ some token) ↔ (
        (c : PendingCode) × (get_code email s ≡ some c)
        × (now ≤ c.expires_at)
        × (c.attempts < max_verify_attempts)
        × (c.code_hash ≡ hash))
unfolding verify_code
verify_code_succeeds email hash token ttl now joined opened s =
    elim (Option-cases (dict_get email s.codes)) [
      | inl missing ↦ (λ h. absurd (ground arith), λ k. ground arith)
      | inr (c, found) ↦ (
        λ h. (c, ground arith, ground arith, ground arith, ground arith),
        λ (c', p, q, r, t). ground arith,
      )
    ]

-- A code that signed in is used up.
pub verify_code-once :
    (email hash token ttl now joined opened : ℕ) (t : Text) (s : AuthState)
    → (verify_code email hash token ttl now joined opened s).0 ≡ some t
    → get_code email (verify_code email hash token ttl now joined opened s).1 ≡ none
unfolding verify_code
verify_code-once email hash token ttl now joined opened t s h =
    elim (Option-cases (dict_get email s.codes)) [
      | inl missing ↦ absurd (ground arith)
      | inr (c, found) ↦ ground (
        arith,
        dict_get-dict_pop email email
            (dict_set email (record c { attempts = c.attempts + 1 }) s.codes),
      )
    ]

-- A call of `verify_code` for one address: the hash of its code, its fresh token, the lifetime of
-- sessions, and its readings of the clock.
pub record Guess : Type 0 where
  pub hash : Text
  pub token : Text
  pub ttl : ℕ
  pub now : ℕ
  pub joined_at : ℕ
  pub opened_at : ℕ

pub guess : Text → Guess → AuthState → Option Text × AuthState
guess email g s = verify_code email g.hash g.token g.ttl g.now g.joined_at g.opened_at s

pub after_guesses : Text → List Guess → AuthState → AuthState
after_guesses email [] s = s
after_guesses email (g ∷ guesses) s = after_guesses email guesses (guess email g s).1

-- The code is gone, or it has been guessed at `n` times at least.
abbrev IsSpent : Text → Text → ℕ → AuthState → Type 0
IsSpent email hash n s =
    (get_code email s ≡ none)
    ⊎ ((c : PendingCode) × (get_code email s ≡ some c) × (c.code_hash ≡ hash) × (n ≤ c.attempts))

wrong_guess-IsSpent :
    (email hash n : ℕ) (g : Guess) (s : AuthState)
    → g.hash ≢ hash
    → IsSpent email hash n s
    → IsSpent email hash (suc n) (guess email g s).1
unfolding guess verify_code
wrong_guess-IsSpent email hash n g s wrong (inl gone) =
    inl (ground (arith, dict_get-dict_pop email email s.codes))
wrong_guess-IsSpent email hash n g s wrong (inr (c, found, same, count)) =
    let bumped : PendingCode = record c { attempts = c.attempts + 1 } in
    elim (Bool-cases (ltb c.expires_at g.now)) [
      | inl expired ↦ inl (ground (arith, dict_get-dict_pop email email s.codes))
      | inr live ↦ elim (Bool-cases (ltb max_verify_attempts (c.attempts + 1))) [
        | inl over ↦
            inl (ground (arith, dict_get-dict_pop email email (dict_set email bumped s.codes)))
        | inr within ↦ inr (
          bumped,
          ground (arith, dict_get-dict_set email email bumped s.codes),
          same,
          omega arith,
        )
      ]
    ]

after_wrong-IsSpent :
    (email hash n : ℕ) (guesses : List Guess) (s : AuthState)
    → All (λ (g : Guess). g.hash ≢ hash) guesses
    → IsSpent email hash n s
    → IsSpent email hash (n + length guesses) (after_guesses email guesses s)
unfolding after_guesses
after_wrong-IsSpent email hash n [] s wrong h = rw add-zero h
after_wrong-IsSpent email hash n (g ∷ guesses) s wrong h =
    rw (add-suc, ← suc-add)
      (after_wrong-IsSpent email hash (suc n) guesses (guess email g s).1 wrong.1
        (wrong_guess-IsSpent email hash n g s wrong.0 h))

spent_guess :
    (email hash n : ℕ) (g : Guess) (s : AuthState)
    → IsSpent email hash n s
    → max_verify_attempts ≤ n
    → (guess email g s).0 ≡ none
unfolding guess verify_code
spent_guess email hash n g s (inl gone) many = ground arith
spent_guess email hash n g s (inr (c, found, same, count)) many = ground arith

-- After five wrong guesses a code is dead: no further guess signs in, not even the right one.
pub five_wrong_guesses :
    (email : Text) (c : PendingCode) (guesses : List Guess) (g : Guess) (s : AuthState)
    → get_code email s ≡ some c
    → All (λ (w : Guess). w.hash ≢ c.code_hash) guesses
    → max_verify_attempts ≤ length guesses
    → (guess email g (after_guesses email guesses s)).0 ≡ none
five_wrong_guesses email c guesses g s found wrong many =
    spent
      (after_wrong-IsSpent email c.code_hash 0 guesses s wrong (inr (c, found, refl, omega arith)))
  where
    spent :
        IsSpent email c.code_hash (0 + length guesses) (after_guesses email guesses s)
        → (guess email g (after_guesses email guesses s)).0 ≡ none
    spent h = spent_guess email c.code_hash (0 + length guesses) g _ h (omega arith)
