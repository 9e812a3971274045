-- ===== src/Orchestration/States/Spelling.antt =====
-- The spellings of a remote state that are read alike.
use nebius_serverless_challe.Prelude.{
  ℕ, ◌≡◌, refl, ap, ◌∙◌, [], ◌∷◌, ◌++◌, arith, ◌==◌, if◌then◌else◌,
}
use nebius_serverless_challe.Orchestration.States.{
  RawState, upper_code, upper, last_word, map_nebius_state, state_of_word,
}

last_word_skips : (whole p s : RawState) → last_word whole (p ++ b'_' ∷ s) ≡ last_word s s
last_word_skips whole [] s = refl
last_word_skips whole (c ∷ p) s = last_word_skips (if c == b'_' then p ++ b'_' ∷ s else whole) p s

-- A prefix that ends in an underscore, such as `JOB_STATE_`, makes no difference.
pub map_nebius_state-prefix :
    (p s : RawState) → map_nebius_state (p ++ b'_' ∷ s) ≡ map_nebius_state s
unfolding map_nebius_state
map_nebius_state-prefix p s =
    ap (λ w. state_of_word (upper w)) (last_word_skips (p ++ b'_' ∷ s) p s)

upper_code-upper_code : (c : ℕ) → upper_code (upper_code c) ≡ upper_code c
unfolding upper_code
upper_code-upper_code c = ground arith

upper_code-underscore : (c : ℕ) → (upper_code c == b'_') ≡ (c == b'_')
unfolding upper_code
upper_code-underscore c = ground arith

upper-upper : (s : RawState) → upper (upper s) ≡ upper s
upper-upper [] = refl
upper-upper (c ∷ s) = rw (upper_code-upper_code c, upper-upper s)

last_word-upper :
    (whole s : RawState) → last_word (upper whole) (upper s) ≡ upper (last_word whole s)
last_word-upper whole [] = refl
last_word-upper whole (c ∷ s) =
    ground (arith, upper_code-underscore c, last_word-upper s s, last_word-upper whole s)

-- Lower and upper case letters make no difference.
pub map_nebius_state-upper : (s : RawState) → map_nebius_state (upper s) ≡ map_nebius_state s
unfolding map_nebius_state
map_nebius_state-upper s =
    ap (λ w. state_of_word w) (ap upper (last_word-upper s s) ∙ upper-upper (last_word s s))
