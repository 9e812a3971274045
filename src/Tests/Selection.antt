-- ===== src/Tests/Selection.antt =====
-- The selection of checkpoints of sim2policy/src/sim2policy/checkpoint_selection.py at concrete inputs.
use nebius_serverless_challe.Prelude.{
  ℕ, ◌-◌, ◌≡◌, refl, ◌⊎◌, inl, inr, true, false, some, List, [], ◌∷◌, arith, ltb, Bool-cases,
  length, All,
}
use nebius_serverless_challe.Selection.Order.{Less, IsGreatest}
use nebius_serverless_challe.Selection.{
  Floats, selection, by_locomotion, is_selection, Evidence, lex_lt, rank_key, select_checkpoint,
  Explanation, explain_ranking,
}
use nebius_serverless_challe.Selection.Winner.{
  select_checkpoint-IsGreatest, explain_ranking-select_checkpoint,
}

pub ltb-cotrans : (a b c : ℕ) → ltb a c ≡ true → (ltb a b ≡ true) ⊎ (ltb b c ≡ true)
ltb-cotrans a b c h = elim (Bool-cases (ltb a b)) [
  | inl less_now ↦ inl less_now
  | inr more ↦ inr (ground arith)
]

pub ltb-asym : (a b : ℕ) → ltb a b ≡ true → ltb b a ≡ false
ltb-asym a b h = ground arith

-- Whole numbers as floats, below a bound for the negation.
abbrev pub whole_numbers : Less ℕ
whole_numbers = record { lt = ltb; lt-asym = ltb-asym; lt-cotrans = ltb-cotrans }

abbrev pub floats : Floats
floats = record { Float = ℕ; less = whole_numbers; float_of = λ n. n; negated = λ n. 1000000 - n }

abbrev evidence_of : ℕ → ℕ → ℕ → Evidence floats
evidence_of identity step falls = record {
  identity = identity;
  role = selection;
  effective_step = step;
  sha256 = identity;
  aggregate = some (record {
    mean_reward_of = 10;
    mean_episode_length_of = 500;
    mean_velocity_of = 3;
    min_velocity_of = 2;
    no_fall_count = falls;
  });
}

-- The last two tie but for their step: the earlier checkpoint wins.
abbrev candidates : List (Evidence floats)
candidates = evidence_of 1 100 3 ∷ evidence_of 2 300 5 ∷ evidence_of 3 200 5 ∷ []

selected_test : select_checkpoint floats candidates by_locomotion ≡ some (evidence_of 3 200 5)
unfolding select_checkpoint rank_key
selected_test = refl

select_checkpoint-IsGreatest_example :
    IsGreatest
      (λ e. rank_key floats e by_locomotion)
      (lex_lt floats)
      candidates
      (evidence_of 3 200 5)
    × All (λ (c : Evidence floats). is_selection c.role ≡ true) candidates
select_checkpoint-IsGreatest_example =
    select_checkpoint-IsGreatest floats candidates by_locomotion (evidence_of 3 200 5) selected_test

explain_ranking-select_checkpoint_example :
    (x : Explanation floats) × (explain_ranking floats candidates
        (evidence_of 3 200 5)
        by_locomotion
      ≡ some x)
    × (x.candidate_count ≡ length candidates)
    × (x.selected.step ≡ 200)
    × (x.selected.digest ≡ 3)
    × (rank_key floats (evidence_of 3 200 5) by_locomotion ≡ some x.selected.values)
explain_ranking-select_checkpoint_example =
    explain_ranking-select_checkpoint floats candidates by_locomotion (evidence_of 3 200 5)
      selected_test
