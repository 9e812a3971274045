-- ===== src/Campaign/Selecting.antt =====
-- `select` and `_rank_key` of sim2policy/src/sim2policy/showcase_campaign.py.
pub mod Choice
pub mod Ranking
use nebius_serverless_challe.Prelude.{
  ℕ, suc, Text, String, Bool, false, not, ◌&&◌, Option, none, some, List, [], ◌∷◌, ◌==◌,
  if◌then◌else◌, is_some, length, any,
}
use nebius_serverless_challe.Campaign.State.{
  verified, accepted, rejected, cleaned, in_states, base, Attempt, Selection, Example,
  CampaignState, dict_get,
}
use nebius_serverless_challe.Campaign.Commands.{
  exit_ok, exit_needs_human, exit_invariant, Run, reply, raise_error, with_state, write_state,
}
use nebius_serverless_challe.Selection.Order.{sort_desc, with_keys}
use nebius_serverless_challe.Selection.{
  Floats, Kind, by_mean_reward, by_locomotion, unknown_kind, lex_lt,
}
use nebius_serverless_challe.Campaign.Planning.{Card, Matrix}
use nebius_serverless_challe.Campaign.Examples.{example_of, set_example}

-- The states in which a base seed is settled, and those of a candidate.
abbrev pub is_settled_seed : Option Attempt → Bool
is_settled_seed none = false
is_settled_seed (some a) = in_states a.state (verified ∷ cleaned ∷ accepted ∷ rejected ∷ [])

abbrev pub is_candidate : Text → Attempt → Bool
is_candidate example a =
    a.example == example && in_states a.state (verified ∷ cleaned ∷ accepted ∷ [])

module _ (F : Floats) where
  open F use {Float, less, float_of, negated}

  -- An aggregate of a run's metrics, in which a value may be missing.
  pub record RunAggregate : Type 0 where
    pub mean_reward_of : Option Float
    pub mean_episode_length_of : Option Float
    pub mean_velocity_of : Option Float
    pub min_velocity_of : Option Float
    pub no_fall_count : Option ℕ

  abbrev pub or_zero : Option Float → Float
  or_zero none = float_of 0
  or_zero (some x) = x

  abbrev pub count_or_zero : Option ℕ → Float
  count_or_zero none = float_of 0
  count_or_zero (some n) = float_of n

  -- `_rank_key`, or `none` for a `CampaignError`
  unfoldable pub campaign_rank_key : RunAggregate → Kind → ℕ → Option (List Float)
  campaign_rank_key a by_mean_reward step =
      some (or_zero a.mean_reward_of ∷ or_zero a.mean_episode_length_of ∷ negated step ∷ [])
  campaign_rank_key a by_locomotion step = some (
      count_or_zero a.no_fall_count
      ∷ or_zero a.min_velocity_of
      ∷ or_zero a.mean_episode_length_of
      ∷ or_zero a.mean_velocity_of
      ∷ or_zero a.mean_reward_of
      ∷ negated step
      ∷ [])
  campaign_rank_key a unknown_kind step = none

  -- What the metrics of an attempt give; `evidence_run_id` is none where the attempt's own run is
  -- read.
  pub record Metrics : Type 0 where
    pub evidence_run_id : Option Text
    pub checkpoint_sha256 : Text
    pub effective_step : ℕ
    pub aggregate : RunAggregate
    pub preferred_passed : Bool

  pub record Candidate : Type 0 where
    pub run_id : Text
    pub seed : ℕ
    pub metrics : Metrics

  abbrev pub candidate_of : Attempt → Metrics → Candidate
  candidate_of a m = record {
    run_id = elim m.evidence_run_id [ none ↦ a.run_id | some id ↦ id ];
    seed = a.seed;
    metrics = m;
  }

  -- `metrics` gives what is read for the attempt of a key, and `none` without a reader or without a
  -- selected checkpoint and an aggregate.
  abbrev pub candidates_of : (Text → Option Metrics) → Text → List (Text × Attempt) → List Candidate
  candidates_of metrics example [] = []
  candidates_of metrics example ((key, a) ∷ attempts) =
      let rest = candidates_of metrics example attempts in
      if is_candidate example a
      then elim (metrics key) [ none ↦ rest | some m ↦ candidate_of a m ∷ rest ]
      else rest

  abbrev pub key_of : Kind → Candidate → Option (List Float)
  key_of kind x = campaign_rank_key x.metrics.aggregate kind x.metrics.effective_step

  abbrev pub by_key : (List Float × Candidate) → (List Float × Candidate) → Bool
  by_key a b = lex_lt F a.0 b.0

  abbrev pub run_of_first : List (List Float × Candidate) → Option Text
  run_of_first [] = none
  run_of_first (p ∷ ps) = some p.1.run_id

  abbrev pub selection_decision : Bool → Option ℕ → Bool → String
  selection_decision preferred extension_steps consumed =
      if preferred
      then "EXTENSION_SKIPPED_QUALITY_MET"
      else if is_some extension_steps && not consumed
      then "EXTENSION_REQUIRED"
      else "NO_EXTENSION_REMAINING"

  -- the selection of the first of the sorted candidates, and its record
  abbrev pub chosen_selection :
      Card → Example → List Float × Candidate → List (List Float × Candidate) → Selection
  chosen_selection card e p ps = record {
    run_id = p.1.run_id;
    seed = p.1.seed;
    checkpoint_sha256 = p.1.metrics.checkpoint_sha256;
    effective_step = p.1.metrics.effective_step;
    runner_up = run_of_first ps;
    candidate_count = suc (length ps);
    preferred_passed = p.1.metrics.preferred_passed;
    decision =
        selection_decision p.1.metrics.preferred_passed card.extension_steps e.extension_consumed;
  }

  abbrev pub with_selection : Text → Selection → CampaignState → CampaignState
  with_selection example chosen s =
      set_example example (record (example_of example s) { selection = some chosen }) s

  unfoldable pub record_selection :
      Card → Text → CampaignState → List (List Float × Candidate) → Run
  record_selection card example s [] c = raise_error c
  record_selection card example s (p ∷ ps) c =
      reply exit_ok "SELECTION_RECORDED" (
        write_state (with_selection example (chosen_selection card (example_of example s) p ps) s)
          c)

  unfoldable pub rank_candidates : Card → Text → CampaignState → List Candidate → Run
  rank_candidates card example s [] c = reply exit_needs_human "NO_VERIFIED_CANDIDATES" c
  rank_candidates card example s (x ∷ xs) c = elim (with_keys (key_of card.ranking) (x ∷ xs)) [
    | none ↦ raise_error c
    | some pairs ↦ record_selection card example s (sort_desc by_key pairs) c
  ]

  unfoldable pub select : Matrix → (Text → Option Metrics) → Text → Run
  select m metrics example = with_state (λ s c. elim (m.card example) [
    | none ↦ raise_error c
    | some card ↦
        if any
          (λ seed. not (is_settled_seed (dict_get (m.attempt_key example seed base) s.attempts)))
          card.seeds
        then reply exit_invariant "BASE_SEEDS_INCOMPLETE" c
        else rank_candidates card example s (candidates_of metrics example s.attempts) c
  ])
