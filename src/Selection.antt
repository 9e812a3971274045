-- ===== src/Selection.antt =====
-- sim2policy/src/sim2policy/checkpoint_selection.py: which checkpoint of a run is selected, and what
-- it must reach. Floats are a type with an order; NaN is not among them.
pub mod Order
pub mod Keys
pub mod Winner
use nebius_serverless_challe.Prelude.{
  ℕ, suc, Text, Bool, true, false, not, ◌&&◌, Option, none, some, List, [], ◌∷◌, ltb, leb, ◌==◌,
  if◌then◌else◌, length, any,
}
use nebius_serverless_challe.Selection.Order.{Less, max_from, sort_desc, with_keys}

-- The floats, with the conversion of a whole number and its negation.
pub record Floats : Type 1 where
  pub Float : Type 0
  pub less : Less Float
  pub float_of : ℕ → Float
  pub negated : ℕ → Float

pub data Role : Type 0 where
  selection final : Role

-- RANKING_FIELDS, and any other kind.
pub data Kind : Type 0 where
  by_mean_reward by_locomotion unknown_kind : Kind

abbrev pub is_selection : Role → Bool
is_selection selection = true
is_selection final = false

abbrev pub is_known : Kind → Bool
is_known unknown_kind = false
is_known _ = true

-- The criteria of acceptance: the design fields, and what a run is measured by.
pub data Criterion : Type 0 where
  assumed_reliability episodes required_horizons mean_reward mean_episode_length min_velocity
        mean_velocity unknown_criterion :
      Criterion

abbrev pub is_design : Criterion → Bool
is_design assumed_reliability = true
is_design _ = false

-- `validate_seed_roles` returns
unfoldable pub seed_roles_ok : List ℕ → List ℕ → Bool
seed_roles_ok selection_seeds final_seeds =
    ltb 0 (length selection_seeds)
    && ltb 0 (length final_seeds)
    && not (any (λ s. any (λ f. f == s) final_seeds) selection_seeds)

-- `evidence_for_selection` returns, with the seeds of the episodes
unfoldable pub selection_evidence_ok : List ℕ → List ℕ → List ℕ → Bool
selection_evidence_ok selection_seeds final_seeds episode_seeds =
    seed_roles_ok selection_seeds final_seeds
    && not (any (λ e. not (any (λ s. s == e) selection_seeds)) episode_seeds)

module _ (F : Floats) where
  open F use {Float, less, float_of, negated}

  -- `aggregate`; the means and the deviation of the statistics module are given.
  pub record Aggregate : Type 0 where
    pub mean_reward_of : Float
    pub mean_episode_length_of : Float
    pub mean_velocity_of : Float
    pub min_velocity_of : Float
    pub no_fall_count : ℕ

  -- An evaluation, told from others by its identity; without an episode it has no aggregate.
  pub record Evidence : Type 0 where
    pub identity : ℕ
    pub role : Role
    pub effective_step : ℕ
    pub sha256 : Text
    pub aggregate : Option Aggregate

  -- Tuples compare by their first different component.
  abbrev pub lex_lt : List Float → List Float → Bool
  lex_lt [] [] = false
  lex_lt [] (y ∷ ys) = true
  lex_lt (x ∷ xs) [] = false
  lex_lt (x ∷ xs) (y ∷ ys) =
      if less.lt x y then true else if less.lt y x then false else lex_lt xs ys

  abbrev pub aggregate_key : Aggregate → ℕ → Kind → Option (List Float)
  aggregate_key a step by_mean_reward =
      some (a.mean_reward_of ∷ a.mean_episode_length_of ∷ negated step ∷ [])
  aggregate_key a step by_locomotion = some (
      float_of a.no_fall_count
      ∷ a.min_velocity_of
      ∷ a.mean_episode_length_of
      ∷ a.mean_velocity_of
      ∷ a.mean_reward_of
      ∷ negated step
      ∷ [])
  aggregate_key a step unknown_kind = none

  -- `rank_key`, or `none` for a `SelectionError`
  unfoldable pub rank_key : Evidence → Kind → Option (List Float)
  rank_key e kind = elim e.aggregate [
    | none ↦ none
    | some a ↦ aggregate_key a e.effective_step kind
  ]

  -- The candidates with their keys, or `none` if a key raises.
  abbrev pub keyed : Kind → List Evidence → Option (List (List Float × Evidence))
  keyed kind = with_keys (λ e. rank_key e kind)

  abbrev pub key_lt : (List Float × Evidence) → (List Float × Evidence) → Bool
  key_lt a b = lex_lt a.0 b.0

  abbrev pub max_of : List (List Float × Evidence) → Option Evidence
  max_of [] = none
  max_of (x ∷ xs) = some (max_from key_lt x xs).1

  unfoldable pub select_checkpoint : List Evidence → Kind → Option Evidence
  select_checkpoint [] kind = none
  select_checkpoint (e ∷ es) kind =
      if any (λ c. not (is_selection c.role)) (e ∷ es)
      then none
      else elim (keyed kind (e ∷ es)) [ none ↦ none | some pairs ↦ max_of pairs ]

  -- A description of a candidate, and the explanation of a selection.
  pub record Description : Type 0 where
    pub step : ℕ
    pub digest : Text
    pub values : List Float

  pub record Explanation : Type 0 where
    pub candidate_count : ℕ
    pub selected : Description
    pub runner_up : Option Description

  abbrev pub describe : (List Float × Evidence) → Description
  describe p = record { step = p.1.effective_step; digest = p.1.sha256; values = p.0 }

  abbrev pub describe_first : List (List Float × Evidence) → Option Description
  describe_first [] = none
  describe_first (p ∷ ps) = some (describe p)

  abbrev pub explain_sorted : List (List Float × Evidence) → Evidence → Option Explanation
  explain_sorted [] e = none
  explain_sorted (p ∷ ps) e =
      if p.1.identity == e.identity
      then some (record {
        candidate_count = suc (length ps);
        selected = describe p;
        runner_up = describe_first ps;
      })
      else none

  unfoldable pub explain_ranking : List Evidence → Evidence → Kind → Option Explanation
  explain_ranking candidates e kind =
      if not (is_known kind) then none else elim (keyed kind candidates) [
        | none ↦ none
        | some pairs ↦ explain_sorted (sort_desc key_lt pairs) e
      ]

  -- `acceptance_from_aggregate`, or `none` for an unknown criterion: `target` is the whole number or
  -- the float that a criterion asks for.
  pub record Target : Type 0 where
    pub criterion : Criterion
    pub whole : ℕ
    pub float : Float

  abbrev pub at_least : Float → Float → Bool
  at_least x target = not (less.lt x target)

  abbrev pub measure : Aggregate → ℕ → Target → Option Bool
  measure a count t = elim t.criterion [
    | assumed_reliability ↦ none
    | episodes ↦ some (count == t.whole)
    | required_horizons ↦ some (leb t.whole a.no_fall_count)
    | mean_reward ↦ some (at_least a.mean_reward_of t.float)
    | mean_episode_length ↦ some (at_least a.mean_episode_length_of t.float)
    | min_velocity ↦ some (at_least a.min_velocity_of t.float)
    | mean_velocity ↦ some (at_least a.mean_velocity_of t.float)
    | unknown_criterion ↦ none
  ]

  unfoldable pub acceptance_from_aggregate :
      Aggregate → ℕ → List Target → Option (List (Criterion × Bool))
  acceptance_from_aggregate a count [] = some []
  acceptance_from_aggregate a count (t ∷ ts) =
      let rest = acceptance_from_aggregate a count ts in
      if is_design t.criterion then rest else elim (measure a count t) [
        | none ↦ none
        | some ok ↦ elim rest [ none ↦ none | some results ↦ some ((t.criterion, ok) ∷ results) ]
      ]

  unfoldable pub acceptance_result : Evidence → ℕ → List Target → Option (List (Criterion × Bool))
  acceptance_result e count criteria =
      if is_selection e.role
      then none
      else elim e.aggregate [ none ↦ none | some a ↦ acceptance_from_aggregate a count criteria ]
