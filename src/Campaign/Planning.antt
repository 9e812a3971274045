-- ===== src/Campaign/Planning.antt =====
-- `build_plan` and `plan` of sim2policy/src/sim2policy/showcase_campaign.py.
use nebius_serverless_challe.Prelude.{
  ℕ, Text, Bool, true, not, ◌&&◌, ◌||◌, Option, none, some, List, [], ◌∷◌, ◌==◌, if◌then◌else◌, any,
}
use nebius_serverless_challe.Orchestration.Resume.{truthy}
use nebius_serverless_challe.Selection.{Kind}
use nebius_serverless_challe.Campaign.State.{
  planned, preflighted, needs_human, state_eq, in_states, Phase, base, extension, Cleanup,
  not_started, Attempt, Selection, CampaignState, dict_get,
}
use nebius_serverless_challe.Campaign.Commands.{
  exit_ok, exit_invariant, Run, reply, raise_error, with_state, save_attempt,
}

-- The parts of an example's card that the controller decides by.
pub record Card : Type 0 where
  pub seeds : List ℕ
  pub base_steps : ℕ
  pub extension_steps : Option ℕ
  pub ranking : Kind

-- The parent of an extension, from the recorded selection.
pub record Parent : Type 0 where
  pub run_id : Text
  pub checkpoint_sha256 : Text
  pub effective_step : ℕ

pub record Plan : Type 0 where
  pub example : Text
  pub seed : ℕ
  pub phase : Phase
  pub run_id : Text
  pub image_digest : Text
  pub matrix_digest : Text
  pub effective_steps : ℕ
  pub parent : Option Parent

-- The reviewed matrix and the environment: the cards by example, the recorded image evidence, the
-- authorization of g1 (true for every other example), the names of attempts and runs, `none` being a
-- name that `validate_run_identity` refuses, and the digest of a plan and of an attempt.
pub record Matrix : Type 0 where
  pub digest : Text
  pub card : Text → Option Card
  pub image : Text → Option Text
  pub authorized : Text → Bool
  pub attempt_key : Text → ℕ → Phase → Text
  pub run_id : Text → ℕ → Phase → Option Text
  pub has_subnet : Bool
  pub has_registry_secret : Bool
  pub plan_digest : Plan → Text
  pub idempotency_key : Text → ℕ → Phase → ℕ → Text → Text

abbrev pub selection_of : Text → CampaignState → Option Selection
selection_of example s = elim (dict_get example s.examples) [ none ↦ none | some e ↦ e.selection ]

abbrev pub parent_of : Selection → Parent
parent_of s = record {
  run_id = s.run_id;
  checkpoint_sha256 = s.checkpoint_sha256;
  effective_step = s.effective_step;
}

-- The steps of a phase and the parent, or `none` for a `CampaignError`.
abbrev pub phase_steps : Card → Phase → Option ℕ
phase_steps card base = some card.base_steps
phase_steps card extension = card.extension_steps

abbrev pub phase_parent : Text → CampaignState → Phase → Option (Option Parent)
phase_parent example s base = some none
phase_parent example s extension = elim (selection_of example s) [
  | none ↦ none
  | some selection ↦ some (some (parent_of selection))
]

-- `build_plan`, or `none` for a `CampaignError`
unfoldable pub build_plan : Matrix → Text → ℕ → Phase → CampaignState → Option Plan
build_plan m example seed phase s = elim (m.card example) [
  | none ↦ none
  | some card ↦
      if not (any (λ k. k == seed) card.seeds) then none else elim (phase_steps card phase) [
        | none ↦ none
        | some steps ↦ elim (m.image example) [
          | none ↦ none
          | some image ↦
              if not (m.authorized example) then none else elim (m.run_id example seed phase) [
                | none ↦ none
                | some run_id ↦ elim (phase_parent example s phase) [
                  | none ↦ none
                  | some parent ↦
                      if m.has_subnet && m.has_registry_secret
                      then some (record {
                        example = example;
                        seed = seed;
                        phase = phase;
                        run_id = run_id;
                        image_digest = image;
                        matrix_digest = m.digest;
                        effective_steps = steps;
                        parent = parent;
                      })
                      else none
                ]
              ]
        ]
      ]
]

-- What a new plan keeps of an attempt.
abbrev pub attempt_number_of : Option Attempt → ℕ
attempt_number_of none = 1
attempt_number_of (some a) = a.attempt_number

abbrev pub remote_id_of : Option Attempt → Option Text
remote_id_of none = none
remote_id_of (some a) = a.remote_id

abbrev pub cleanup_of : Option Attempt → Cleanup
cleanup_of none = not_started
cleanup_of (some a) = a.cleanup_state

abbrev pub retries_of : Option Attempt → ℕ
retries_of none = 0
retries_of (some a) = a.retries_consumed

unfoldable pub planned_attempt : Matrix → Plan → Option Attempt → Attempt
planned_attempt m p existing = record {
  example = p.example;
  seed = p.seed;
  phase = p.phase;
  attempt_number = attempt_number_of existing;
  state = planned;
  plan_digest = m.plan_digest p;
  run_id = p.run_id;
  remote_id = remote_id_of existing;
  idempotency_key =
      m.idempotency_key p.example p.seed p.phase (attempt_number_of existing) (m.plan_digest p);
  evidence_digest = none;
  cleanup_state = cleanup_of existing;
  retries_consumed = retries_of existing;
  reason_code = none;
  heartbeat_at = 0;
  provider_terminal_state = none;
}

-- `existing` is none, or in a state from which it is planned again
abbrev pub is_replannable : Option Attempt → Bool
is_replannable none = true
is_replannable (some a) =
    in_states a.state (planned ∷ preflighted ∷ [])
    || (state_eq a.state needs_human && not (truthy a.remote_id))

unfoldable pub plan : Matrix → Text → ℕ → Phase → Run
plan m example seed phase = with_state (λ s c.
    if not (s.matrix_digest == m.digest)
    then reply exit_invariant "MATRIX_DIGEST_MISMATCH" c
    else elim (build_plan m example seed phase s) [
      | none ↦ raise_error c
      | some p ↦
          let key = m.attempt_key example seed phase in
          let existing = dict_get key s.attempts in
          if not (is_replannable existing)
          then reply exit_ok "IDEMPOTENT" c
          else save_attempt "plan" key (planned_attempt m p existing) s
              (λ s'. reply exit_ok "REVIEW_REQUIRED") c
    ])
