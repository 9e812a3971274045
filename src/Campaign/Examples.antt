-- ===== src/Campaign/Examples.antt =====
-- `extend` and `accept` of sim2policy/src/sim2policy/showcase_campaign.py.
use nebius_serverless_challe.Prelude.{
  Text, String, Bool, true, false, not, ◌&&◌, ◌||◌, none, some, List, [], ◌∷◌, ◌==◌, if◌then◌else◌,
}
use nebius_serverless_challe.Campaign.State.{
  extension, Cleanup, pass, Attempt, Acceptance, Example, CampaignState, dict_get, dict_set,
}
use nebius_serverless_challe.Campaign.Commands.{
  exit_ok, exit_rejected, exit_needs_human, exit_invariant, Run, reply, raise_error, with_state,
  write_state,
}
use nebius_serverless_challe.Campaign.Planning.{Matrix, build_plan}

-- `state["examples"].get(example) or {}`
abbrev pub new_example : Example
new_example = record { extension_consumed = false; selection = none; acceptance = none }

abbrev pub example_of : Text → CampaignState → Example
example_of example s = elim (dict_get example s.examples) [ none ↦ new_example | some e ↦ e ]

abbrev pub set_example : Text → Example → CampaignState → CampaignState
set_example example e s = record s { examples = dict_set example e s.examples }

unfoldable pub extend : Matrix → Text → Text → Run
extend m example confirmation = with_state (λ s c.
    let e = example_of example s in
    if e.extension_consumed
    then reply exit_invariant "EXTENSION_ALREADY_CONSUMED" c
    else elim e.selection [
      | none ↦ reply exit_invariant "SELECTION_REQUIRED" c
      | some selection ↦ elim (build_plan m example selection.seed extension s) [
        | none ↦ raise_error c
        | some p ↦
            if confirmation == m.plan_digest p
            then reply exit_ok "SINGLE_EXTENSION_CONSUMED"
                (write_state (set_example example (record e { extension_consumed = true }) s) c)
            else reply exit_invariant "PLAN_DIGEST_MISMATCH" c
      ]
    ])

-- The outcomes of the two gates in a run's metrics.
pub record Gates : Type 0 where
  pub hard : Bool
  pub preferred : Bool

abbrev pub is_pass : Cleanup → Bool
is_pass pass = true
is_pass _ = false

-- all attempts of the example are cleaned up
abbrev pub cleanup_ok : Text → List (Text × Attempt) → Bool
cleanup_ok example [] = true
cleanup_ok example ((_, a) ∷ d) =
    (not (a.example == example) || is_pass a.cleanup_state) && cleanup_ok example d

pub data Decision : Type 0 where
  accept_it reject_it human_quality human_cleanup : Decision

abbrev pub decide : Bool → Bool → Bool → Decision
decide hard preferred clean =
    if not hard
    then reject_it
    else if not preferred
    then human_quality
    else if not clean
    then human_cleanup
    else accept_it

abbrev pub decision_name : Decision → String
decision_name accept_it = "ACCEPTED"
decision_name reject_it = "REJECTED"
decision_name human_quality = "NEEDS_HUMAN"
decision_name human_cleanup = "NEEDS_HUMAN"

abbrev pub decision_reply : Decision → Run
decision_reply accept_it = reply exit_ok "ACCEPTED_AND_PIN_READY"
decision_reply reject_it = reply exit_rejected "REJECTED_HARD_GATE"
decision_reply human_quality = reply exit_needs_human "NEEDS_HUMAN_QUALITY_TARGET"
decision_reply human_cleanup = reply exit_needs_human "CLEANUP_REQUIRED"

-- the part of `accept` from the gates of the selected run on
unfoldable pub judge_example : Gates → Text → CampaignState → Run
judge_example g example s c =
    let clean = cleanup_ok example s.attempts in
    let d = decide g.hard g.preferred clean in
    let outcome : Acceptance = record {
      hard_gate = g.hard;
      preferred_target = g.preferred;
      cleanup_passed = clean;
      decision = decision_name d;
    } in
    let e : Example = record (example_of example s) { acceptance = some outcome } in
    decision_reply d (write_state (set_example example e s) c)

-- `gates` gives the gates that a run's metrics record, both failed where they are missing.
unfoldable pub accept : (Text → Gates) → Text → Run
accept gates example = with_state (λ s c. elim (example_of example s).selection [
  | none ↦ reply exit_invariant "SELECTION_REQUIRED" c
  | some selection ↦ judge_example (gates selection.run_id) example s c
])
