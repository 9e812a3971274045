-- ===== src/Tests/Campaign.antt =====
-- The campaign controller of sim2policy/src/sim2policy/showcase_campaign.py at concrete inputs.
use nebius_serverless_challe.Prelude.{
  ◌+◌, ◌*◌, ◌≤◌, Text, ◌≡◌, refl, sym, ◌∙◌, ◌⊎◌, true, none, some, List, [], ◌∷◌, ◌==◌,
  if◌then◌else◌, count_if,
}
use nebius_serverless_challe.Selection.{by_locomotion}
use nebius_serverless_challe.Tests.Selection.{floats}
use nebius_serverless_challe.Campaign.State.{
  planned, submitted, base, not_started, Attempt, CampaignState, Campaign, dict_get, active_attempt,
}
use nebius_serverless_challe.Campaign.Commands.{state_of, save_attempt}
use nebius_serverless_challe.Campaign.State.{has_key}
use nebius_serverless_challe.Campaign.Commands.{located, initialize, implementation_gate}
use nebius_serverless_challe.Campaign.Planning.{Matrix, build_plan, planned_attempt, plan}
use nebius_serverless_challe.Campaign.Submission.{submit_remote, submit_attempt, submit}
use nebius_serverless_challe.Campaign.Submission.Launches.{IsLaunch, submit-IsLaunch}
use nebius_serverless_challe.Campaign.Submission.Once.{Call, submit_each, submit_once}
use nebius_serverless_challe.Campaign.Serialized.{active_count, IsSerialized}
use nebius_serverless_challe.Campaign.Effects.{as_submission, Effects}
use nebius_serverless_challe.Campaign.History.{
  Command, initialize_it, gate_it, plan_it, submit_it, dispatch, command, Reachable, start, next,
  new_campaign, CampaignStep-Effects, Reachable-IsSerialized, Reachable-active_count,
}
use nebius_serverless_challe.Campaign.History.Journal.{last_state, Agrees, last_state_replays}

-- A matrix with one example and two seeds.
abbrev pub matrix : Matrix
matrix = record {
  digest = 7;
  card = λ e.
      if e == 1
      then some (record {
        seeds = 11 ∷ 12 ∷ [];
        base_steps = 100;
        extension_steps = some 50;
        ranking = by_locomotion;
      })
      else none;
  image = λ e. some 5;
  authorized = λ e. true;
  attempt_key = λ e seed phase. e * 1000 + seed;
  run_id = λ e seed phase. some (e * 2000 + seed);
  has_subnet = true;
  has_registry_secret = true;
  plan_digest = λ p. p.run_id + p.effective_steps;
  idempotency_key = λ e seed phase number digest. digest;
}

abbrev empty_list : List Text
empty_list = []

abbrev pub planned_command : Command floats
planned_command = plan_it matrix 1 11 base

abbrev pub submit_command : Command floats
submit_command = submit_it matrix 1 11 base 2111 (some 900) none 40

abbrev gated : Campaign
gated = record {
  state = some (record { matrix_digest = 7; gate_passed = true; attempts = []; examples = [] });
  journal = [];
  submissions = [];
}

abbrev planned_files : Campaign
planned_files = record {
  state = some (record {
    matrix_digest = 7;
    gate_passed = true;
    attempts =
        (
          1011,
          record {
            example = 1;
            seed = 11;
            phase = base;
            attempt_number = 1;
            state = planned;
            plan_digest = 2111;
            run_id = 2011;
            remote_id = none;
            idempotency_key = 2111;
            evidence_digest = none;
            cleanup_state = not_started;
            retries_consumed = 0;
            reason_code = none;
            heartbeat_at = 0;
            provider_terminal_state = none;
          },
        )
        ∷ [];
    examples = [];
  });
  journal = record { command = "plan"; key = 1011; before = none; after = planned } ∷ [];
  submissions = [];
}

planned_files_test : (dispatch planned_command gated).1 ≡ planned_files
unfolding dispatch plan save_attempt build_plan planned_attempt
planned_files_test = refl

-- The files after `init`, the gate, `plan` and `submit`.
abbrev pub initialized : Campaign
initialized = (dispatch {F = floats} (initialize_it 7) new_campaign).1

abbrev pub passed_gate : Campaign
passed_gate = (dispatch {F = floats} (gate_it (located true ∷ [])) initialized).1

abbrev pub planned_campaign : Campaign
planned_campaign = (dispatch planned_command passed_gate).1

abbrev pub submitted_campaign : Campaign
submitted_campaign = (dispatch submit_command planned_campaign).1

abbrev pub submitted_one : Attempt
submitted_one = record {
  example = 1;
  seed = 11;
  phase = base;
  attempt_number = 1;
  state = submitted;
  plan_digest = 2111;
  run_id = 2011;
  remote_id = some 900;
  idempotency_key = 2111;
  evidence_digest = none;
  cleanup_state = not_started;
  retries_consumed = 0;
  reason_code = none;
  heartbeat_at = 40;
  provider_terminal_state = none;
}

abbrev pub submitted_state : CampaignState
submitted_state = record {
  matrix_digest = 7;
  gate_passed = true;
  attempts = (1011, submitted_one) ∷ [];
  examples = [];
}

planned_state_test : planned_campaign.state ≡ planned_files.state
unfolding dispatch initialize implementation_gate plan save_attempt build_plan planned_attempt
planned_state_test = refl

pub submitted_state_test : submitted_campaign.state ≡ some submitted_state
unfolding dispatch initialize implementation_gate plan submit submit_attempt submit_remote
    save_attempt build_plan planned_attempt active_attempt
submitted_state_test = refl

planned_reachable : Reachable floats planned_campaign
planned_reachable =
    next
      (next (next start (command new_campaign (initialize_it 7)))
        (command initialized (gate_it (located true ∷ []))))
      (command passed_gate planned_command)

pub submitted_reachable : Reachable floats submitted_campaign
submitted_reachable = next planned_reachable (command planned_campaign submit_command)

Reachable-active_count_example :
    ((k : Text) → count_if (has_key k) submitted_state.attempts ≤ 1)
    × (active_count submitted_state.attempts ≤ 1)
Reachable-active_count_example =
    Reachable-active_count submitted_state submitted_reachable submitted_state_test

last_state_replays_example :
    Agrees
      (last_state 1011 submitted_campaign.journal)
      (state_of (dict_get 1011 submitted_state.attempts))
last_state_replays_example =
    last_state_replays submitted_state 1011 submitted_reachable submitted_state_test

planned_IsSerialized : IsSerialized planned_files
planned_IsSerialized = record {
  at = λ s e. (Reachable-IsSerialized planned_reachable).at s (planned_state_test ∙ e);
}

CampaignStep-Effects_example :
    Effects as_submission planned_files (dispatch submit_command planned_files).1
CampaignStep-Effects_example =
    CampaignStep-Effects (command planned_files submit_command) planned_IsSerialized

submit-IsLaunch_example :
    ((submit matrix 1 11 base 2111 (some 900) none 40 planned_files).1.submissions ≡ [])
    ⊎ IsLaunch matrix 1 11 base 2111 planned_files
        (submit matrix 1 11 base 2111 (some 900) none 40 planned_files).1
submit-IsLaunch_example =
    submit-IsLaunch matrix 1 11 base 2111 (some 900) none 40 planned_files planned_IsSerialized

launched_test : (submit matrix 1 11 base 2111 none none 40 planned_files).1.submissions ≡ 2011 ∷ []
unfolding submit submit_attempt submit_remote save_attempt build_plan active_attempt
launched_test = refl

-- The first call fails, and the two after it would be answered.
abbrev call_failed : Call
call_failed = record { confirmation = 2111; answer = none; adopted = none; clock = 40 }

abbrev later_calls : List Call
later_calls =
    record { confirmation = 2111; answer = some 901; adopted = none; clock = 50 }
    ∷ record { confirmation = 2111; answer = some 902; adopted = none; clock = 60 }
    ∷ []

launched_once_test :
    (submit_each matrix 1 11 base (call_failed ∷ []) planned_files).submissions ≡ 2011 ∷ []
unfolding submit_each
launched_once_test = launched_test

submit_once_example :
    submit_each matrix 1 11 base (call_failed ∷ later_calls) planned_files
    ≡ submit_each matrix 1 11 base (call_failed ∷ []) planned_files
submit_once_example =
    submit_once matrix 1 11 base call_failed later_calls planned_files planned_IsSerialized
      (λ e. let two : 2011 ∷ [] ≡ empty_list = sym launched_once_test ∙ e in cc)
