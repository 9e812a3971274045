-- ===== src/Tests/Runs.antt =====
-- Watching, verifying, selecting and accepting in showcase_campaign.py of sim2policy/src/sim2policy at
-- concrete inputs.
use nebius_serverless_challe.Prelude.{
  Text, ◌≡◌, refl, ◌∙◌, ◌≢◌, inl, inr, true, false, Option, none, some, [], ◌∷◌, ◌++◌, map, arith,
}
use nebius_serverless_challe.Selection.{by_locomotion}
use nebius_serverless_challe.Tests.Selection.{floats}
use nebius_serverless_challe.Campaign.State.{
  verified, cleaned, base, pass, completed, other, Selection, CampaignState, Campaign,
  active_attempt,
}
use nebius_serverless_challe.Campaign.Commands.{interrupted, replied, exit_ok, save_attempt}
use nebius_serverless_challe.Campaign.Watching.{ProviderStatus, Round, watch}
use nebius_serverless_challe.Campaign.Watching.Ends.{watch_ends}
use nebius_serverless_challe.Campaign.Watching.Terminal.{
  running_round, last_round, HasEnded, watch_finds_end,
}
use nebius_serverless_challe.Campaign.Verification.{Result, is_verified, judged, judge, verify}
use nebius_serverless_challe.Campaign.Verification.Evidence.{HasEvidence, verify_complete}
use nebius_serverless_challe.Campaign.Examples.{Gates, accept}
use nebius_serverless_challe.Campaign.Cleanup.{Audit, is_clean, cleanup}
use nebius_serverless_challe.Campaign.Cleanup.Accepting.{accept-cleanup}
use nebius_serverless_challe.Campaign.Selecting
use nebius_serverless_challe.Campaign.Selecting.{
  Metrics, rank_candidates, record_selection, campaign_rank_key,
}
use nebius_serverless_challe.Campaign.Selecting.Choice.{IsChoice, select-IsChoice}
use nebius_serverless_challe.Campaign.Selecting.Ranking.{campaign_rank_key-aggregate_key}
use nebius_serverless_challe.Campaign.Serialized.{IsSerialized}
use nebius_serverless_challe.Campaign.History.{Reachable-IsSerialized}
use nebius_serverless_challe.Tests.Campaign.{
  matrix, submitted_one, submitted_state, submitted_state_test, submitted_reachable,
}

abbrev submitted_files : Campaign
submitted_files = record { state = some submitted_state; journal = []; submissions = 2011 ∷ [] }

submitted_IsSerialized : IsSerialized submitted_files
submitted_IsSerialized = record {
  at = λ s e. (Reachable-IsSerialized submitted_reachable).at s (submitted_state_test ∙ e);
}

abbrev silent_round : Round
silent_round = record { status = none; clock = 60 }

watch_ends_example : (watch false 5 (silent_round ∷ []) submitted_files).0 ≢ interrupted
watch_ends_example = watch_ends false 5 (silent_round ∷ []) submitted_files (omega arith) (λ e. cc)

active_test : active_attempt submitted_state ≡ some (1011, submitted_one)
unfolding active_attempt
active_test = refl

watch_finds_end_example : HasEnded 1011 (some 900) completed (
    watch true 5
      (map running_round ((other, 50) ∷ []) ++ last_round completed 60 ∷ [])
      submitted_files)
watch_finds_end_example =
    watch_finds_end 5 1011 completed 60 [] ((other, 50) ∷ []) submitted_one submitted_state
      submitted_files submitted_IsSerialized refl active_test refl (omega arith)

abbrev evidence : Result
evidence = record {
  digest = 77;
  passed = true;
  selected_checkpoint = some true;
  manifest_readable = some true;
  required_artifacts = some true;
  acceptance_recorded = some true;
}

abbrev over : ProviderStatus
over = record { terminal = some true; state = completed }

complete_test :
    (verify matrix 1 11 base (some over) (some evidence) submitted_files).0
    ≡ replied exit_ok "VERIFIED"
unfolding verify judge judged is_verified save_attempt
complete_test = refl

verify_complete_example :
    HasEvidence 1011
      (some over)
      (some evidence)
      submitted_files
      (verify matrix 1 11 base (some over) (some evidence) submitted_files).1
verify_complete_example =
    verify_complete matrix 1 11 base (some over) (some evidence) submitted_files complete_test

abbrev selected_run : Selection
selected_run = record {
  run_id = 2011;
  seed = 11;
  checkpoint_sha256 = 300;
  effective_step = 90;
  runner_up = none;
  candidate_count = 1;
  preferred_passed = true;
  decision = "EXTENSION_SKIPPED_QUALITY_MET";
}

abbrev verified_state : CampaignState
verified_state = record {
  matrix_digest = 7;
  gate_passed = true;
  attempts = (1011, record submitted_one { state = verified }) ∷ [];
  examples =
      (1, record { extension_consumed = false; selection = some selected_run; acceptance = none })
      ∷ [];
}

abbrev verified_files : Campaign
verified_files = record { state = some verified_state; journal = []; submissions = [] }

abbrev quiet_audit : Audit
quiet_audit = record {
  active_jobs = [];
  running_instances = [];
  sibling = λ t. false;
  expected = [];
}

abbrev passed_gates : Text → Gates
passed_gates run_id = record { hard = true; preferred = true }

clean_test : is_clean quiet_audit verified_state.attempts ≡ true
unfolding is_clean
clean_test = refl

accept-cleanup_example :
    (accept passed_gates 1 (cleanup (some quiet_audit) verified_files).1).0
    ≡ replied exit_ok "ACCEPTED_AND_PIN_READY"
accept-cleanup_example =
    accept-cleanup passed_gates 1 quiet_audit verified_state selected_run verified_files refl refl
      refl refl clean_test ((inr (inl refl), tt))

abbrev cleaned_files : Campaign
cleaned_files = record {
  state = some (record verified_state {
    attempts = (1011, record submitted_one { state = cleaned; cleanup_state = pass }) ∷ [];
  });
  journal = [];
  submissions = [];
}

-- Both base seeds are verified; the second has the better aggregate.
abbrev settled_state : CampaignState
settled_state = record verified_state {
  attempts =
      (1011, record submitted_one { state = verified })
      ∷ (1012, record submitted_one { seed = 12; run_id = 2012; state = verified })
      ∷ [];
}

abbrev settled_files : Campaign
settled_files = record { state = some settled_state; journal = []; submissions = [] }

abbrev sample_metrics : Text → Option (Metrics floats)
sample_metrics key = some (record {
  evidence_run_id = none;
  checkpoint_sha256 = key;
  effective_step = 90;
  aggregate = record {
    mean_reward_of = some key;
    mean_episode_length_of = some 500;
    mean_velocity_of = some 3;
    min_velocity_of = some 2;
    no_fall_count = some 5;
  };
  preferred_passed = false;
})

select_test :
    (Selecting.select floats matrix sample_metrics 1 settled_files).0
    ≡ replied exit_ok "SELECTION_RECORDED"
unfolding Selecting.select rank_candidates record_selection campaign_rank_key
select_test = refl

select-IsChoice_example :
    IsChoice floats matrix sample_metrics 1 settled_files
      (Selecting.select floats matrix sample_metrics 1 settled_files).1
select-IsChoice_example = select-IsChoice floats matrix sample_metrics 1 settled_files select_test

campaign_rank_key-aggregate_key_example :
    campaign_rank_key floats
      (record {
        mean_reward_of = some 10;
        mean_episode_length_of = some 500;
        mean_velocity_of = some 3;
        min_velocity_of = some 2;
        no_fall_count = some 5;
      })
      by_locomotion
      100
    ≡ some (5 ∷ 2 ∷ 500 ∷ 3 ∷ 10 ∷ 999900 ∷ [])
campaign_rank_key-aggregate_key_example =
    campaign_rank_key-aggregate_key floats
      (record {
        mean_reward_of = 10;
        mean_episode_length_of = 500;
        mean_velocity_of = 3;
        min_velocity_of = 2;
        no_fall_count = 5;
      })
      by_locomotion 100
