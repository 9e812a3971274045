-- ===== src/Tests/CustomTraining.antt =====
-- The readiness of setups of saas/backend/app/custom_training.py at concrete inputs.
use nebius_serverless_challe.Prelude.{◌≡◌, refl, ◌↔◌, true, false, some}
use nebius_serverless_challe.Models.{
  PreparationState, PreparationAttempt, RobotSetup, TrainingReadiness,
}
use nebius_serverless_challe.Orchestration.Submission.{built, build_submission, training_timeout}
use nebius_serverless_challe.CustomTraining.{
  WorldNames, Digests, eligibility, summary_of, preparation_fingerprint, project_setup_readiness,
  resolved_custom_job,
}
use nebius_serverless_challe.CustomTraining.Readiness.{
  IsTrainable, project_setup_readiness-IsTrainable,
}
use nebius_serverless_challe.CustomTraining.Submittable.{build_submission-resolved_custom_job}
use nebius_serverless_challe.Tests.Samples.{
  first_job, attempt_of, robot_of, setup_of, settings, backend,
}

abbrev names : WorldNames
names = record {
  stand_balance = 35;
  walk_forward = 201;
  recover_from_fall = 202;
  flat_arena = 36;
  ramp_course = 203;
  hurdle_course = 204;
  step_course = 205;
}

-- A digest that the sample attempt has for every document.
abbrev digests : Digests
digests = record {
  schema_version = 2;
  sha256 = λ values. 80;
  is_sha256 = λ t. true;
  too_long = λ t. false;
}

abbrev accepted_attempt : PreparationAttempt
accepted_attempt = attempt_of 70 PreparationState.accepted

abbrev ready : RobotSetup
ready = record (setup_of 60) {
  trainable = true;
  reason = "ready";
  training_readiness = TrainingReadiness.ready;
  can_prepare = false;
  can_start_training = true;
  current_preparation = some (summary_of accepted_attempt);
}

project_setup_readiness-IsTrainable_example :
    (ready.can_start_training ≡ true)
    ↔ IsTrainable names digests backend.contract
        (setup_of 60)
        (robot_of 50)
        (some accepted_attempt)
        true
        108
unfolding project_setup_readiness eligibility preparation_fingerprint
project_setup_readiness-IsTrainable_example =
    project_setup_readiness-IsTrainable names digests backend.contract (setup_of 60) (robot_of 50)
      (some accepted_attempt) true 108 ready refl

build_submission-resolved_custom_job_example :
    build_submission backend (record first_job {
      resolved_config =
          resolved_custom_job backend.contract (robot_of 50) (setup_of 60) accepted_attempt;
    })
    ≡ built
        (record { identity = 1; image = 108; disk_gib = 100; timeout_seconds = training_timeout })
build_submission-resolved_custom_job_example =
    build_submission-resolved_custom_job backend settings (robot_of 50) (setup_of 60)
      accepted_attempt first_job refl refl refl refl refl
