-- ===== src/Tests/Samples.antt =====
-- A tenant, a robot, a setup, an attempt, jobs and an empty database.
use nebius_serverless_challe.Prelude.{Text, true, false, none, some, []}
use nebius_serverless_challe.Models.{
  Job, Status, JobKind, ResolvedConfig, ArtifactManifest, PreparationState, PreparationAttempt,
  RobotType, RobotAsset, RobotSetup, TrainingReadiness,
}
use nebius_serverless_challe.Orchestration.Submission.{CustomSettings, Backend}
use nebius_serverless_challe.Store.Database.{Database}

abbrev pub no_data : Database
no_data = record {
  users = [];
  sessions = [];
  jobs = [];
  artifacts = [];
  robot_assets = [];
  robot_setups = [];
  preparation_attempts = [];
  custom_training_requests = [];
}

abbrev pub alice : Text
alice = 7

abbrev pub bob : Text
bob = 8

abbrev pub resolved : ResolvedConfig
resolved = record {
  job_kind = some 101;
  backend = some 102;
  profile = some 103;
  training_version = some 104;
  image_digest = some 108;
}

abbrev pub job_of : Text → Text → Job
job_of tenant i = record {
  id = i;
  tenant_id = tenant;
  preset = none;
  environment = 40;
  algorithm = 41;
  resolved_config = resolved;
  status = Status.queued;
  created_at = 1000;
  updated_at = 1000;
  nebius_job_id = none;
  error = none;
  phase = none;
  failure_phase = none;
  artifacts_status = "pending";
  job_kind = JobKind.custom_robot;
  robot_id = some 50;
  setup_id = some 60;
  preparation_id = some 70;
  preparation_fingerprint = some 80;
  input_manifest_sha256 = some 90;
  gallery_example_id = none;
}

abbrev pub first_job : Job
first_job = job_of alice 1

abbrev pub second_job : Job
second_job = job_of alice 2

abbrev pub manifest : ArtifactManifest
manifest = record { job_id = 1; status = Status.completed; contents = 99 }

abbrev pub attempt_of : Text → PreparationState → PreparationAttempt
attempt_of i state = record {
  id = i;
  tenant_id = alice;
  setup_id = 60;
  robot_id = 50;
  fingerprint = 80;
  state = state;
  phase = "queued";
  created_at = 1000;
  updated_at = 1000;
  runtime_image_digest = 108;
  adapter_version = 105;
  reward_version = 106;
  profile_version = 107;
  retry_of = none;
  failure_phase = none;
  failure_reason = none;
  report_sha256 = none;
  report_ready = false;
  can_retry = false;
  input_manifest_key = none;
  input_manifest_sha256 = none;
  report_key = none;
  nebius_job_id = none;
}

abbrev pub attempt : PreparationAttempt
attempt = attempt_of 70 PreparationState.queued

abbrev pub robot_of : Text → RobotAsset
robot_of i = record {
  id = i;
  tenant_id = alice;
  name = 30;
  filename = 31;
  robot_type = RobotType.quadruped;
  digest = 32;
  validation = 33;
  validated_at = 900;
}

abbrev pub setup_of : Text → RobotSetup
setup_of i = record {
  id = i;
  tenant_id = alice;
  name = 34;
  robot_id = 50;
  robot_name = 30;
  robot_type = RobotType.quadruped;
  task_template_id = 35;
  scene_preset_id = 36;
  objects = 37;
  digest = 38;
  created_at = 950;
  trainable = true;
  reason = "";
  training_readiness = TrainingReadiness.not_prepared;
  can_prepare = true;
  can_start_training = false;
  current_preparation = none;
  latest_training_job = none;
}

abbrev pub settings : CustomSettings
settings = record { enabled = true; runtime_image = 108; preparation_finalize_attempts = 3 }

abbrev pub backend : Backend
backend = record {
  contract = record {
    custom_robot = 101;
    sb3 = 102;
    custom_ppo_quick = 103;
    training_version = 104;
    adapter_version = 105;
    reward_version = 106;
    preparation_version = 107;
  };
  custom_settings = some settings;
  run_id_matches = λ i. true;
  finalize_attempts = 2;
  storage_available = true;
}
