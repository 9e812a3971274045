-- ===== src/Orchestration/Submission.antt =====
-- What `NebiusBackend` of saas/backend/app/orchestration.py submits, and what it refuses. The two
-- regular-expression matches on a job's id and the settings are arguments.
use nebius_serverless_challe.Prelude.{
  ℕ, ◌*◌, Text, String, ◌≡◌, inl, inr, Bool, true, not, ◌&&◌, Option, none, some, arith, ◌==◌,
  if◌then◌else◌, option_eq, Option-cases,
}
use nebius_serverless_challe.Models.{Job, is_custom, ResolvedConfig, PreparationAttempt}

-- The parts of `CustomTrainingSettings` that are read.
pub record CustomSettings : Type 0 where
  pub enabled : Bool
  pub runtime_image : Text
  pub preparation_finalize_attempts : ℕ

-- The strings that a submission is compared with: "custom-robot", "sb3", "custom-ppo-quick" and the
-- versions of saas/backend/app/custom_training.py.
pub record Contract : Type 0 where
  pub custom_robot : Text
  pub sb3 : Text
  pub custom_ppo_quick : Text
  pub training_version : Text
  pub adapter_version : Text
  pub reward_version : Text
  pub preparation_version : Text

pub record Backend : Type 0 where
  pub contract : Contract
  pub custom_settings : Option CustomSettings
  -- `RUN_ID_RE.match` and `RUN_ID_RE.fullmatch`, which agree on ids without a line break at the end
  pub run_id_matches : Text → Bool
  pub finalize_attempts : ℕ
  pub storage_available : Bool

-- The parts of a `JobSubmission` that the backend or the provider act on.
pub record JobSubmission : Type 0 where
  pub identity : Text
  pub image : Text
  pub disk_gib : ℕ
  pub timeout_seconds : ℕ

-- `TRAINING_PROFILE.timeout_seconds` and `PREPARATION_PROFILE.timeout_seconds`
abbrev pub training_timeout : ℕ
training_timeout = 10800

abbrev pub preparation_timeout : ℕ
preparation_timeout = 600

-- POLL_TIMEOUT_MARGIN_SECONDS
abbrev pub poll_timeout_margin : ℕ
poll_timeout_margin = 30 * 60

-- A submission, or the message of a `ValueError`.
pub data Build : Type 0 where
  built : JobSubmission → Build
  value_error : String → Build

abbrev pub equals : Option Text → Text → Bool
equals o t = option_eq o (some t)

abbrev pub has_contract : Contract → ResolvedConfig → Bool
has_contract c resolved =
    equals resolved.job_kind c.custom_robot
    && equals resolved.backend c.sb3
    && equals resolved.profile c.custom_ppo_quick

build_enabled : Contract → CustomSettings → Bool → Job → Build
build_enabled c settings safe_id job =
    if not settings.enabled
    then value_error "custom robot training is disabled"
    else if not safe_id
    then value_error "custom run identity is invalid"
    else if not (has_contract c job.resolved_config)
    then value_error "custom training resolved contract is invalid"
    else if not (equals job.resolved_config.training_version c.training_version)
    then value_error "custom training profile version is invalid"
    else if not (equals job.resolved_config.image_digest settings.runtime_image)
    then value_error "custom training image provenance is invalid"
    else built (record {
      identity = job.id;
      image = settings.runtime_image;
      disk_gib = 100;
      timeout_seconds = training_timeout;
    })

-- `_build_custom_training_submission`
build_custom : Backend → Job → Build
unfolding build_enabled
build_custom b job = elim b.custom_settings [
  | none ↦ value_error "custom robot training is disabled"
  | some settings ↦ build_enabled b.contract settings (b.run_id_matches job.id) job
]

unfoldable pub build_submission : Backend → Job → Build
unfolding build_custom
build_submission b job =
    if not (b.run_id_matches job.id)
    then value_error "run id contains unsafe characters"
    else if not (is_custom job.job_kind)
    then value_error
        "the nebius backend only submits custom-robot training; public catalog submission was removed with gallery training"
    else build_custom b job

-- the tests of `build_preparation_submission` after the feature's switch
build_preparation : Contract → CustomSettings → PreparationAttempt → Build
build_preparation c settings a =
    if not settings.enabled
    then value_error "custom robot training is disabled"
    else if not (
        a.runtime_image_digest == settings.runtime_image
        && a.adapter_version == c.adapter_version
        && a.reward_version == c.reward_version
        && a.profile_version == c.preparation_version)
    then value_error "custom preparation provenance is invalid"
    else built (record {
      identity = a.id;
      image = settings.runtime_image;
      disk_gib = 50;
      timeout_seconds = preparation_timeout;
    })

unfoldable pub build_preparation_submission : Backend → PreparationAttempt → Build
unfolding build_preparation
build_preparation_submission b a = elim b.custom_settings [
  | none ↦ value_error "custom robot training is disabled"
  | some settings ↦ build_preparation b.contract settings a
]

pub record IsSubmission (b : Backend) (job : Job) (settings : CustomSettings) (out : JobSubmission)
    : Type 0 where
  pub configured : b.custom_settings ≡ some settings
  pub enabled : settings.enabled ≡ true
  pub custom : is_custom job.job_kind ≡ true
  pub safe_id : b.run_id_matches job.id ≡ true
  pub job_kind : job.resolved_config.job_kind ≡ some b.contract.custom_robot
  pub backend : job.resolved_config.backend ≡ some b.contract.sb3
  pub profile : job.resolved_config.profile ≡ some b.contract.custom_ppo_quick
  pub version : job.resolved_config.training_version ≡ some b.contract.training_version
  pub provenance : job.resolved_config.image_digest ≡ some settings.runtime_image
  pub identity : out.identity ≡ job.id
  pub image : out.image ≡ settings.runtime_image
  pub timeout : out.timeout_seconds ≡ training_timeout

-- What is submitted for a job is its own identity on the configured image, and is submitted only
-- for a custom job with a safe id, the feature switched on, and a resolved configuration that agrees
-- with the server's contract, version and image.
pub build_submission-IsSubmission :
    (b : Backend) (job : Job) (out : JobSubmission)
    → build_submission b job ≡ built out
    → (settings : CustomSettings) × IsSubmission b job settings out
unfolding build_submission
build_submission-IsSubmission b job out h = elim (Option-cases b.custom_settings) [
  | inl off ↦ absurd (ground arith)
  | inr (settings, on) ↦ (settings, ground arith)
]
