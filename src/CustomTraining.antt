-- ===== src/CustomTraining.antt =====
-- saas/backend/app/custom_training.py: which setups may be prepared and trained. The digest of a
-- canonical document and the tests on the form of a digest are arguments.
pub mod Readiness
pub mod Submittable
use nebius_serverless_challe.Prelude.{
  ℕ, ◌-◌, Text, empty, String, Bool, true, false, not, ◌||◌, Option, none, some, List, [], ◌∷◌,
  ◌==◌, if◌then◌else◌,
}
use nebius_serverless_challe.Models.{
  ResolvedConfig, PreparationState, PreparationAttempt, RobotType, quadruped, biped, RobotAsset,
  TrainingReadiness, PreparationSummary, RobotSetup,
}
use nebius_serverless_challe.Orchestration.Submission.{Contract}

-- The names in SUPPORTED_TASKS and SUPPORTED_SCENES.
pub record WorldNames : Type 0 where
  pub stand_balance : Text
  pub walk_forward : Text
  pub recover_from_fall : Text
  pub flat_arena : Text
  pub ramp_course : Text
  pub hurdle_course : Text
  pub step_course : Text

pub record Eligibility : Type 0 where
  pub eligible : Bool
  pub reason : String

abbrev pub supported_robot_type : RobotType → Bool
supported_robot_type quadruped = true
supported_robot_type biped = true

abbrev pub supported_task : WorldNames → Text → Bool
supported_task w task =
    task == w.stand_balance || task == w.walk_forward || task == w.recover_from_fall

abbrev pub is_quadruped : RobotType → Bool
is_quadruped quadruped = true
is_quadruped biped = false

-- TASK_ROBOT_TYPES, for a supported task
abbrev pub task_takes : WorldNames → Text → RobotType → Bool
task_takes w task robot_type =
    if task == w.stand_balance || task == w.walk_forward
    then supported_robot_type robot_type
    else is_quadruped robot_type

abbrev pub supported_scene : WorldNames → Text → Bool
supported_scene w scene =
    scene == w.flat_arena
    || scene == w.ramp_course
    || scene == w.hurdle_course
    || scene == w.step_course

abbrev pub not_eligible : String → Eligibility
not_eligible reason = record { eligible = false; reason = reason }

unfoldable pub eligibility : WorldNames → RobotSetup → Bool → Eligibility
eligibility w setup enabled =
    if not enabled
    then not_eligible "custom-training-not-enabled"
    else if not (supported_robot_type setup.robot_type)
    then not_eligible "unsupported-robot-type"
    else if not (supported_task w setup.task_template_id)
    then not_eligible "unsupported-task"
    else if not (task_takes w setup.task_template_id setup.robot_type)
    then not_eligible "unsupported-task"
    else if not (supported_scene w setup.scene_preset_id)
    then not_eligible "unsupported-scene"
    else record { eligible = true; reason = "not-prepared" }

-- The arguments of the fingerprint: SCHEMA_VERSION, the SHA-256 of a canonical document given by its
-- values in the order of its sorted keys, SHA256_RE, and whether a string is longer than 256.
pub record Digests : Type 0 where
  pub schema_version : ℕ
  pub sha256 : List ℕ → Text
  pub is_sha256 : Text → Bool
  pub too_long : Text → Bool

-- The fingerprint, or `none` for a `ValueError`.
unfoldable pub preparation_fingerprint :
    Digests → Contract → RobotAsset → RobotSetup → Text → Option Text
preparation_fingerprint d c robot setup image =
    if not (d.is_sha256 robot.digest) || not (d.is_sha256 setup.digest)
    then none
    else if image == empty || d.too_long image
    then none
    else some (
        d.sha256 (
          c.adapter_version ∷ c.preparation_version ∷ c.reward_version ∷ robot.digest ∷ image
          ∷ d.schema_version ∷ setup.digest ∷ []))

abbrev pub summary_of : PreparationAttempt → PreparationSummary
summary_of a = record {
  id = a.id;
  fingerprint = a.fingerprint;
  state = a.state;
  phase = a.phase;
  created_at = a.created_at;
  updated_at = a.updated_at;
  failure_phase = a.failure_phase;
  failure_reason = a.failure_reason;
  report_sha256 = a.report_sha256;
  report_ready = a.report_ready;
  can_retry = a.can_retry;
}

-- `latest` if it is for the current fingerprint
abbrev pub current_attempt : Text → Option PreparationAttempt → Option PreparationAttempt
current_attempt fingerprint none = none
current_attempt fingerprint (some a) = if a.fingerprint == fingerprint then some a else none

abbrev pub project :
    RobotSetup → String → TrainingReadiness → Bool → Bool → Option PreparationSummary → RobotSetup
project setup reason readiness can_prepare can_start summary = record setup {
  trainable = can_start;
  reason = reason;
  training_readiness = readiness;
  can_prepare = can_prepare;
  can_start_training = can_start;
  current_preparation = summary;
}

abbrev pub project_current : RobotSetup → Option PreparationAttempt → RobotSetup
project_current setup none =
    project setup "not-prepared" TrainingReadiness.not_prepared true false none
project_current setup (some a) = elim a.state [
  | PreparationState.queued ↦
      project setup "preparing" TrainingReadiness.preparing false false (some (summary_of a))
  | PreparationState.preparing ↦
      project setup "preparing" TrainingReadiness.preparing false false (some (summary_of a))
  | PreparationState.accepted ↦
      project setup "ready" TrainingReadiness.ready false true (some (summary_of a))
  | PreparationState.failed ↦
      project setup "preparation-failed" TrainingReadiness.preparation_failed true false
        (some (summary_of a))
]

-- The setup with its readiness, or `none` for the `ValueError` of the fingerprint.
unfoldable pub project_setup_readiness :
    WorldNames
    → Digests
    → Contract
    → RobotSetup
    → RobotAsset
    → Option PreparationAttempt
    → Bool
    → Text
    → Option RobotSetup
project_setup_readiness w d c setup robot latest enabled image =
    let allowed = eligibility w setup enabled in
    if not allowed.eligible
    then some (project setup allowed.reason TrainingReadiness.ineligible false false none)
    else elim (preparation_fingerprint d c robot setup image) [
      | none ↦ none
      | some fingerprint ↦ some (project_current setup (current_attempt fingerprint latest))
    ]

-- The entries of the resolved configuration that the backend reads.
unfoldable pub resolved_custom_job :
    Contract → RobotAsset → RobotSetup → PreparationAttempt → ResolvedConfig
resolved_custom_job c robot setup preparation = record {
  job_kind = some c.custom_robot;
  backend = some c.sb3;
  profile = some c.custom_ppo_quick;
  training_version = some c.training_version;
  image_digest = some preparation.runtime_image_digest;
}
