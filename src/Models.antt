-- ===== src/Models.antt =====
-- saas/backend/app/models.py and the dataclasses of store.py: what the control plane stores.
-- Times are numbers of clock ticks; strings that are only stored and compared are `Text`.
use nebius_serverless_challe.Prelude.{ℕ, Text, Bool, true, false, Option, String}

pub data Status : Type 0 where
  queued starting training finalizing rendering evaluating completed failed : Status

abbrev pub status_eq : Status → Status → Bool
status_eq queued queued = true
status_eq starting starting = true
status_eq training training = true
status_eq finalizing finalizing = true
status_eq rendering rendering = true
status_eq evaluating evaluating = true
status_eq completed completed = true
status_eq failed failed = true
status_eq _ _ = false

-- `status in TERMINAL_STATES`
abbrev pub is_terminal : Status → Bool
is_terminal completed = true
is_terminal failed = true
is_terminal _ = false

-- `Job.job_kind`
pub data JobKind : Type 0 where
  catalog custom_robot : JobKind

abbrev pub is_custom : JobKind → Bool
is_custom custom_robot = true
is_custom catalog = false

-- The entries of `Job.resolved_config` that the control plane reads, each absent or a string.
pub record ResolvedConfig : Type 0 where
  pub job_kind : Option Text
  pub backend : Option Text
  pub profile : Option Text
  pub training_version : Option Text
  pub image_digest : Option Text

pub record Job : Type 0 where
  pub id : Text
  pub tenant_id : Text
  pub preset : Option Text
  pub environment : Text
  pub algorithm : Text
  pub resolved_config : ResolvedConfig
  pub status : Status
  pub created_at : ℕ
  pub updated_at : ℕ
  pub nebius_job_id : Option Text
  pub error : Option String
  pub phase : Option String
  pub failure_phase : Option String
  pub artifacts_status : String
  pub job_kind : JobKind
  pub robot_id : Option Text
  pub setup_id : Option Text
  pub preparation_id : Option Text
  pub preparation_fingerprint : Option Text
  pub input_manifest_sha256 : Option Text
  pub gallery_example_id : Option Text

-- `metrics`, `media` and `artifacts` are passed on as they come, under one name.
pub record ArtifactManifest : Type 0 where
  pub job_id : Text
  pub status : Status
  pub contents : Text

pub data PreparationState : Type 0 where
  queued preparing accepted failed : PreparationState

-- `state IN ('queued', 'preparing')`
abbrev pub is_active : PreparationState → Bool
is_active PreparationState.queued = true
is_active PreparationState.preparing = true
is_active _ = false

-- `state in {"queued", "preparing", "accepted"}`
abbrev pub is_reusable : PreparationState → Bool
is_reusable PreparationState.failed = false
is_reusable _ = true

pub record PreparationAttempt : Type 0 where
  pub id : Text
  pub tenant_id : Text
  pub setup_id : Text
  pub robot_id : Text
  pub fingerprint : Text
  pub state : PreparationState
  pub phase : String
  pub created_at : ℕ
  pub updated_at : ℕ
  pub runtime_image_digest : Text
  pub adapter_version : Text
  pub reward_version : Text
  pub profile_version : Text
  pub retry_of : Option Text
  pub failure_phase : Option String
  pub failure_reason : Option String
  pub report_sha256 : Option Text
  pub report_ready : Bool
  pub can_retry : Bool
  pub input_manifest_key : Option Text
  pub input_manifest_sha256 : Option Text
  pub report_key : Option Text
  pub nebius_job_id : Option Text

pub data RobotType : Type 0 where
  quadruped biped : RobotType

abbrev pub robot_type_eq : RobotType → RobotType → Bool
robot_type_eq quadruped quadruped = true
robot_type_eq biped biped = true
robot_type_eq _ _ = false

-- `validation` is the summary that the validator wrote, which the stores pass on.
pub record RobotAsset : Type 0 where
  pub id : Text
  pub tenant_id : Text
  pub name : Text
  pub filename : Text
  pub robot_type : RobotType
  pub digest : Text
  pub validation : Text
  pub validated_at : ℕ

pub data TrainingReadiness : Type 0 where
  ineligible not_prepared preparing ready preparation_failed : TrainingReadiness

pub record PreparationSummary : Type 0 where
  pub id : Text
  pub fingerprint : Text
  pub state : PreparationState
  pub phase : String
  pub created_at : ℕ
  pub updated_at : ℕ
  pub failure_phase : Option String
  pub failure_reason : Option String
  pub report_sha256 : Option Text
  pub report_ready : Bool
  pub can_retry : Bool

pub record TrainingJobSummary : Type 0 where
  pub id : Text
  pub status : Status
  pub created_at : ℕ
  pub updated_at : ℕ
  pub artifacts_status : String

-- `objects` is the normalized list of objects, which the stores pass on.
pub record RobotSetup : Type 0 where
  pub id : Text
  pub tenant_id : Text
  pub name : Text
  pub robot_id : Text
  pub robot_name : Text
  pub robot_type : RobotType
  pub task_template_id : Text
  pub scene_preset_id : Text
  pub objects : Text
  pub digest : Text
  pub created_at : ℕ
  pub trainable : Bool
  pub reason : String
  pub training_readiness : TrainingReadiness
  pub can_prepare : Bool
  pub can_start_training : Bool
  pub current_preparation : Option PreparationSummary
  pub latest_training_job : Option TrainingJobSummary

-- `@dataclass PendingCode`
pub record PendingCode : Type 0 where
  pub code_hash : Text
  pub expires_at : ℕ
  pub attempts : ℕ

-- `@dataclass Session`
pub record Session : Type 0 where
  pub token : Text
  pub email : Text
  pub expires_at : ℕ

-- `@dataclass User`
pub record User : Type 0 where
  pub email : Text
  pub created_at : ℕ
