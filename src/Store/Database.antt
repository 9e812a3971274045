-- ===== src/Store/Database.antt =====
-- The tables of saas/backend/app/db.py. A table lists its rows in the order of their `rowid`; a
-- column `data` holds the stored object itself.
use nebius_serverless_challe.Prelude.{ℕ, Text, Option, List, Bool, is_some, not}
use nebius_serverless_challe.Models.{
  Job, ArtifactManifest, PreparationAttempt, PreparationState, RobotAsset, RobotSetup, RobotType,
  Session, User,
}

pub record JobRow : Type 0 where
  pub id : Text
  pub tenant_id : Text
  pub gallery_example_id : Option Text
  pub job : Job

pub record RobotRow : Type 0 where
  pub id : Text
  pub tenant_id : Text
  pub digest : Text
  pub robot_type : RobotType
  pub robot : RobotAsset
  pub xml_content : Text
  pub deleted_at : Option ℕ

pub record SetupRow : Type 0 where
  pub id : Text
  pub tenant_id : Text
  pub robot_id : Text
  pub digest : Text
  pub setup : RobotSetup
  pub deleted_at : Option ℕ

pub record AttemptRow : Type 0 where
  pub id : Text
  pub tenant_id : Text
  pub setup_id : Text
  pub robot_id : Text
  pub fingerprint : Text
  pub state : PreparationState
  pub attempt : PreparationAttempt
  pub created_at : ℕ

pub record RequestRow : Type 0 where
  pub tenant_id : Text
  pub setup_id : Text
  pub idempotency_key : Text
  pub job_id : Text
  pub created_at : ℕ

pub record Database : Type 0 where
  pub users : List User
  pub sessions : List Session
  pub jobs : List JobRow
  pub artifacts : List ArtifactManifest
  pub robot_assets : List RobotRow
  pub robot_setups : List SetupRow
  pub preparation_attempts : List AttemptRow
  pub custom_training_requests : List RequestRow

-- `deleted_at IS NULL`
abbrev pub is_null : Option ℕ → Bool
is_null o = not (is_some o)
