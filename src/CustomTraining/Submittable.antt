-- ===== src/CustomTraining/Submittable.antt =====
-- From a resolved custom job to its submission.
use nebius_serverless_challe.Prelude.{◌≡◌, true, some, arith}
use nebius_serverless_challe.Models.{Job, custom_robot, PreparationAttempt, RobotAsset, RobotSetup}
use nebius_serverless_challe.Orchestration.Submission.{
  CustomSettings, Backend, built, build_submission, training_timeout,
}
use nebius_serverless_challe.CustomTraining.{resolved_custom_job}

-- A custom job whose configuration was resolved from a preparation of the configured image is
-- submitted under its own id, as long as the feature is on and the id is safe.
pub build_submission-resolved_custom_job :
    (b : Backend) (settings : CustomSettings) (robot : RobotAsset) (setup : RobotSetup)
    (preparation : PreparationAttempt) (job : Job)
    → b.custom_settings ≡ some settings
    → settings.enabled ≡ true
    → b.run_id_matches job.id ≡ true
    → job.job_kind ≡ custom_robot
    → preparation.runtime_image_digest ≡ settings.runtime_image
    → build_submission b
        (record job { resolved_config = resolved_custom_job b.contract robot setup preparation })
      ≡ built (record {
        identity = job.id;
        image = settings.runtime_image;
        disk_gib = 100;
        timeout_seconds = training_timeout;
      })
unfolding build_submission resolved_custom_job
build_submission-resolved_custom_job b settings robot setup preparation job on enabled safe kind
      same =
    ground arith
