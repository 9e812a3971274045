-- ===== src/Orchestration/Mock.antt =====
-- `MockBackend` of saas/backend/app/orchestration.py: it walks a job or a preparation through its
-- phases without a provider. The text of `_now()` at each phase, and the contents of the placeholder
-- manifest of a custom and of a catalog job, are arguments.
pub mod Walk
use nebius_serverless_challe.Prelude.{
  ℕ, ◌-◌, Text, String, true, false, some, List, [], ◌∷◌, if◌then◌else◌,
}
use nebius_serverless_challe.Models.{
  Job, Status, is_custom, ArtifactManifest, PreparationState, PreparationAttempt,
}
use nebius_serverless_challe.Store.Database.{Database}
use nebius_serverless_challe.Store.Monad.{◌>>=◌, ◌>>◌, Action}
use nebius_serverless_challe.Store.Jobs.{put, set_artifacts}
use nebius_serverless_challe.Store.Preparations.{put_preparation}

-- LIFECYCLE
abbrev pub lifecycle : List Status
lifecycle =
    Status.queued ∷ Status.starting ∷ Status.training ∷ Status.finalizing ∷ Status.rendering
    ∷ Status.evaluating ∷ Status.completed ∷ []

abbrev pub at_status : Job → Status → ℕ → Job
at_status job status stamp = record job { status = status; updated_at = stamp }

-- the loop of `_run`, with the job as it is after it
unfoldable pub walk : (Status → ℕ) → List Status → Job → Database → Job × Database
walk stamp [] job db = (job, db)
walk stamp (status ∷ statuses) job db =
    let job' = at_status job status (stamp status) in walk stamp statuses job' (put job' db).1

-- The manifest that `_run` stores.
unfoldable pub mock_manifest : Text → Text → Job → ArtifactManifest
mock_manifest custom_contents catalog_contents job = record {
  job_id = job.id;
  status = Status.completed;
  contents = if is_custom job.job_kind then custom_contents else catalog_contents;
}

unfoldable pub mock_run : Text → Text → (Status → ℕ) → Job → Database → Database
mock_run custom_contents catalog_contents stamp job db =
    let (job', db') = walk stamp lifecycle job db in
    (set_artifacts (mock_manifest custom_contents catalog_contents job') db').1

abbrev pub mock_phases : List String
mock_phases =
    "manifest" ∷ "compile" ∷ "rollouts" ∷ "render" ∷ "environment-checker" ∷ "ppo-smoke"
    ∷ "finalization" ∷ []

abbrev pub at_phase : PreparationAttempt → String → ℕ → PreparationAttempt
at_phase a phase stamp = record a {
  state = PreparationState.preparing;
  phase = phase;
  updated_at = stamp;
}

-- `zeros` is the digest of the placeholder report.
abbrev pub mock_accepted : Text → PreparationAttempt → ℕ → PreparationAttempt
mock_accepted zeros a stamp = record a {
  state = PreparationState.accepted;
  phase = "accepted";
  updated_at = stamp;
  report_sha256 = some zeros;
  report_ready = true;
  can_retry = false;
}

-- `_prepare`, on the phases left
unfoldable pub mock_prepare :
    Text → (String → ℕ) → List String → PreparationAttempt → Action (Unit {0})
mock_prepare zeros stamp [] a = put_preparation (mock_accepted zeros a (stamp "accepted"))
mock_prepare zeros stamp (phase ∷ phases) a = do
  put_preparation (at_phase a phase (stamp phase))
  mock_prepare zeros stamp phases (at_phase a phase (stamp phase))
