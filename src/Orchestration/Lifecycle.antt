-- ===== src/Orchestration/Lifecycle.antt =====
-- `_run`, `_poll` and `_complete` of `NebiusBackend` in saas/backend/app/orchestration.py. What the
-- loops meet is given as lists: one entry for each round, with the clock's reading. A list that
-- ends is a process that stopped while its job was under way.
pub mod Outcome
pub mod Settling
pub mod Termination
use nebius_serverless_challe.Prelude.{
  ℕ, zero, suc, ◌+◌, Text, String, true, false, not, Option, none, some, List, [], ◌∷◌, ltb,
  if◌then◌else◌,
}
use nebius_serverless_challe.Models.{Job, Status, status_eq, ArtifactManifest}
use nebius_serverless_challe.Store.Database.{Database}
use nebius_serverless_challe.Store.Jobs.{put, set_artifacts}
use nebius_serverless_challe.Orchestration.States.{RawState, map_nebius_state}
use nebius_serverless_challe.Orchestration.Submission.{
  Backend, built, value_error, build_submission, poll_timeout_margin,
}

-- One round of `_poll`: the clock, the provider's answer or `none` for an exception, and the text of
-- `_now()`, which stands in the `updated_at` of what the round writes.
pub record Poll : Type 0 where
  pub now : ℕ
  pub answer : Option RawState
  pub stamp : ℕ

-- What reading the manifest gives: it, a `ValueError` with its sanitized message, or nothing yet
-- (`None`, or any other exception).
pub data Manifest : Type 0 where
  ready : ArtifactManifest → Manifest
  invalid : String → Manifest
  absent : Manifest

-- One round of the loop of `_complete`.
pub record Read : Type 0 where
  pub now : ℕ
  pub outcome : Manifest
  pub stamp : ℕ

-- The loop returned, or was still going when its rounds ended.
pub data Progress : Type 0 where
  returned running : Progress

abbrev pub save : Job → Database → Database
save job db = (put job db).1

unfoldable pub fail : Job → String → String → ℕ → Database → Database
fail job error phase stamp db =
    save
      (record job {
        status = Status.failed;
        phase = some phase;
        failure_phase = some phase;
        error = some error;
        updated_at = stamp;
      })
      db

unfoldable pub completed_job : Job → ℕ → Job
completed_job job stamp = record job {
  status = Status.completed;
  phase = some "completed";
  artifacts_status = "ready";
  updated_at = stamp;
}

-- The loop of `_complete` on the attempts left; `last` is the text of the clock for the last write.
unfoldable pub finalize : ℕ → ℕ → List Read → ℕ → Job → Database → Progress × Database
unfolding fail completed_job
finalize deadline zero reads last job db =
    (returned, fail job "artifacts did not finalize before timeout" "finalization" last db)
finalize deadline (suc attempts) [] last job db = (running, db)
finalize deadline (suc attempts) (r ∷ reads) last job db = elim (ltb deadline r.now) [
  | true ↦
      (returned, fail job "artifacts did not finalize before timeout" "finalization" r.stamp db)
  | false ↦ elim r.outcome [
    | ready manifest ↦ (returned, save (completed_job job r.stamp) (set_artifacts manifest db).1)
    | invalid message ↦ (returned, fail job message "artifact_validation" r.stamp db)
    | absent ↦ finalize deadline attempts reads r.stamp job db
  ]
]

unfoldable pub finalizing_job : Job → ℕ → Job
finalizing_job job stamp = record job {
  status = Status.finalizing;
  phase = some "finalization";
  artifacts_status = "pending";
  updated_at = stamp;
}

unfoldable pub complete : ℕ → ℕ → List Read → ℕ → Job → Database → Progress × Database
unfolding finalizing_job
complete deadline attempts reads stamp job db =
    let job' = finalizing_job job stamp in
    finalize deadline attempts reads stamp job' (save job' db)

-- What a round of `_poll` decides.
pub data Verdict : Type 0 where
  timed_out keep succeeded remote_failed : Verdict
  advance : Status → Verdict

abbrev classify : Status → Option Status → Verdict
classify current none = keep
classify current (some status) = if status_eq status current then keep else elim status [
  | Status.completed ↦ succeeded
  | Status.failed ↦ remote_failed
  | other ↦ advance other
]

unfoldable pub verdict : ℕ → Job → Poll → Verdict
verdict deadline job p =
    if ltb deadline p.now
    then timed_out
    else elim p.answer [ none ↦ keep | some raw ↦ classify job.status (map_nebius_state raw) ]

-- `job.phase or "training"`, where an empty phase is never written
abbrev pub phase_or_training : Option String → String
phase_or_training none = "training"
phase_or_training (some phase) = phase

unfoldable pub poll : ℕ → ℕ → List Poll → List Read → Job → Database → Progress × Database
unfolding verdict fail
poll deadline attempts [] reads job db = (running, db)
poll deadline attempts (p ∷ polls) reads job db = elim (verdict deadline job p) [
  | timed_out ↦ (
    returned,
    fail job "job exceeded its timeout and was marked failed" (phase_or_training job.phase) p.stamp
        db,
  )
  | keep ↦ poll deadline attempts polls reads job db
  | succeeded ↦ complete deadline attempts reads p.stamp job db
  | remote_failed ↦ (
    returned,
    fail (record job { status = Status.failed; updated_at = p.stamp }) "remote job failed"
        "training" p.stamp (save (record job { status = Status.failed; updated_at = p.stamp }) db),
  )
  | advance status ↦
      let job' : Job = record job { status = status; updated_at = p.stamp } in
      poll deadline attempts polls reads job' (save job' db)
]

-- `created` is the id that `create_job` returns, or `none` for an exception; `now` is the clock once
-- the job is recorded.
unfoldable pub run :
    Backend → Option Text → ℕ → ℕ → List Poll → List Read → Job → Database → Progress × Database
unfolding fail
run b created now stamp polls reads job db = elim (build_submission b job) [
  | value_error message ↦ (returned, fail job message "submission" stamp db)
  | built submission ↦ elim created [
    | none ↦ (
      returned,
      fail job "The training job could not be submitted. Please try again later." "submission" stamp
          db,
    )
    | some nebius_job_id ↦
        let job' : Job = record job {
          nebius_job_id = some nebius_job_id;
          status = Status.starting;
          updated_at = stamp;
        } in
        poll (now + submission.timeout_seconds + poll_timeout_margin) b.finalize_attempts polls
          reads job' (save job' db)
  ]
]
