-- ===== src/Orchestration/Preparation.antt =====
-- `_run_preparation`, `_poll_preparation`, `_finalize_preparation` and `_fail_preparation` of
-- `NebiusBackend` in saas/backend/app/orchestration.py, with rounds as in `Orchestration.Lifecycle`.
-- A write of the store may raise, which ends the thread.
pub mod Settling
pub mod Termination
pub mod Restart
use nebius_serverless_challe.Prelude.{
  ℕ, zero, suc, ◌+◌, ◌-◌, Text, String, Bool, true, not, Option, none, some, List, [], ◌∷◌, ltb,
  if◌then◌else◌, option_eq,
}
use nebius_serverless_challe.Models.{Status, PreparationState, PreparationAttempt}
use nebius_serverless_challe.Store.Database.{Database}
use nebius_serverless_challe.Store.Monad.{ok, err, StoreError}
use nebius_serverless_challe.Store.Preparations.{put_preparation}
use nebius_serverless_challe.Orchestration.States.{RawState, map_nebius_state}
use nebius_serverless_challe.Orchestration.Submission.{
  CustomSettings, Backend, built, value_error, build_preparation_submission, poll_timeout_margin,
}

-- The entries of a preparation report that are read; `accepted` says whether its `status` is
-- "accepted".
pub record Report : Type 0 where
  pub fingerprint : Option Text
  pub accepted : Bool
  pub failure_phase : Option String
  pub failure_reason : Option String
  pub report_sha256 : Option Text

-- One round of `_poll_preparation`: the clock at the head of the loop, the provider's answer or
-- `none` for an exception, and the text of `_now()`.
pub record StatePoll : Type 0 where
  pub now : ℕ
  pub answer : Option RawState
  pub stamp : ℕ

-- One round of the loop of `_finalize_preparation`: the report, or `none` for `None` or an
-- exception.
pub record ReportRead : Type 0 where
  pub report : Option Report
  pub stamp : ℕ

-- What `create_job` gives: the remote id, a `ValueError` with its message, or another exception.
pub data Creation : Type 0 where
  created : Text → Creation
  refused : String → Creation
  unavailable : Creation

-- How far the thread is: it returned, is still going when the rounds end, or was ended by an
-- exception of the store.
pub data Course : Type 0 where
  returned going : Course
  raised : StoreError → Course

-- `reason[:200]`
abbrev pub first_chars : ℕ → String → String
first_chars zero s = ""
first_chars (suc n) String.[] = ""
first_chars (suc n) (String.◌∷◌ c s) = String.◌∷◌ c (first_chars n s)

-- `str(report.get("failure_phase") or "preparation")`
abbrev pub phase_or_preparation : Option String → String
phase_or_preparation none = "preparation"
phase_or_preparation (some String.[]) = "preparation"
phase_or_preparation (some (String.◌∷◌ c s)) = String.◌∷◌ c s

-- `store.put_preparation(attempt)`, and what follows if it returns
unfoldable pub write :
    PreparationAttempt → (Database → Course × Database) → Database → Course × Database
write a next db =
    let (result, db') = put_preparation a db in
    elim result [ ok _ ↦ next db' | err e ↦ (raised e, db') ]

abbrev pub stop : Database → Course × Database
stop db = (returned, db)

unfoldable pub failed_attempt : PreparationAttempt → String → String → ℕ → PreparationAttempt
failed_attempt a reason phase stamp = record a {
  state = PreparationState.failed;
  phase = phase;
  failure_phase = some phase;
  failure_reason = some (first_chars 200 reason);
  can_retry = true;
  updated_at = stamp;
}

unfoldable pub fail_preparation :
    PreparationAttempt → String → String → ℕ → Database → Course × Database
fail_preparation a reason phase stamp db = write (failed_attempt a reason phase stamp) stop db

-- The attempt with what its report says.
unfoldable pub reported_attempt : PreparationAttempt → Report → ℕ → PreparationAttempt
reported_attempt a report stamp = record a {
  state = if report.accepted then PreparationState.accepted else PreparationState.failed;
  phase = if report.accepted then "accepted" else phase_or_preparation report.failure_phase;
  failure_phase = report.failure_phase;
  failure_reason = report.failure_reason;
  report_sha256 = report.report_sha256;
  report_ready = true;
  can_retry = not report.accepted;
  updated_at = stamp;
}

-- The loop of `_finalize_preparation` on the attempts left; `last` is the text of the clock for the
-- last write.
unfoldable pub finalize_report :
    ℕ → List ReportRead → ℕ → PreparationAttempt → Database → Course × Database
finalize_report zero reads last a db =
    fail_preparation a "preparation-report-not-ready" "finalization" last db
finalize_report (suc attempts) [] last a db = (going, db)
finalize_report (suc attempts) (r ∷ reads) last a db = elim r.report [
  | none ↦ finalize_report attempts reads r.stamp a db
  | some report ↦
      if not (option_eq report.fingerprint (some a.fingerprint))
      then fail_preparation a "report-fingerprint-mismatch" "finalization" r.stamp db
      else write (reported_attempt a report r.stamp) stop db
]

unfoldable pub finalize_preparation :
    Bool → ℕ → List ReportRead → ℕ → PreparationAttempt → Database → Course × Database
finalize_preparation storage attempts reads stamp a db =
    if not storage
    then fail_preparation a "report-storage-unavailable" "finalization" stamp db
    else finalize_report attempts reads stamp a db

abbrev pub executing_attempt : PreparationAttempt → ℕ → PreparationAttempt
executing_attempt a stamp = record a {
  state = PreparationState.preparing;
  phase = "execution";
  updated_at = stamp;
}

-- What a round of `_poll_preparation` decides, and the tests on the state in their order.
pub data Step : Type 0 where
  overdue wait remote_failed remote_completed executing : Step

abbrev pub step_of : Option Status → Step
step_of (some Status.failed) = remote_failed
step_of (some Status.completed) = remote_completed
step_of (some Status.starting) = executing
step_of (some Status.training) = executing
step_of _ = wait

unfoldable pub step : ℕ → StatePoll → Step
step deadline p =
    if ltb deadline p.now
    then overdue
    else elim p.answer [ none ↦ wait | some raw ↦ step_of (map_nebius_state raw) ]

unfoldable pub poll_preparation :
    ℕ
    → Bool
    → ℕ
    → List StatePoll
    → List ReportRead
    → PreparationAttempt
    → Database
    → Course × Database
poll_preparation deadline storage attempts [] reads a db = (going, db)
poll_preparation deadline storage attempts (p ∷ polls) reads a db = elim (step deadline p) [
  | overdue ↦ fail_preparation a "preparation-timeout" "execution" p.stamp db
  | wait ↦ poll_preparation deadline storage attempts polls reads a db
  | remote_failed ↦ fail_preparation a "remote-job-failed" "execution" p.stamp db
  | remote_completed ↦ finalize_preparation storage attempts reads p.stamp a db
  | executing ↦
      write (executing_attempt a p.stamp)
        (poll_preparation deadline storage attempts polls reads (executing_attempt a p.stamp)) db
]

-- `preparation_finalize_attempts`; without settings nothing is submitted.
abbrev pub finalize_attempts_of : Option CustomSettings → ℕ
finalize_attempts_of none = 0
finalize_attempts_of (some settings) = settings.preparation_finalize_attempts

abbrev pub started_attempt : PreparationAttempt → Text → ℕ → PreparationAttempt
started_attempt a remote_id stamp = record a {
  state = PreparationState.preparing;
  phase = "starting";
  nebius_job_id = some remote_id;
  updated_at = stamp;
}

-- `now` is the clock once the attempt is recorded.
unfoldable pub run_preparation :
    Backend
    → Creation
    → ℕ
    → ℕ
    → List StatePoll
    → List ReportRead
    → PreparationAttempt
    → Database
    → Course × Database
run_preparation b creation now stamp polls reads a db = elim (build_preparation_submission b a) [
  | value_error message ↦ fail_preparation a message "submission" stamp db
  | built submission ↦ elim creation [
    | refused message ↦ fail_preparation a message "submission" stamp db
    | unavailable ↦ fail_preparation a "remote-submission-failed" "submission" stamp db
    | created remote_id ↦
        write (started_attempt a remote_id stamp)
          (poll_preparation (now + submission.timeout_seconds + poll_timeout_margin)
            b.storage_available (finalize_attempts_of b.custom_settings) polls reads
            (started_attempt a remote_id stamp))
          db
  ]
]
