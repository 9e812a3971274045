-- ===== src/Tests/Orchestration.antt =====
-- The backend of saas/backend/app/orchestration.py at concrete inputs.
use nebius_serverless_challe.Prelude.{
  ℕ, Text, ◌≡◌, refl, ◌≢◌, true, false, none, some, List, [], ◌∷◌, arith, ◌==◌,
}
use nebius_serverless_challe.Models.{Job, Status}
use nebius_serverless_challe.Store.Database.{Database}
use nebius_serverless_challe.Store.Jobs.{put, get, get_artifacts}
use nebius_serverless_challe.Orchestration.States.{codes, map_nebius_state}
use nebius_serverless_challe.Orchestration.Submission.{
  CustomSettings, JobSubmission, build_submission, IsSubmission, build_submission-IsSubmission,
  training_timeout,
}
use nebius_serverless_challe.Orchestration.Lifecycle.{
  Poll, Read, ready, absent, returned, fail, poll, run, complete, finalize,
}
use nebius_serverless_challe.Orchestration.Lifecycle.Outcome.{IsSettled}
use nebius_serverless_challe.Orchestration.Lifecycle.Settling.{run-IsSettled}
use nebius_serverless_challe.Orchestration.Lifecycle.Termination.{run_returns}
use nebius_serverless_challe.Orchestration.Resume.{resume, resume_deadline}
use nebius_serverless_challe.Orchestration.Resume.Restart.{
  IsExclusive, resume-IsExclusive, resume_fails_running_job,
}
use nebius_serverless_challe.Store.Preparations.{reserve_preparation, put_preparation}
use nebius_serverless_challe.Orchestration.Submission.{build_preparation_submission}
use nebius_serverless_challe.Orchestration.Preparation.{
  Report, StatePoll, ReportRead, created, going, write, step, reported_attempt, finalize_report,
  finalize_preparation, poll_preparation, run_preparation,
}
use nebius_serverless_challe.Orchestration.Preparation.Settling.{run_preparation-IsSettled}
use nebius_serverless_challe.Orchestration.Preparation.Settling.{IsSettled as IsPrepared}
use nebius_serverless_challe.Orchestration.Preparation.Termination.{run_preparation_ends}
use nebius_serverless_challe.Orchestration.Mock.{mock_run, mock_manifest}
use nebius_serverless_challe.Orchestration.Mock.Walk.{mock_run_completes}
use nebius_serverless_challe.Tests.Samples.{
  backend, attempt, no_data, first_job, second_job, manifest,
}

-- "job_state_running" is read as "running".
map_nebius_state_test : map_nebius_state (codes "job_state_running") ≡ some Status.training
unfolding map_nebius_state
map_nebius_state_test = refl

abbrev submission : JobSubmission
submission = record {
  identity = 1;
  image = 108;
  disk_gib = 100;
  timeout_seconds = training_timeout;
}

build_submission-IsSubmission_example :
    (s : CustomSettings) × IsSubmission backend first_job s submission
unfolding build_submission
build_submission-IsSubmission_example =
    build_submission-IsSubmission backend first_job submission refl

-- The job runs, then succeeds, and its manifest is there at the second read.
abbrev polls : List Poll
polls =
    record { now = 110; answer = some (codes "RUNNING"); stamp = 1110 }
    ∷ record { now = 120; answer = none; stamp = 1120 }
    ∷ record { now = 130; answer = some (codes "SUCCEEDED"); stamp = 1130 }
    ∷ []

abbrev reads : List Read
reads =
    record { now = 140; outcome = absent; stamp = 1140 }
    ∷ record { now = 150; outcome = ready manifest; stamp = 1150 }
    ∷ []

abbrev completed_data : Database
unfolding run
completed_data = (run backend (some 900) 100 1100 polls reads first_job no_data).1

run-IsSettled_example : IsSettled reads first_job no_data completed_data
unfolding run build_submission poll map_nebius_state complete finalize completed_data
run-IsSettled_example =
    run-IsSettled backend (some 900) 100 1100 polls reads first_job no_data completed_data refl

-- The provider never answers.
abbrev silence : List Poll
silence =
    record { now = 200; answer = none; stamp = 1200 }
    ∷ record { now = 13000; answer = none; stamp = 14000 }
    ∷ []

run_returns_example : (run backend (some 900) 100 1100 silence reads first_job no_data).0 ≡ returned
run_returns_example =
    run_returns backend (some 900) 100 1100 silence reads first_job no_data refl (omega arith)

-- A restart with one job under way, and one whose remote id was never stored.
abbrev running_job : Job
running_job = record first_job {
  nebius_job_id = some 900;
  status = Status.training;
  phase = some "training";
}

abbrev interrupted : Database
unfolding put
interrupted = (put second_job (put running_job no_data).1).1

resume-IsExclusive_example : IsExclusive [] (resume 5000 6000 [] interrupted)
resume-IsExclusive_example = resume-IsExclusive 5000 6000 [] interrupted (λ i. omega arith)

-- Half an hour after a restart the job still runs.
abbrev still_running : List Poll
still_running =
    record { now = 5010; answer = some (codes "RUNNING"); stamp = 6010 }
    ∷ record { now = 6801; answer = some (codes "RUNNING"); stamp = 7801 }
    ∷ []

resume_fails_running_job_example :
    (stamp : ℕ) × (poll (resume_deadline 5000) 2 still_running [] running_job interrupted ≡ (
      returned,
      fail running_job "job exceeded its timeout and was marked failed" "training" stamp
          interrupted,
    ))
unfolding map_nebius_state
resume_fails_running_job_example =
    resume_fails_running_job backend 5000 still_running [] running_job interrupted
      ((codes "RUNNING", refl, refl), ((codes "RUNNING", refl, refl), tt)) refl

-- The preparation runs, and its report is there at the second read.
abbrev prepared : Database
unfolding reserve_preparation
prepared = (reserve_preparation attempt 1 false 2000 no_data).1

abbrev state_polls : List StatePoll
state_polls =
    record { now = 110; answer = some (codes "RUNNING"); stamp = 2110 }
    ∷ record { now = 120; answer = some (codes "SUCCEEDED"); stamp = 2120 }
    ∷ []

abbrev report : Report
report = record {
  fingerprint = some 80;
  accepted = true;
  failure_phase = none;
  failure_reason = none;
  report_sha256 = some 81;
}

abbrev report_reads : List ReportRead
report_reads =
    record { report = none; stamp = 2130 }
    ∷ record { report = some report; stamp = 2140 }
    ∷ record { report = none; stamp = 2150 }
    ∷ []

abbrev accepted_data : Database
unfolding run_preparation prepared
accepted_data =
    (run_preparation backend (created 900) 100 2100 state_polls report_reads attempt prepared).1

run_preparation-IsSettled_example : IsPrepared report_reads attempt accepted_data
unfolding run_preparation build_preparation_submission poll_preparation finalize_preparation
    finalize_report reported_attempt step write map_nebius_state put_preparation reserve_preparation
    prepared accepted_data
run_preparation-IsSettled_example =
    run_preparation-IsSettled backend (created 900) 100 2100 state_polls report_reads attempt
      prepared accepted_data refl

-- The provider never answers.
abbrev no_states : List StatePoll
no_states =
    record { now = 200; answer = none; stamp = 2200 }
    ∷ record { now = 2501; answer = none; stamp = 4501 }
    ∷ []

run_preparation_ends_example :
    (run_preparation backend (created 900) 100 2100 no_states report_reads attempt prepared).0
    ≢ going
run_preparation_ends_example =
    run_preparation_ends backend (created 900) 100 2100 no_states report_reads attempt prepared refl
      (omega arith)

mock_run_completes_example :
    let out = mock_run 500 501 (λ s. 3000) first_job no_data in
    (get 7 1 out ≡ some (record first_job { status = Status.completed; updated_at = 3000 }))
    × (get_artifacts 1 out ≡ some (mock_manifest 500 501 first_job))
    × ((t i : Text) → (1 == i) ≡ false → get t i out ≡ get t i no_data)
mock_run_completes_example = mock_run_completes 500 501 (λ s. 3000) first_job no_data
