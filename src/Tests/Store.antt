-- ===== src/Tests/Store.antt =====
-- The jobs, starts and preparations of saas/backend/app/store.py at concrete inputs.
use nebius_serverless_challe.Prelude.{
  ◌<◌, ◌≡◌, refl, ◌↔◌, true, false, ◌&&◌, none, some, arith, ◌==◌, if◌then◌else◌, find?, count_if,
  any,
}
use nebius_serverless_challe.Models.{PreparationState, PreparationAttempt}
use nebius_serverless_challe.Store.Database.{Database, JobRow}
use nebius_serverless_challe.Store.Monad.{ok}
use nebius_serverless_challe.Store.Jobs.{put, get}
use nebius_serverless_challe.Store.Jobs.Isolation.{
  IsJobTable, get-put, put-IsJobTable, get_isolation,
}
use nebius_serverless_challe.Store.Starts.{
  reserve_training_job, of_key, active_custom, started_since,
}
use nebius_serverless_challe.Store.Starts.Idempotence.{reserve_training_job-again}
use nebius_serverless_challe.Store.Starts.Limits.{
  IsStartState, reserve_training_job-IsStartState, reserve_training_job_created,
}
use nebius_serverless_challe.Store.Preparations.{
  accepted_preparation, reserve_preparation, put_preparation, of_fingerprint, is_accepted,
}
use nebius_serverless_challe.Store.Preparations.Newest.{NewestOf, accepted_preparation-NewestOf}
use nebius_serverless_challe.Store.Preparations.Reuse.{
  reserve_preparation-again, reserve_preparation-accepted,
}
use nebius_serverless_challe.Store.Preparations.Invariant.{
  IsAttemptTable, reserve_preparation-IsAttemptTable,
}
use nebius_serverless_challe.Tests.Samples.{
  no_data, alice, bob, first_job, second_job, attempt, attempt_of,
}

abbrev one_job : Database
unfolding put
one_job = (put first_job no_data).1

get_put_test : get alice 1 one_job ≡ some first_job
unfolding get put
get_put_test = refl

get-put_example : get bob 1 (put first_job no_data).1 ≡ (if false then some first_job else none)
unfolding get
get-put_example = get-put bob 1 first_job no_data

no_jobs-IsJobTable : IsJobTable no_data.jobs
no_jobs-IsJobTable = record { consistent = tt; primary_key = λ i. omega arith }

get_isolation_example : (first_job.tenant_id ≡ alice) × (first_job.id ≡ 1)
unfolding get put
get_isolation_example =
    get_isolation alice 1 first_job (put first_job no_data).1
      (put-IsJobTable first_job no_data no_jobs-IsJobTable) refl

-- the database after the start of the first job, with one active job allowed, and ten in a day
abbrev started : Database
unfolding reserve_training_job
started = (reserve_training_job first_job 60 500 1 10 2000 2000 no_data).1

reserve_training_job-again_example :
    reserve_training_job second_job 60 500 1 10 3000 3000 started ≡ (ok (first_job, false), started)
unfolding reserve_training_job
reserve_training_job-again_example =
    reserve_training_job-again first_job second_job 60 500 1 10 2000 2000 1 10 3000 3000 first_job
      true no_data started refl refl

no_data-IsStartState : IsStartState 1 no_data
no_data-IsStartState = record {
  linked = tt;
  unique_keys = λ t s k. omega arith;
  bounded = λ t. omega arith;
}

reserve_training_job-IsStartState_example :
    IsStartState 1 (reserve_training_job first_job 60 500 1 10 2000 2000 no_data).1
reserve_training_job-IsStartState_example =
    reserve_training_job-IsStartState first_job 60 500 1 10 2000 2000 no_data no_data-IsStartState

-- A second key of the same tenant meets the limit of one active job.
reserve_training_job_created_example :
    ((reserve_training_job second_job 60 501 1 10 3000 3000 started).0 ≡ ok (second_job, true)) ↔ (
      (find? (of_key alice 60 501) started.custom_training_requests ≡ none)
      × (any (λ (r : JobRow). r.id == 2) started.jobs ≡ false)
      × (count_if (active_custom alice) started.jobs < 1)
      × (count_if (started_since alice 3000) started.custom_training_requests < 10))
reserve_training_job_created_example =
    reserve_training_job_created second_job 60 501 1 10 3000 3000 started

-- The preparation requested, and then accepted.
abbrev prepared : Database
unfolding reserve_preparation
prepared = (reserve_preparation attempt 1 false 2000 no_data).1

abbrev accepted_attempt : PreparationAttempt
accepted_attempt = attempt_of 70 PreparationState.accepted

abbrev accepted_data : Database
unfolding reserve_preparation put_preparation
accepted_data = (put_preparation accepted_attempt prepared).1

reserve_preparation-again_example :
    reserve_preparation (attempt_of 71 PreparationState.queued) 1 true 3000 prepared
    ≡ (ok (attempt, false), prepared)
unfolding reserve_preparation
reserve_preparation-again_example =
    reserve_preparation-again attempt (attempt_of 71 PreparationState.queued) 1 1 false true 2000
      3000 attempt true no_data prepared (refl, refl, refl) refl refl

reserve_preparation-accepted_example :
    (c : PreparationAttempt) × (accepted_preparation alice 60 80 accepted_data ≡ some c)
unfolding reserve_preparation put_preparation
reserve_preparation-accepted_example =
    reserve_preparation-accepted (attempt_of 71 PreparationState.queued) 1 false 3000
      accepted_attempt accepted_data accepted_data refl refl

no_attempts-IsAttemptTable : IsAttemptTable 1 no_data.preparation_attempts
no_attempts-IsAttemptTable = record {
  consistent = tt;
  primary_key = λ i. omega arith;
  single = λ t s f. omega arith;
  bounded = λ t. omega arith;
}

reserve_preparation-IsAttemptTable_example :
    IsAttemptTable 1 (reserve_preparation attempt 1 false 2000 no_data).1.preparation_attempts
reserve_preparation-IsAttemptTable_example =
    reserve_preparation-IsAttemptTable attempt 1 false 2000 no_data no_attempts-IsAttemptTable

accepted_preparation-NewestOf_example :
    NewestOf
      (λ r. of_fingerprint alice 60 80 r && is_accepted r.attempt.state)
      accepted_data.preparation_attempts
      (accepted_preparation alice 60 80 accepted_data)
accepted_preparation-NewestOf_example = accepted_preparation-NewestOf alice 60 80 accepted_data
