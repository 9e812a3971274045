-- ===== src/Orchestration/Resume.antt =====
-- `_start` and `resume` of `NebiusBackend` in saas/backend/app/orchestration.py: what a restarted
-- process does with the jobs that were under way.
pub mod Restart
use nebius_serverless_challe.Prelude.{
  ℕ, ◌+◌, Text, empty, Bool, true, false, not, Option, none, some, List, [], ◌∷◌, ◌++◌, ◌==◌,
  if◌then◌else◌, any, delete_where,
}
use nebius_serverless_challe.Models.{Job}
use nebius_serverless_challe.Store.Database.{Database}
use nebius_serverless_challe.Store.Jobs.{list_active}
use nebius_serverless_challe.Orchestration.Submission.{poll_timeout_margin}
use nebius_serverless_challe.Orchestration.Lifecycle.{fail}

-- a string or `None`, as a condition
abbrev pub truthy : Option Text → Bool
truthy none = false
truthy (some t) = not (t == empty)

-- `_start`: the set of jobs that have a thread, and whether a thread was started.
unfoldable pub start : Text → List Text → Bool × List Text
start job_id active =
    if any (λ i. i == job_id) active then (false, active) else (true, job_id ∷ active)

-- the `finally` of a thread
pub discard : Text → List Text → List Text
discard job_id active = delete_where (λ i. i == job_id) active

-- The deadline of a job that is polled again after a restart.
unfoldable pub resume_deadline : ℕ → ℕ
resume_deadline now = now + poll_timeout_margin

-- The state of the loop of `resume`: the threads that it started, each with its job and deadline,
-- the active set and the database.
pub record Resumed : Type 0 where
  pub threads : List (Job × ℕ)
  pub active : List Text
  pub db : Database

-- the body of the loop, for one job
unfoldable pub resume_job : ℕ → ℕ → Job → Resumed → Resumed
unfolding start fail resume_deadline
resume_job now stamp job r =
    if not (truthy job.nebius_job_id)
    then record r {
      db = fail job "job was interrupted before remote creation" "submission" stamp r.db;
    }
    else let (started, active) = start job.id r.active in
      record r {
        threads = if started then r.threads ++ (job, resume_deadline now) ∷ [] else r.threads;
        active = active;
      }

unfoldable pub resume_jobs : ℕ → ℕ → List Job → Resumed → Resumed
unfolding resume_job
resume_jobs now stamp [] r = r
resume_jobs now stamp (job ∷ jobs) r = resume_jobs now stamp jobs (resume_job now stamp job r)

-- All jobs are resumed with one reading of the clock, and no thread ends meanwhile.
unfoldable pub resume : ℕ → ℕ → List Text → Database → Resumed
unfolding resume_jobs
resume now stamp active db =
    resume_jobs now stamp (list_active db) (record { threads = []; active = active; db = db })
