-- ===== src/Orchestration/Preparation/Restart.antt =====
-- `_start_preparation` and `resume_preparations` of `NebiusBackend` in
-- saas/backend/app/orchestration.py. `key` is the name "preparation:<id>" in the set of active threads,
-- which preparations share with jobs.
use nebius_serverless_challe.Prelude.{
  ℕ, ◌+◌, ◌≤◌, Text, ◌≡◌, inl, inr, Bool, List, [], ◌∷◌, ◌++◌, arith, ◌==◌, if◌then◌else◌,
  Bool-cases, count_if, any, count_if-append,
}
use nebius_serverless_challe.Models.{PreparationAttempt}
use nebius_serverless_challe.Store.Database.{Database}
use nebius_serverless_challe.Store.Preparations.{list_active_preparations}
use nebius_serverless_challe.Orchestration.Submission.{preparation_timeout}
use nebius_serverless_challe.Orchestration.Resume.{truthy, start}
use nebius_serverless_challe.Orchestration.Resume.Restart.{added_once}
use nebius_serverless_challe.Orchestration.Preparation.{
  Course, returned, going, raised, fail_preparation,
}

-- The state of the loop of `resume_preparations`, and how far it came: an exception of the store ends
-- it.
pub record ResumedPreparations : Type 0 where
  pub threads : List (PreparationAttempt × ℕ)
  pub active : List Text
  pub db : Database

pub start_preparation : (Text → Text) → PreparationAttempt → List Text → Bool × List Text
unfolding start
start_preparation key a active = start (key a.id) active

-- the threads that are polled again, each with its deadline
abbrev with_thread :
    (Text → Text) → ℕ → PreparationAttempt → ResumedPreparations → ResumedPreparations
unfolding start_preparation
with_thread key now a r =
    let (started, active) = start_preparation key a r.active in
    record r {
      threads = if started then r.threads ++ (a, now + preparation_timeout) ∷ [] else r.threads;
      active = active;
    }

pub resume_attempts :
    (Text → Text)
    → ℕ
    → ℕ
    → List PreparationAttempt
    → ResumedPreparations
    → Course × ResumedPreparations
unfolding fail_preparation with_thread
resume_attempts key now stamp [] r = (returned, r)
resume_attempts key now stamp (a ∷ attempts) r =
    if truthy a.nebius_job_id
    then resume_attempts key now stamp attempts (with_thread key now a r)
    else let (course, db) = fail_preparation a "submission-interrupted" "submission" stamp r.db in
      elim course [
        | returned ↦ resume_attempts key now stamp attempts (record r { db = db })
        | other ↦ (other, record r { db = db })
      ]

pub resume_preparations :
    (Text → Text) → ℕ → ℕ → List Text → Database → Course × ResumedPreparations
unfolding resume_attempts
resume_preparations key now stamp active db =
    resume_attempts key now stamp (list_active_preparations db)
      (record { threads = []; active = active; db = db })

-- How often a preparation's key has a thread.
abbrev pub threads_of : (Text → Text) → Text → ResumedPreparations → ℕ
threads_of key k r = count_if (λ (t : PreparationAttempt × ℕ). key t.0.id == k) r.threads

-- No key stands twice in the active set, which is the one before with the keys of the threads started.
pub record IsExclusive (key : Text → Text) (before : List Text) (r : ResumedPreparations)
    : Type 0 where
  pub once : (k : Text) → count_if (λ j. j == k) r.active ≤ 1
  pub threaded :
      (k : Text)
      → count_if (λ j. j == k) before + threads_of key k r ≡ count_if (λ j. j == k) r.active

with_thread-IsExclusive :
    (key : Text → Text) (now : ℕ) (before : List Text) (a : PreparationAttempt)
    (r : ResumedPreparations)
    → IsExclusive key before r
    → IsExclusive key before (with_thread key now a r)
unfolding with_thread start_preparation start
with_thread-IsExclusive key now before a r h =
    elim (Bool-cases (any (λ j. j == key a.id) r.active)) [
      | inl here ↦ rw here (record { once = h.once; threaded = h.threaded })
      | inr new ↦ rw new (record {
        once = λ k. added_once (key a.id) r.active new h.once k;
        threaded = λ k.
            let appended =
              count_if-append (λ (t : PreparationAttempt × ℕ). key t.0.id == k) r.threads
                ((a, now + preparation_timeout) ∷ []) in
            let old = h.threaded k in ground (arith, appended, old);
      })
    ]

resume_attempts-IsExclusive :
    (key : Text → Text) (now stamp : ℕ) (before : List Text) (attempts : List PreparationAttempt)
    (r : ResumedPreparations)
    → IsExclusive key before r
    → IsExclusive key before (resume_attempts key now stamp attempts r).1
unfolding resume_attempts
resume_attempts-IsExclusive key now stamp before [] r h = h
resume_attempts-IsExclusive key now stamp before (a ∷ attempts) r h =
    elim (Bool-cases (truthy a.nebius_job_id)) [
      | inl known ↦ rw known (
          resume_attempts-IsExclusive key now stamp before attempts (with_thread key now a r)
            (with_thread-IsExclusive key now before a r h))
      | inr lost ↦ rw lost (
          go (fail_preparation a "submission-interrupted" "submission" stamp r.db) (λ db.
            resume_attempts-IsExclusive key now stamp before attempts (record r { db = db })
              (record { once = h.once; threaded = h.threaded })))
    ]
  where
    go :
        (c : Course × Database)
        → ((db : Database)
            → IsExclusive key before
                (resume_attempts key now stamp attempts (record r { db = db })).1)
        → IsExclusive key before
            (elim c.0 as (λ x. Course × ResumedPreparations) [
              | returned ↦ resume_attempts key now stamp attempts (record r { db = c.1 })
              | other ↦ (other, record r { db = c.1 })
            ]).1
    go (returned, db) rest = rest db
    go (going, db) rest = record { once = h.once; threaded = h.threaded }
    go (raised e, db) rest = record { once = h.once; threaded = h.threaded }

-- After a restart no preparation has two threads: the active set, in which no key stands twice, is
-- the one before with the keys of the threads started.
pub resume_preparations-IsExclusive :
    (key : Text → Text) (now stamp : ℕ) (before : List Text) (db : Database)
    → ((k : Text) → count_if (λ j. j == k) before ≤ 1)
    → IsExclusive key before (resume_preparations key now stamp before db).1
unfolding resume_preparations
resume_preparations-IsExclusive key now stamp before db h =
    resume_attempts-IsExclusive key now stamp before (list_active_preparations db)
      (record { threads = []; active = before; db = db })
      (record { once = h; threaded = λ k. omega arith })
