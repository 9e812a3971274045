-- ===== src/Orchestration/Resume/Restart.antt =====
-- A restart: no job has two threads, and how long a resumed job is waited for.
use nebius_serverless_challe.Prelude.{
  ℕ, ◌+◌, ◌≤◌, Text, ◌≡◌, refl, inl, inr, true, false, some, List, [], ◌∷◌, arith, ltb, ◌==◌,
  Bool-cases, All, count_if, any, count_if-append, count_if_of_any-false,
}
use mathlib.Core.Path.{subst}
use nebius_serverless_challe.Store.Jobs.{list_active}
use nebius_serverless_challe.Models.{
  Job, Status, status_eq, queued, starting, training, finalizing, rendering, evaluating, completed,
  failed,
}
use nebius_serverless_challe.Store.Database.{Database}
use nebius_serverless_challe.Orchestration.States.{RawState, map_nebius_state}
use nebius_serverless_challe.Orchestration.Submission.{Backend, poll_timeout_margin}
use nebius_serverless_challe.Orchestration.Lifecycle.{
  Poll, Read, returned, fail, keep, verdict, poll, phase_or_training,
}
use nebius_serverless_challe.Orchestration.Lifecycle.Termination.{late_verdict}
use nebius_serverless_challe.Orchestration.Resume.{
  start, resume_deadline, Resumed, resume_job, resume_jobs, resume, truthy,
}

-- How often a job has a thread.
abbrev pub threads_of : Text → Resumed → ℕ
threads_of i r = count_if (λ (t : Job × ℕ). t.0.id == i) r.threads

-- The threads are those of the active set, and no job has two.
pub record IsExclusive (before : List Text) (r : Resumed) : Type 0 where
  pub once : (i : Text) → count_if (λ j. j == i) r.active ≤ 1
  pub threaded :
      (i : Text) → count_if (λ j. j == i) before + threads_of i r ≡ count_if (λ j. j == i) r.active

-- An id that is new to the active set stands in it once when it is added.
pub added_once :
    (i : Text) (active : List Text)
    → any (λ j. j == i) active ≡ false
    → ((k : Text) → count_if (λ j. j == k) active ≤ 1)
    → (k : Text) → count_if (λ j. j == k) (i ∷ active) ≤ 1
added_once i active new once k = elim (Bool-cases (i == k)) [
  | inr other ↦ let at_most = once k in ground arith
  | inl same ↦
      let equal : i ≡ k = ground arith in
      let none_yet = count_if_of_any-false (λ j. j == i) (λ j. j == i) active (λ a n. n) new in
      subst (λ x. count_if (λ j. j == x) (i ∷ active) ≤ 1) equal (rw none_yet (ground arith))
]

resume_job-IsExclusive :
    (now stamp : ℕ) (before : List Text) (job : Job) (r : Resumed)
    → IsExclusive before r
    → IsExclusive before (resume_job now stamp job r)
unfolding resume_job start
resume_job-IsExclusive now stamp before job r h = elim (Bool-cases (truthy job.nebius_job_id)) [
  | inr lost ↦ rw lost (record { once = h.once; threaded = h.threaded })
  | inl known ↦ elim (Bool-cases (any (λ j. j == job.id) r.active)) [
    | inl here ↦ rw (known, here) (record { once = h.once; threaded = h.threaded })
    | inr new ↦
        rw (known, new)
          (record {
            once = λ i. added_once job.id r.active new h.once i;
            threaded = λ i.
                let appended =
                  count_if-append (λ (t : Job × ℕ). t.0.id == i) r.threads
                    ((job, resume_deadline now) ∷ []) in
                let old = h.threaded i in ground (arith, appended, old);
          })
  ]
]

status_eq_refl : (s : Status) → status_eq s s ≡ true
status_eq_refl s = elim s as (λ x. status_eq x x ≡ true) [
  | queued ↦ refl
  | starting ↦ refl
  | training ↦ refl
  | finalizing ↦ refl
  | rendering ↦ refl
  | evaluating ↦ refl
  | completed ↦ refl
  | failed ↦ refl
]

same_verdict :
    (deadline : ℕ) (job : Job) (p : Poll) (raw : RawState)
    → ltb deadline p.now ≡ false
    → p.answer ≡ some raw
    → map_nebius_state raw ≡ some job.status
    → verdict deadline job p ≡ keep
unfolding verdict
same_verdict deadline job p raw early a m = rw (early, a, m, status_eq_refl job.status) refl

-- A job whose remote state does not change keeps its thread until the deadline, and is then failed.
poll_unchanged :
    (deadline attempts : ℕ) (polls : List Poll) (reads : List Read) (job : Job) (db : Database)
    → All
        (λ (p : Poll).
          (raw : RawState) × (p.answer ≡ some raw) × (map_nebius_state raw ≡ some job.status))
        polls
    → any (λ (p : Poll). ltb deadline p.now) polls ≡ true
    → (stamp : ℕ) × (poll deadline attempts polls reads job db ≡ (
      returned,
      fail job "job exceeded its timeout and was marked failed"
          (phase_or_training job.phase)
          stamp
          db,
    ))
unfolding poll
poll_unchanged deadline attempts [] reads job db same late = absurd (ground arith)
poll_unchanged deadline attempts (p ∷ polls) reads job db ((raw, a, m), rest) late =
    elim (Bool-cases (ltb deadline p.now)) [
      | inl passed ↦ (p.stamp, rw (late_verdict deadline job p passed, poll) refl)
      | inr early ↦
          let (stamp, e) =
            poll_unchanged deadline attempts polls reads job db rest (ground arith) in
          (stamp, rw (same_verdict deadline job p raw early a m, poll) e)
    ]

resume_jobs-IsExclusive :
    (now stamp : ℕ) (before : List Text) (jobs : List Job) (r : Resumed)
    → IsExclusive before r
    → IsExclusive before (resume_jobs now stamp jobs r)
unfolding resume_jobs
resume_jobs-IsExclusive now stamp before [] r h = h
resume_jobs-IsExclusive now stamp before (job ∷ jobs) r h =
    resume_jobs-IsExclusive now stamp before jobs (resume_job now stamp job r)
      (resume_job-IsExclusive now stamp before job r h)

-- After a restart no job has two threads: the active set, in which no id stands twice, is the one
-- before with the ids of the threads started, and a job that had a thread before gets no other.
pub resume-IsExclusive :
    (now stamp : ℕ) (before : List Text) (db : Database)
    → ((i : Text) → count_if (λ j. j == i) before ≤ 1)
    → IsExclusive before (resume now stamp before db)
unfolding resume
resume-IsExclusive now stamp before db h =
    resume_jobs-IsExclusive now stamp before (list_active db)
      (record { threads = []; active = before; db = db })
      (record { once = h; threaded = λ i. omega arith })

-- A resumed job whose remote state stays what it was is marked as failed as soon as a round of its
-- poll is past the deadline of `resume`, the margin alone; the job's own timeout, which the margin
-- is added to when the job is submitted, is not in it.
pub resume_fails_running_job :
    (b : Backend) (now : ℕ) (polls : List Poll) (reads : List Read) (job : Job) (db : Database)
    → All
        (λ (p : Poll).
          (raw : RawState) × (p.answer ≡ some raw) × (map_nebius_state raw ≡ some job.status))
        polls
    → any (λ (p : Poll). ltb (now + poll_timeout_margin) p.now) polls ≡ true
    → (stamp : ℕ) × (poll (resume_deadline now) b.finalize_attempts polls reads job db ≡ (
      returned,
      fail job "job exceeded its timeout and was marked failed"
          (phase_or_training job.phase)
          stamp
          db,
    ))
unfolding resume_deadline
resume_fails_running_job b now polls reads job db same late =
    poll_unchanged (resume_deadline now) b.finalize_attempts polls reads job db same late
