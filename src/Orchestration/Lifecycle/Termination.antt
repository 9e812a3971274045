-- ===== src/Orchestration/Lifecycle/Termination.antt =====
-- `_poll` and `_complete` come to an end.
use nebius_serverless_challe.Prelude.{
  ℕ, zero, suc, ◌+◌, ◌≤◌, Text, ◌≡◌, refl, Bool, true, false, ◌||◌, Option, none, some, List, [],
  ◌∷◌, arith, ltb, length, any,
}
use nebius_serverless_challe.Models.{Job, Status}
use nebius_serverless_challe.Store.Database.{Database}
use nebius_serverless_challe.Orchestration.Submission.{
  Backend, Build, built, value_error, build_submission, poll_timeout_margin, training_timeout,
  build_submission-IsSubmission,
}
use nebius_serverless_challe.Orchestration.Lifecycle.{
  Poll, Read, returned, save, finalize, complete, Verdict, timed_out, keep, succeeded,
  remote_failed, advance, verdict, poll, run,
}

finalize_returns :
    (deadline attempts : ℕ) (reads : List Read) (last : ℕ) (job : Job) (db : Database)
    → attempts ≤ length reads
    → (finalize deadline attempts reads last job db).0 ≡ returned
unfolding finalize
finalize_returns deadline zero reads last job db h = refl
finalize_returns deadline (suc attempts) [] last job db h = absurd (omega arith)
finalize_returns deadline (suc attempts) (r ∷ reads) last job db h =
    ground (arith, finalize_returns deadline attempts reads r.stamp job db)

complete_returns :
    (deadline attempts : ℕ) (reads : List Read) (stamp : ℕ) (job : Job) (db : Database)
    → attempts ≤ length reads
    → (complete deadline attempts reads stamp job db).0 ≡ returned
unfolding complete
complete_returns deadline attempts reads stamp job db h =
    finalize_returns deadline attempts reads stamp _ _ h

pub late_verdict :
    (deadline : ℕ) (job : Job) (p : Poll)
    → ltb deadline p.now ≡ true
    → verdict deadline job p ≡ timed_out
unfolding verdict
late_verdict deadline job p h = ground arith

poll_returns :
    (deadline attempts : ℕ) (polls : List Poll) (reads : List Read) (job : Job) (db : Database)
    → any (λ (p : Poll). ltb deadline p.now) polls ≡ true
    → attempts ≤ length reads
    → (poll deadline attempts polls reads job db).0 ≡ returned
unfolding poll
poll_returns deadline attempts [] reads job db late enough = absurd (ground arith)
poll_returns deadline attempts (p ∷ polls) reads job db late enough =
    go (ltb deadline p.now) (verdict deadline job p) refl refl late
      (λ l. poll_returns deadline attempts polls reads job db l enough)
      (λ status l. poll_returns deadline attempts polls reads _ _ l enough)
  where
    go :
        (passed : Bool) (v : Verdict)
        → ltb deadline p.now ≡ passed
        → verdict deadline job p ≡ v
        → (passed || any (λ (q : Poll). ltb deadline q.now) polls) ≡ true
        → (any (λ (q : Poll). ltb deadline q.now) polls ≡ true
            → (poll deadline attempts polls reads job db).0 ≡ returned)
        → ((status : Status)
            → any (λ (q : Poll). ltb deadline q.now) polls ≡ true
            → (poll deadline attempts polls reads
                (record job { status = status; updated_at = p.stamp })
                (save (record job { status = status; updated_at = p.stamp }) db)).0
              ≡ returned)
        → (poll deadline attempts (p ∷ polls) reads job db).0 ≡ returned
    go true v e w l again on = rw (late_verdict deadline job p e, poll)
    go false timed_out e w l again on = rw (w, poll)
    go false keep e w l again on = rw (w, poll) (again l)
    go false succeeded e w l again on =
        rw (w, poll) (complete_returns deadline attempts reads p.stamp job db enough)
    go false remote_failed e w l again on = rw (w, poll)
    go false (advance status) e w l again on = rw (w, poll) (on status l)

-- Once the clock passes the job's timeout and margin, and with as many reads as the backend makes
-- at most, the backend is done with the job, whatever the provider and the storage answer.
pub run_returns :
    (b : Backend) (created : Option Text) (now stamp : ℕ) (polls : List Poll) (reads : List Read)
    (job : Job) (db : Database)
    → any (λ (p : Poll). ltb (now + training_timeout + poll_timeout_margin) p.now) polls ≡ true
    → b.finalize_attempts ≤ length reads
    → (run b created now stamp polls reads job db).0 ≡ returned
unfolding run
run_returns b created now stamp polls reads job db late enough =
    go (build_submission b job) refl created
  where
    started : Text → Job
    started i = record job { nebius_job_id = some i; status = Status.starting; updated_at = stamp }

    go :
        (build : Build)
        → build_submission b job ≡ build
        → (created : Option Text) → (run b created now stamp polls reads job db).0 ≡ returned
    go (value_error message) e created = rw (e, run)
    go (built submission) e none = rw (e, run)
    go (built submission) e (some i) =
        let (settings, s) = build_submission-IsSubmission b job submission e in
        rw (e, run)
          (rw s.timeout (
            poll_returns _ b.finalize_attempts polls reads (started i) (save (started i) db) late
              enough))
