-- ===== src/Orchestration/Lifecycle/Settling.antt =====
-- Every way through `_run`, `_poll` and `_complete` ends the job.
use nebius_serverless_challe.Prelude.{
  ℕ, zero, suc, ◌+◌, Text, ◌≡◌, refl, ap, Bool, true, false, Option, none, some, List, [], ◌∷◌,
  arith, ltb,
}
use mathlib.Core.Path.{subst}
use nebius_serverless_challe.Models.{Job, Status}
use nebius_serverless_challe.Store.Database.{Database}
use nebius_serverless_challe.Store.Jobs.{set_artifacts}
use nebius_serverless_challe.Orchestration.Submission.{
  Backend, Build, built, value_error, build_submission, poll_timeout_margin,
}
use nebius_serverless_challe.Orchestration.Lifecycle.{
  Poll, Manifest, ready, invalid, absent, Read, Progress, returned, save, fail, completed_job,
  finalizing_job, finalize, complete, Verdict, timed_out, keep, succeeded, remote_failed, advance,
  verdict, poll, run, phase_or_training,
}
use nebius_serverless_challe.Orchestration.Lifecycle.Outcome.{
  IsSettled, KeepsOthers, KeepsOthers-save, fail-IsSettled, completed-IsSettled, IsSettled-more,
}

finalize-IsSettled :
    (deadline attempts : ℕ) (reads : List Read) (last : ℕ) (job j : Job) (db db' out : Database)
    → j.id ≡ job.id
    → j.tenant_id ≡ job.tenant_id
    → KeepsOthers job db db'
    → finalize deadline attempts reads last j db' ≡ (returned, out)
    → IsSettled reads job db out
unfolding finalize
finalize-IsSettled deadline zero reads last job j db db' out e t h f =
    subst (IsSettled reads job db) (ap (λ o. o.1) f)
      (fail-IsSettled reads job j _ _ last db db' e t h)
finalize-IsSettled deadline (suc attempts) [] last job j db db' out e t h f = absurd (ground arith)
finalize-IsSettled deadline (suc attempts) (r ∷ reads) last job j db db' out e t h f =
    go (ltb deadline r.now) r.outcome refl
      (λ f. finalize-IsSettled deadline attempts reads r.stamp job j db db' out e t h f) f
  where
    go :
        (late : Bool) (outcome : Manifest)
        → r.outcome ≡ outcome
        → (finalize deadline attempts reads r.stamp j db' ≡ (returned, out)
            → IsSettled reads job db out)
        → ◌≡◌ {A = Progress × Database}
            (elim late [
              | true ↦ (
                returned,
                fail j "artifacts did not finalize before timeout" "finalization" r.stamp db',
              )
              | false ↦ elim outcome [
                | ready manifest ↦
                    (returned, save (completed_job j r.stamp) (set_artifacts manifest db').1)
                | invalid message ↦ (returned, fail j message "artifact_validation" r.stamp db')
                | absent ↦ finalize deadline attempts reads r.stamp j db'
              ]
            ])
            (returned, out)
        → IsSettled (r ∷ reads) job db out
    go true outcome o later f =
        subst (IsSettled (r ∷ reads) job db) (ap (λ o. o.1) f)
          (fail-IsSettled (r ∷ reads) job j _ _ r.stamp db db' e t h)
    go false (ready m) o later f =
        subst (IsSettled (r ∷ reads) job db) (ap (λ o. o.1) f)
          (completed-IsSettled r reads m job j r.stamp db db' e t o h)
    go false (invalid m) o later f =
        subst (IsSettled (r ∷ reads) job db) (ap (λ o. o.1) f)
          (fail-IsSettled (r ∷ reads) job j _ _ r.stamp db db' e t h)
    go false absent o later f = IsSettled-more r reads job db out (later f)

KeepsOthers-refl : (job : Job) (db : Database) → KeepsOthers job db db
KeepsOthers-refl job db t i ne = refl

complete-IsSettled :
    (deadline attempts : ℕ) (reads : List Read) (stamp : ℕ) (job j : Job) (db db' out : Database)
    → j.id ≡ job.id
    → j.tenant_id ≡ job.tenant_id
    → KeepsOthers job db db'
    → complete deadline attempts reads stamp j db' ≡ (returned, out)
    → IsSettled reads job db out
unfolding complete
complete-IsSettled deadline attempts reads stamp job j db db' out e t h c =
    finalize-IsSettled deadline attempts reads stamp job (finalizing_job j stamp) db
      (save (finalizing_job j stamp) db') out e t
      (KeepsOthers-save job (finalizing_job j stamp) db db' e h) c

poll-IsSettled :
    (deadline attempts : ℕ) (polls : List Poll) (reads : List Read) (job j : Job)
    (db db' out : Database)
    → j.id ≡ job.id
    → j.tenant_id ≡ job.tenant_id
    → KeepsOthers job db db'
    → poll deadline attempts polls reads j db' ≡ (returned, out)
    → IsSettled reads job db out
unfolding poll
poll-IsSettled deadline attempts [] reads job j db db' out e t h f = absurd (ground arith)
poll-IsSettled deadline attempts (p ∷ polls) reads job j db db' out e t h f =
    go (verdict deadline j p)
      (λ f. poll-IsSettled deadline attempts polls reads job j db db' out e t h f)
      (λ status f.
        poll-IsSettled deadline attempts polls reads job (moved status) db (save (moved status) db')
          out e t (KeepsOthers-save job (moved status) db db' e h) f)
      f
  where
    moved : Status → Job
    moved status = record j { status = status; updated_at = p.stamp }

    lost : Job
    lost = record j { status = Status.failed; updated_at = p.stamp }

    go :
        (v : Verdict)
        → (poll deadline attempts polls reads j db' ≡ (returned, out) → IsSettled reads job db out)
        → ((status : Status)
            → poll deadline attempts polls reads (moved status) (save (moved status) db')
              ≡ (returned, out)
            → IsSettled reads job db out)
        → ◌≡◌ {A = Progress × Database}
            (elim v [
              | timed_out ↦ (
                returned,
                fail j "job exceeded its timeout and was marked failed"
                    (phase_or_training j.phase)
                    p.stamp
                    db',
              )
              | keep ↦ poll deadline attempts polls reads j db'
              | succeeded ↦ complete deadline attempts reads p.stamp j db'
              | remote_failed ↦
                  (returned, fail lost "remote job failed" "training" p.stamp (save lost db'))
              | advance status ↦
                  poll deadline attempts polls reads (moved status) (save (moved status) db')
            ])
            (returned, out)
        → IsSettled reads job db out
    go timed_out again on f =
        subst (IsSettled reads job db) (ap (λ o. o.1) f)
          (fail-IsSettled reads job j _ _ p.stamp db db' e t h)
    go keep again on f = again f
    go succeeded again on f =
        complete-IsSettled deadline attempts reads p.stamp job j db db' out e t h f
    go remote_failed again on f = subst (IsSettled reads job db) (ap (λ o. o.1) f) (
        fail-IsSettled reads job lost _ _ p.stamp db (save lost db') e t
          (KeepsOthers-save job lost db db' e h))
    go (advance status) again on f = on status f

-- Whenever the backend is done with a job, whatever the provider, the storage and the clock did, the
-- job is stored as failed with an error, or as completed with a manifest that was read and is
-- stored; and every other job reads as before.
pub run-IsSettled :
    (b : Backend) (created : Option Text) (now stamp : ℕ) (polls : List Poll) (reads : List Read)
    (job : Job) (db out : Database)
    → run b created now stamp polls reads job db ≡ (returned, out)
    → IsSettled reads job db out
unfolding run
run-IsSettled b created now stamp polls reads job db out f = go (build_submission b job) created f
  where
    started : Text → Job
    started i = record job { nebius_job_id = some i; status = Status.starting; updated_at = stamp }

    go :
        (build : Build) (created : Option Text)
        → ◌≡◌ {A = Progress × Database}
            (elim build [
              | value_error message ↦ (returned, fail job message "submission" stamp db)
              | built submission ↦ elim created [
                | none ↦ (
                  returned,
                  fail job "The training job could not be submitted. Please try again later."
                      "submission" stamp db,
                )
                | some i ↦
                    poll
                      (now + submission.timeout_seconds + poll_timeout_margin)
                      b.finalize_attempts
                      polls
                      reads
                      (started i)
                      (save (started i) db)
              ]
            ])
            (returned, out)
        → IsSettled reads job db out
    go (value_error message) created f =
        subst (IsSettled reads job db) (ap (λ o. o.1) f)
          (fail-IsSettled reads job job _ _ stamp db db refl refl (KeepsOthers-refl job db))
    go (built submission) none f =
        subst (IsSettled reads job db) (ap (λ o. o.1) f)
          (fail-IsSettled reads job job _ _ stamp db db refl refl (KeepsOthers-refl job db))
    go (built submission) (some i) f =
        poll-IsSettled _ b.finalize_attempts polls reads job (started i) db (save (started i) db)
          out refl refl (KeepsOthers-save job (started i) db db refl (KeepsOthers-refl job db)) f
