-- ===== src/Orchestration/Preparation/Termination.antt =====
-- The thread of a preparation comes to an end.
use nebius_serverless_challe.Prelude.{
  ℕ, zero, suc, ◌+◌, ◌≤◌, String, ◌≡◌, refl, ◌≢◌, inl, inr, Bool, true, false, not, ◌||◌, Option,
  none, some, List, [], ◌∷◌, arith, ltb, if◌then◌else◌, option_eq, Bool-cases, Option-cases, length,
  any,
}
use nebius_serverless_challe.Models.{PreparationAttempt}
use nebius_serverless_challe.Store.Database.{Database}
use nebius_serverless_challe.Store.Monad.{Result, ok, err}
use nebius_serverless_challe.Store.Preparations.{put_preparation}
use nebius_serverless_challe.Orchestration.Submission.{
  Backend, Build, built, value_error, build_preparation_submission, poll_timeout_margin,
  preparation_timeout, JobSubmission,
}
use nebius_serverless_challe.Orchestration.Preparation.{
  Report, StatePoll, ReportRead, Creation, created, refused, unavailable, Course, going, raised,
  write, stop, failed_attempt, fail_preparation, reported_attempt, finalize_report,
  finalize_preparation, executing_attempt, Step, overdue, wait, remote_failed, remote_completed,
  executing, step, poll_preparation, finalize_attempts_of, started_attempt, run_preparation,
}

-- The thread is not left waiting.
abbrev Ends : Course × Database → Type 0
Ends c = c.0 ≢ going

write-Ends :
    (a : PreparationAttempt) (next : Database → Course × Database) (db : Database)
    → ((db' : Database) → Ends (next db'))
    → Ends (write a next db)
unfolding write
write-Ends a next db h = go (put_preparation a db)
  where
    go :
        (r : Result (Unit {0}) × Database)
        → Ends (elim r.0 [ ok _ ↦ next r.1 | err e ↦ (raised e, r.1) ])
    go (ok _, db') = h db'
    go (err e, db') = λ p. absurd (ground arith)

fail_preparation-Ends :
    (a : PreparationAttempt) (reason phase : String) (stamp : ℕ) (db : Database)
    → Ends (fail_preparation a reason phase stamp db)
unfolding fail_preparation
fail_preparation-Ends a reason phase stamp db =
    write-Ends (failed_attempt a reason phase stamp) stop db (λ db' p. absurd (ground arith))

finalize_report-Ends :
    (attempts : ℕ) (reads : List ReportRead) (last : ℕ) (a : PreparationAttempt) (db : Database)
    → attempts ≤ length reads
    → Ends (finalize_report attempts reads last a db)
unfolding finalize_report
finalize_report-Ends zero reads last a db enough = fail_preparation-Ends a _ _ last db
finalize_report-Ends (suc attempts) [] last a db enough = absurd (omega arith)
finalize_report-Ends (suc attempts) (r ∷ reads) last a db enough =
    go r.report (finalize_report-Ends attempts reads r.stamp a db (omega arith))
  where
    go :
        (found : Option Report)
        → Ends (finalize_report attempts reads r.stamp a db)
        → Ends (elim found [
          | none ↦ finalize_report attempts reads r.stamp a db
          | some report ↦
              if not (option_eq report.fingerprint (some a.fingerprint))
              then fail_preparation a "report-fingerprint-mismatch" "finalization" r.stamp db
              else write (reported_attempt a report r.stamp) stop db
        ])
    go none rest = rest
    go (some report) rest = elim (Bool-cases (option_eq report.fingerprint (some a.fingerprint))) [
      | inl same ↦
          rw same (
            write-Ends (reported_attempt a report r.stamp) stop db (λ db' p. absurd (ground arith)))
      | inr other ↦ rw other (fail_preparation-Ends a _ _ r.stamp db)
    ]

finalize_preparation-Ends :
    (storage : Bool) (attempts : ℕ) (reads : List ReportRead) (stamp : ℕ) (a : PreparationAttempt)
    (db : Database)
    → attempts ≤ length reads
    → Ends (finalize_preparation storage attempts reads stamp a db)
unfolding finalize_preparation
finalize_preparation-Ends true attempts reads stamp a db enough =
    finalize_report-Ends attempts reads stamp a db enough
finalize_preparation-Ends false attempts reads stamp a db enough =
    fail_preparation-Ends a _ _ stamp db

late_step : (deadline : ℕ) (p : StatePoll) → ltb deadline p.now ≡ true → step deadline p ≡ overdue
unfolding step
late_step deadline p h = ground arith

poll_preparation-Ends :
    (deadline : ℕ) (storage : Bool) (attempts : ℕ) (polls : List StatePoll)
    (reads : List ReportRead) (a : PreparationAttempt) (db : Database)
    → any (λ (p : StatePoll). ltb deadline p.now) polls ≡ true
    → attempts ≤ length reads
    → Ends (poll_preparation deadline storage attempts polls reads a db)
unfolding poll_preparation
poll_preparation-Ends deadline storage attempts [] reads a db late enough = absurd (ground arith)
poll_preparation-Ends deadline storage attempts (p ∷ polls) reads a db late enough =
    go (ltb deadline p.now) (step deadline p) refl refl late
      (λ b db' l. poll_preparation-Ends deadline storage attempts polls reads b db' l enough)
  where
    go :
        (passed : Bool) (s : Step)
        → ltb deadline p.now ≡ passed
        → step deadline p ≡ s
        → (passed || any (λ (q : StatePoll). ltb deadline q.now) polls) ≡ true
        → ((b : PreparationAttempt) (db' : Database)
            → any (λ (q : StatePoll). ltb deadline q.now) polls ≡ true
            → Ends (poll_preparation deadline storage attempts polls reads b db'))
        → Ends (poll_preparation deadline storage attempts (p ∷ polls) reads a db)
    go true s e w l rest =
        rw (late_step deadline p e, poll_preparation) (fail_preparation-Ends a _ _ p.stamp db)
    go false overdue e w l rest = rw (w, poll_preparation) (fail_preparation-Ends a _ _ p.stamp db)
    go false wait e w l rest = rw (w, poll_preparation) (rest a db l)
    go false remote_failed e w l rest =
        rw (w, poll_preparation) (fail_preparation-Ends a _ _ p.stamp db)
    go false remote_completed e w l rest =
        rw (w, poll_preparation)
          (finalize_preparation-Ends storage attempts reads p.stamp a db enough)
    go false executing e w l rest =
        rw (w, poll_preparation)
          (write-Ends (executing_attempt a p.stamp) _ db
            (λ db'. rest (executing_attempt a p.stamp) db' l))

built_timeout :
    (b : Backend) (a : PreparationAttempt) (submission : JobSubmission)
    → build_preparation_submission b a ≡ built submission
    → submission.timeout_seconds ≡ preparation_timeout
unfolding build_preparation_submission
built_timeout b a submission h = elim (Option-cases b.custom_settings) [
  | inl off ↦ absurd (ground arith)
  | inr (settings, on) ↦ ground arith
]

-- Once the clock passes the preparation's timeout and margin, and with as many reads of the report
-- as the settings allow, the thread of a preparation is over, whatever the provider and the storage
-- answer.
pub run_preparation_ends :
    (b : Backend) (creation : Creation) (now stamp : ℕ) (polls : List StatePoll)
    (reads : List ReportRead) (a : PreparationAttempt) (db : Database)
    → any (λ (p : StatePoll). ltb (now + preparation_timeout + poll_timeout_margin) p.now) polls
      ≡ true
    → finalize_attempts_of b.custom_settings ≤ length reads
    → (run_preparation b creation now stamp polls reads a db).0 ≢ going
unfolding run_preparation
run_preparation_ends b creation now stamp polls reads a db late enough =
    go (build_preparation_submission b a) refl creation
  where
    go :
        (build : Build)
        → build_preparation_submission b a ≡ build
        → (creation : Creation) → Ends (run_preparation b creation now stamp polls reads a db)
    go (value_error message) e creation =
        rw (e, run_preparation) (fail_preparation-Ends a message _ stamp db)
    go (built submission) e (refused message) =
        rw (e, run_preparation) (fail_preparation-Ends a message _ stamp db)
    go (built submission) e unavailable =
        rw (e, run_preparation) (fail_preparation-Ends a _ _ stamp db)
    go (built submission) e (created remote_id) =
        rw (e, run_preparation)
          (rw (built_timeout b a submission e) (
            write-Ends (started_attempt a remote_id stamp) _ db (λ db'.
              poll_preparation-Ends _ b.storage_available _ polls reads
                (started_attempt a remote_id stamp) db' late enough)))
