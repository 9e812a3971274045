-- ===== src/Orchestration/Preparation/Settling.antt =====
-- How a preparation ends.
use nebius_serverless_challe.Prelude.{
  ℕ, zero, suc, ◌+◌, String, ◌≡◌, refl, ◌⊎◌, inl, inr, Bool, true, false, some, List, [], ◌∷◌,
  arith, option_eq, Bool-cases, Option-cases, Memᴰ,
}
use nebius_serverless_challe.Models.{PreparationState, PreparationAttempt}
use nebius_serverless_challe.Store.Database.{Database}
use nebius_serverless_challe.Store.Monad.{Result, ok, err}
use nebius_serverless_challe.Store.Preparations.{put_preparation, get_preparation}
use nebius_serverless_challe.Store.Preparations.Updates.{get_preparation-put_preparation}
use nebius_serverless_challe.Orchestration.Submission.{
  Backend, Build, built, value_error, build_preparation_submission, poll_timeout_margin,
}
use nebius_serverless_challe.Orchestration.Preparation.{
  Report, StatePoll, ReportRead, Creation, created, refused, unavailable, Course, returned, raised,
  write, stop, failed_attempt, fail_preparation, reported_attempt, finalize_report,
  finalize_preparation, executing_attempt, Step, overdue, wait, remote_failed, remote_completed,
  executing, step, poll_preparation, finalize_attempts_of, started_attempt, run_preparation,
}

-- A report that was read, is for the attempt's fingerprint, accepts it, and has the stored digest.
pub record FromReport (reads : List ReportRead) (a : PreparationAttempt) : Type 0 where
  pub read : ReportRead
  pub report : Report
  pub made : Memᴰ read reads
  pub found : read.report ≡ some report
  pub same : report.fingerprint ≡ some a.fingerprint
  pub accepted : report.accepted ≡ true
  pub digest : a.report_sha256 ≡ report.report_sha256

-- An attempt that is over: failed and open to a retry, or accepted by a report.
abbrev pub IsOver : List ReportRead → PreparationAttempt → Type 0
IsOver reads a =
    ((a.state ≡ PreparationState.failed) × (a.can_retry ≡ true))
    ⊎ ((a.state ≡ PreparationState.accepted) × FromReport reads a)

pub record IsSettled (reads : List ReportRead) (a : PreparationAttempt) (db : Database)
    : Type 0 where
  pub final : PreparationAttempt
  pub stored : get_preparation a.tenant_id a.id db ≡ some final
  pub fingerprint : final.fingerprint ≡ a.fingerprint
  pub over : IsOver reads final

write-stop :
    (a b : PreparationAttempt) (db out : Database)
    → b.tenant_id ≡ a.tenant_id
    → b.id ≡ a.id
    → write b stop db ≡ (returned, out)
    → get_preparation a.tenant_id a.id out ≡ some b
unfolding write
write-stop a b db out t i h = ground (arith, get_preparation-put_preparation a.tenant_id a.id b db)

-- A write that goes on is followed by what comes after it.
write_next :
    (b : PreparationAttempt) (next : Database → Course × Database) (db out : Database)
    → write b next db ≡ (returned, out)
    → (db' : Database) × (next db' ≡ (returned, out))
unfolding write
write_next b next db out h = go (put_preparation b db) h
  where
    go :
        (r : Result (Unit {0}) × Database)
        → elim r.0 [ ok _ ↦ next r.1 | err e ↦ (raised e, r.1) ] ≡ (returned, out)
        → (db' : Database) × (next db' ≡ (returned, out))
    go (ok _, db') h = (db', h)
    go (err e, db') h = absurd (ground arith)

fail_preparation-IsSettled :
    (reads : List ReportRead) (a b : PreparationAttempt) (reason phase : String) (stamp : ℕ)
    (db out : Database)
    → b.tenant_id ≡ a.tenant_id
    → b.id ≡ a.id
    → b.fingerprint ≡ a.fingerprint
    → fail_preparation b reason phase stamp db ≡ (returned, out)
    → IsSettled reads a out
unfolding fail_preparation failed_attempt
fail_preparation-IsSettled reads a b reason phase stamp db out t i f h = record {
  final = failed_attempt b reason phase stamp;
  stored = write-stop a (failed_attempt b reason phase stamp) db out t i h;
  fingerprint = f;
  over = inl (refl, refl);
}

reported_attempt-IsSettled :
    (r : ReportRead) (reads : List ReportRead) (a b : PreparationAttempt) (report : Report)
    (db out : Database)
    → b.tenant_id ≡ a.tenant_id
    → b.id ≡ a.id
    → b.fingerprint ≡ a.fingerprint
    → r.report ≡ some report
    → option_eq report.fingerprint (some b.fingerprint) ≡ true
    → write (reported_attempt b report r.stamp) stop db ≡ (returned, out)
    → IsSettled (r ∷ reads) a out
unfolding reported_attempt
reported_attempt-IsSettled r reads a b report db out t i f found same h = record {
  final = final;
  stored = write-stop a final db out t i h;
  fingerprint = f;
  over = elim (Bool-cases report.accepted) [
    | inr rejected ↦ inl (rw rejected refl, rw rejected refl)
    | inl accepted ↦ inr (
      rw accepted refl,
      record {
        read = r;
        report = report;
        made = Memᴰ.head refl;
        found = found;
        same = ground arith;
        accepted = accepted;
        digest = refl;
      },
    )
  ];
}
  where
    final : PreparationAttempt
    final = reported_attempt b report r.stamp

IsSettled-more :
    (r : ReportRead) (reads : List ReportRead) (a : PreparationAttempt) (db : Database)
    → IsSettled reads a db
    → IsSettled (r ∷ reads) a db
IsSettled-more r reads a db h = record {
  final = h.final;
  stored = h.stored;
  fingerprint = h.fingerprint;
  over = elim h.over [
    | inl failed ↦ inl failed
    | inr (state, m) ↦ inr (
      state,
      record {
        read = m.read;
        report = m.report;
        made = Memᴰ.tail m.made;
        found = m.found;
        same = m.same;
        accepted = m.accepted;
        digest = m.digest;
      },
    )
  ];
}

finalize_report-IsSettled :
    (attempts : ℕ) (reads : List ReportRead) (last : ℕ) (a b : PreparationAttempt)
    (db out : Database)
    → b.tenant_id ≡ a.tenant_id
    → b.id ≡ a.id
    → b.fingerprint ≡ a.fingerprint
    → finalize_report attempts reads last b db ≡ (returned, out)
    → IsSettled reads a out
unfolding finalize_report
finalize_report-IsSettled zero reads last a b db out t i f h =
    fail_preparation-IsSettled reads a b _ _ last db out t i f h
finalize_report-IsSettled (suc attempts) [] last a b db out t i f h = absurd (ground arith)
finalize_report-IsSettled (suc attempts) (r ∷ reads) last a b db out t i f h =
    elim (Option-cases r.report) [
      | inl missing ↦
          IsSettled-more r reads a out
            (finalize_report-IsSettled attempts reads r.stamp a b db out t i f (ground arith))
      | inr (report, found) ↦
          elim (Bool-cases (option_eq report.fingerprint (some b.fingerprint))) [
            | inr other ↦
                fail_preparation-IsSettled (r ∷ reads) a b "report-fingerprint-mismatch"
                  "finalization" r.stamp db out t i f (ground arith)
            | inl same ↦
                reported_attempt-IsSettled r reads a b report db out t i f found same (ground arith)
          ]
    ]

finalize_preparation-IsSettled :
    (storage : Bool) (attempts : ℕ) (reads : List ReportRead) (stamp : ℕ) (a b : PreparationAttempt)
    (db out : Database)
    → b.tenant_id ≡ a.tenant_id
    → b.id ≡ a.id
    → b.fingerprint ≡ a.fingerprint
    → finalize_preparation storage attempts reads stamp b db ≡ (returned, out)
    → IsSettled reads a out
unfolding finalize_preparation
finalize_preparation-IsSettled true attempts reads stamp a b db out t i f h =
    finalize_report-IsSettled attempts reads stamp a b db out t i f h
finalize_preparation-IsSettled false attempts reads stamp a b db out t i f h =
    fail_preparation-IsSettled reads a b "report-storage-unavailable" "finalization" stamp db out t
      i f h

poll_preparation-IsSettled :
    (deadline : ℕ) (storage : Bool) (attempts : ℕ) (polls : List StatePoll)
    (reads : List ReportRead) (a b : PreparationAttempt) (db out : Database)
    → b.tenant_id ≡ a.tenant_id
    → b.id ≡ a.id
    → b.fingerprint ≡ a.fingerprint
    → poll_preparation deadline storage attempts polls reads b db ≡ (returned, out)
    → IsSettled reads a out
unfolding poll_preparation finalize_preparation
poll_preparation-IsSettled deadline storage attempts [] reads a b db out t i f h =
    absurd (ground arith)
poll_preparation-IsSettled deadline storage attempts (p ∷ polls) reads a b db out t i f h =
    go (step deadline p) refl
      (λ h. poll_preparation-IsSettled deadline storage attempts polls reads a b db out t i f h)
      (λ db' h.
        poll_preparation-IsSettled deadline storage attempts polls reads a executing_b db' out t i f
          h)
  where
    executing_b : PreparationAttempt
    executing_b = executing_attempt b p.stamp

    go :
        (s : Step)
        → step deadline p ≡ s
        → (poll_preparation deadline storage attempts polls reads b db ≡ (returned, out)
            → IsSettled reads a out)
        → ((db' : Database)
            → poll_preparation deadline storage attempts polls reads executing_b db'
              ≡ (returned, out)
            → IsSettled reads a out)
        → IsSettled reads a out
    go overdue e again on =
        fail_preparation-IsSettled reads a b "preparation-timeout" "execution" p.stamp db out t i f
          (rw (e, poll_preparation) at h)
    go wait e again on = again (rw (e, poll_preparation) at h)
    go remote_failed e again on =
        fail_preparation-IsSettled reads a b "remote-job-failed" "execution" p.stamp db out t i f
          (rw (e, poll_preparation) at h)
    go remote_completed e again on =
        finalize_preparation-IsSettled storage attempts reads p.stamp a b db out t i f
          (rw (e, poll_preparation) at h)
    go executing e again on =
        let (db', h') =
          write_next executing_b
            (poll_preparation deadline storage attempts polls reads executing_b) db out
            (rw (e, poll_preparation) at h) in
        on db' h'

-- Whenever the thread of a preparation returns, whatever the provider, the storage and the clock did,
-- the attempt is stored for its tenant as failed and open to a retry, or as accepted with the digest
-- of a report that was read, that accepts it, and that is for the attempt's own fingerprint.
pub run_preparation-IsSettled :
    (b : Backend) (creation : Creation) (now stamp : ℕ) (polls : List StatePoll)
    (reads : List ReportRead) (a : PreparationAttempt) (db out : Database)
    → run_preparation b creation now stamp polls reads a db ≡ (returned, out)
    → IsSettled reads a out
unfolding run_preparation
run_preparation-IsSettled b creation now stamp polls reads a db out h =
    go (build_preparation_submission b a) refl creation h
  where
    go :
        (build : Build)
        → build_preparation_submission b a ≡ build
        → (creation : Creation)
        → run_preparation b creation now stamp polls reads a db ≡ (returned, out)
        → IsSettled reads a out
    go (value_error message) e creation h =
        fail_preparation-IsSettled reads a a message "submission" stamp db out refl refl refl
          (rw (e, run_preparation) at h)
    go (built submission) e (refused message) h =
        fail_preparation-IsSettled reads a a message "submission" stamp db out refl refl refl
          (rw (e, run_preparation) at h)
    go (built submission) e unavailable h =
        fail_preparation-IsSettled reads a a "remote-submission-failed" "submission" stamp db out
          refl refl refl (rw (e, run_preparation) at h)
    go (built submission) e (created remote_id) h =
        let deadline = now + submission.timeout_seconds + poll_timeout_margin in
        let attempts = finalize_attempts_of b.custom_settings in
        let begun = started_attempt a remote_id stamp in
        let (db', h') =
          write_next begun
            (poll_preparation deadline b.storage_available attempts polls reads begun) db out
            (rw (e, run_preparation) at h) in
        poll_preparation-IsSettled deadline b.storage_available attempts polls reads a begun db' out
          refl refl refl h'
