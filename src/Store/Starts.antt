-- ===== src/Store/Starts.antt =====
-- `reserve_training_job` of `class CustomTrainingStore` in saas/backend/app/store.py.
pub mod Idempotence
pub mod Limits
use nebius_serverless_challe.Prelude.{
  ℕ, ◌+◌, ◌*◌, Text, Bool, true, false, not, ◌&&◌, none, some, [], ◌∷◌, ◌++◌, leb, ◌==◌, find?,
  count_if, any,
}
use nebius_serverless_challe.Models.{Job, is_custom, is_terminal}
use nebius_serverless_challe.Store.Database.{JobRow, RequestRow}
use nebius_serverless_challe.Store.Monad.{
  ◌>>=◌, ◌>>◌, Quota, StoreError, Action, pure, raise, gets, transaction, raise_if, modify,
}

abbrev pub of_key : Text → Text → Text → RequestRow → Bool
of_key tenant_id setup_id idempotency_key r =
    r.tenant_id == tenant_id && r.setup_id == setup_id && r.idempotency_key == idempotency_key

abbrev pub of_job : Text → Text → JobRow → Bool
of_job job_id tenant_id r = r.id == job_id && r.tenant_id == tenant_id

-- the reservation exists: its job is returned as it is stored now
replay : Text → Text → Action (Job × Bool)
replay job_id tenant_id = do
  row ← gets (λ db. find? (of_job job_id tenant_id) db.jobs)
  elim row [ none ↦ raise StoreError.runtime_error | some r ↦ pure (r.job, false) ]

-- a custom job of the tenant that is not over
abbrev pub active_custom : Text → JobRow → Bool
active_custom tenant_id r =
    r.tenant_id == tenant_id && (is_custom r.job.job_kind && not (is_terminal r.job.status))

abbrev pub day_seconds : ℕ
day_seconds = 24 * 60 * 60

-- `created_at >= now - 24 * 60 * 60`
abbrev pub started_since : Text → ℕ → RequestRow → Bool
started_since tenant_id now r = r.tenant_id == tenant_id && leb now (r.created_at + day_seconds)

-- `INSERT INTO jobs`, under its primary key
abbrev insert_job : Job → Action (Unit {0})
insert_job job = do
  rows ← gets (λ db. db.jobs)
  raise_if (any (λ (r : JobRow). r.id == job.id) rows) StoreError.integrity_error
  let row : JobRow = record {
    id = job.id;
    tenant_id = job.tenant_id;
    gallery_example_id = none;
    job = job;
  }
  modify (λ db. record db { jobs = db.jobs ++ row ∷ [] })

-- `INSERT INTO custom_training_requests`, under its primary key
abbrev insert_request : RequestRow → Action (Unit {0})
insert_request new = do
  rows ← gets (λ db. db.custom_training_requests)
  raise_if (any (of_key new.tenant_id new.setup_id new.idempotency_key) rows)
      StoreError.integrity_error
  modify (λ db. record db { custom_training_requests = db.custom_training_requests ++ new ∷ [] })

start : Job → Text → Text → ℕ → ℕ → ℕ → ℕ → Action (Job × Bool)
start job setup_id idempotency_key max_active max_daily now inserted_at = do
  active ← gets (λ db. count_if (active_custom job.tenant_id) db.jobs)
  raise_if (leb max_active active) (StoreError.quota_exceeded Quota.active_training_jobs max_active)
  daily ← gets (λ db. count_if (started_since job.tenant_id now) db.custom_training_requests)
  raise_if (leb max_daily daily) (StoreError.quota_exceeded Quota.daily_training_starts max_daily)
  insert_job job
  insert_request (record {
    tenant_id = job.tenant_id;
    setup_id = setup_id;
    idempotency_key = idempotency_key;
    job_id = job.id;
    created_at = inserted_at;
  })
  pure (job, true)

-- `now` and `inserted_at` are the two readings of the clock.
unfoldable pub reserve_training_job : Job → Text → Text → ℕ → ℕ → ℕ → ℕ → Action (Job × Bool)
unfolding replay start
reserve_training_job job setup_id idempotency_key max_active max_daily now inserted_at =
    transaction (do
      existing ←
          gets (λ db.
            find? (of_key job.tenant_id setup_id idempotency_key) db.custom_training_requests)
      elim existing [
        | some r ↦ replay r.job_id job.tenant_id
        | none ↦ start job setup_id idempotency_key max_active max_daily now inserted_at
      ])
