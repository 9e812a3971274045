-- ===== src/Store/Starts/Idempotence.antt =====
-- A start request is made at most once for each idempotency key.
use nebius_serverless_challe.Prelude.{
  ℕ, ◌<◌, Text, ◌≡◌, refl, ◌∙◌, ◌⊎◌, inl, inr, Bool, true, false, none, some, [], ◌∷◌, ◌++◌, arith,
  ◌==◌, Option-cases, find?, count_if, any, find?-append_none, find?_of_any-false,
}
use nebius_serverless_challe.Models.{Job}
use nebius_serverless_challe.Store.Database.{Database, JobRow, RequestRow}
use nebius_serverless_challe.Store.Monad.{ok}
use nebius_serverless_challe.Store.Starts.{
  of_key, of_job, active_custom, started_since, reserve_training_job,
}

-- The two rows that a new start writes.
abbrev pub request_row : Job → Text → Text → ℕ → RequestRow
request_row job setup key at = record {
  tenant_id = job.tenant_id;
  setup_id = setup;
  idempotency_key = key;
  job_id = job.id;
  created_at = at;
}

abbrev pub started_row : Job → JobRow
started_row job = record {
  id = job.id;
  tenant_id = job.tenant_id;
  gallery_example_id = none;
  job = job;
}

abbrev pub after_start : Job → Text → Text → ℕ → Database → Database
after_start job setup key at db = record db {
  jobs = db.jobs ++ started_row job ∷ [];
  custom_training_requests = db.custom_training_requests ++ request_row job setup key at ∷ [];
}

-- What a database records of a key: its request, and the stored job of that request.
pub record Recorded (tenant setup key : Text) (j : Job) (db : Database) : Type 0 where
  pub request : RequestRow
  pub row : JobRow
  pub requested : find? (of_key tenant setup key) db.custom_training_requests ≡ some request
  pub stored : find? (of_job request.job_id tenant) db.jobs ≡ some row
  pub same_job : row.job ≡ j

module _ (job : Job) (setup key max_active max_daily now at : ℕ) where
  replay-Recorded :
      (tenant : Text) (j : Job) (db : Database)
      → Recorded tenant setup key j db
      → job.tenant_id ≡ tenant
      → reserve_training_job job setup key max_active max_daily now at db ≡ (ok (j, false), db)
  unfolding reserve_training_job
  replay-Recorded tenant j db r e = ground (arith, r.requested, r.stored, r.same_job)

  -- A call that is no replay passed both limits and both primary keys, and wrote its two rows.
  abbrev pub Started : Job → Bool → Database → Database → Type 0
  Started j created db db' =
      (j ≡ job)
      × (created ≡ true)
      × (db' ≡ after_start job setup key at db)
      × (any (λ (r : JobRow). r.id == job.id) db.jobs ≡ false)
      × (any (of_key job.tenant_id setup key) db.custom_training_requests ≡ false)
      × (count_if (active_custom job.tenant_id) db.jobs < max_active)
      × (count_if (started_since job.tenant_id now) db.custom_training_requests < max_daily)

  -- A call that returns replays a recorded request, or starts a new one.
  reserve_cases :
      (j : Job) (created : Bool) (db db' : Database)
      → reserve_training_job job setup key max_active max_daily now at db ≡ (ok (j, created), db')
      → (Recorded job.tenant_id setup key j db × (created ≡ false) × (db' ≡ db))
        ⊎ Started j created db db'
  unfolding reserve_training_job
  reserve_cases j created db db' h =
      elim (Option-cases (find? (of_key job.tenant_id setup key) db.custom_training_requests)) [
        | inl new ↦ inr (ground arith)
        | inr (r, found) ↦ elim (Option-cases (find? (of_job r.job_id job.tenant_id) db.jobs)) [
          | inl lost ↦ absurd (ground arith)
          | inr (row, stored) ↦ inl (
            record {
              request = r;
              row = row;
              requested = found;
              stored = stored;
              same_job = ground arith;
            },
            ground arith,
            ground arith,
          )
        ]
      ]

  -- Whatever the outcome, the database is unchanged or a start was made.
  pub reserve_state :
      (db : Database)
      → let after = (reserve_training_job job setup key max_active max_daily now at db).1 in
        (after ≡ db) ⊎ Started job true db after
  unfolding reserve_training_job
  reserve_state db = ground arith

-- A start records its request.
after_start-Recorded :
    (job : Job) (setup key at : ℕ) (db : Database)
    → any (λ (r : JobRow). r.id == job.id) db.jobs ≡ false
    → any (of_key job.tenant_id setup key) db.custom_training_requests ≡ false
    → Recorded job.tenant_id setup key job (after_start job setup key at db)
after_start-Recorded job setup key at db fresh_id fresh_key = record {
  request = request_row job setup key at;
  row = started_row job;
  requested =
      find?-append_none (of_key job.tenant_id setup key) db.custom_training_requests _ (
        find?_of_any-false _ (of_key job.tenant_id setup key) db.custom_training_requests (λ r h. h)
          fresh_key)
      ∙ ground arith;
  stored =
      find?-append_none (of_job job.id job.tenant_id) db.jobs _ (
        find?_of_any-false (λ (r : JobRow). r.id == job.id) (of_job job.id job.tenant_id) db.jobs
          (λ r h. rw h) fresh_id)
      ∙ ground arith;
  same_job = refl;
}

-- A request repeated with its key, by the same tenant for the same setup, returns the job of the
-- first request and changes nothing, whatever the second request's job, limits and times are.
pub reserve_training_job-again :
    (job job' : Job) (setup key max_active max_daily now at : ℕ)
    (max_active' max_daily' now' at' : ℕ) (j : Job) (created : Bool) (db db' : Database)
    → job'.tenant_id ≡ job.tenant_id
    → reserve_training_job job setup key max_active max_daily now at db ≡ (ok (j, created), db')
    → reserve_training_job job' setup key max_active' max_daily' now' at' db' ≡ (ok (j, false), db')
unfolding reserve_training_job
reserve_training_job-again job job' setup key max_active max_daily now at max_active' max_daily'
      now' at' j created db db' t h =
    elim (reserve_cases job setup key max_active max_daily now at j created db db' h) [
      | inl (recorded, _, same) ↦ rw same (
          replay-Recorded job' setup key max_active' max_daily' now' at' job.tenant_id j db recorded
            t)
      | inr (one, _, after, fresh_id, fresh_key, _, _) ↦
          rw (after, one)
            (replay-Recorded job' setup key max_active' max_daily' now' at' job.tenant_id job _
              (after_start-Recorded job setup key at db fresh_id fresh_key) t)
    ]
