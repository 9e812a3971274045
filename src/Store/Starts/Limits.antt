-- ===== src/Store/Starts/Limits.antt =====
-- The limits and the references that every reservation of a start keeps.
use nebius_serverless_challe.Prelude.{
  ℕ, ◌≤◌, ◌<◌, Text, ◌≡◌, refl, ◌≢◌, ◌↔◌, inl, inr, true, false, none, List, [], ◌∷◌, ◌++◌, arith,
  ◌==◌, Bool-cases, Option-cases, All, find?, count_if, any, count_if-append, find?_sound,
  All-find?, any-append, find?_of_any, count_if_of_any-false, any_of_find?-none,
}
use nebius_serverless_challe.Models.{Job}
use nebius_serverless_challe.Store.Database.{Database, JobRow, RequestRow}
use nebius_serverless_challe.Store.Monad.{ok, err, StoreError}
use nebius_serverless_challe.Store.Starts.{
  of_key, of_job, active_custom, started_since, reserve_training_job,
}
use nebius_serverless_challe.Store.Starts.Idempotence.{
  request_row, started_row, after_start, Started, reserve_state,
}

-- Every request names a stored job of its own tenant, a key is used once, and no tenant has more
-- custom jobs under way than the limit.
pub record IsStartState (max_active : ℕ) (db : Database) : Type 0 where
  pub linked :
      All
        (λ (r : RequestRow). any (of_job r.job_id r.tenant_id) db.jobs ≡ true)
        db.custom_training_requests
  pub unique_keys : (t s k : Text) → count_if (of_key t s k) db.custom_training_requests ≤ 1
  pub bounded : (t : Text) → count_if (active_custom t) db.jobs ≤ max_active

module _ (job : Job) (setup key at : ℕ) (db : Database) where
  started_linked :
      (rows : List RequestRow)
      → All (λ (r : RequestRow). any (of_job r.job_id r.tenant_id) db.jobs ≡ true) rows
      → All
          (λ (r : RequestRow).
            any (of_job r.job_id r.tenant_id) (db.jobs ++ started_row job ∷ []) ≡ true)
          (rows ++ request_row job setup key at ∷ [])
  started_linked [] h =
      (ground (arith, any-append (of_job job.id job.tenant_id) db.jobs (started_row job ∷ [])), tt)
  started_linked (r ∷ rows) h = (
    ground (arith, h.0, any-append (of_job r.job_id r.tenant_id) db.jobs (started_row job ∷ [])),
    started_linked rows h.1,
  )

  Started-IsStartState :
      (max_active max_daily now : ℕ)
      → Started job setup key max_active max_daily now at job true db
          (after_start job setup key at db)
      → IsStartState max_active db
      → IsStartState max_active (after_start job setup key at db)
  Started-IsStartState max_active max_daily now (_, _, _, fresh_id, fresh_key, room, _) h = record {
    linked = started_linked db.custom_training_requests h.linked;
    unique_keys = λ t s k. elim (Bool-cases (of_key t s k (request_row job setup key at))) [
      | inl same ↦ ground (
        arith,
        count_if-append (of_key t s k) db.custom_training_requests
            (request_row job setup key at ∷ []),
        count_if_of_any-false (of_key job.tenant_id setup key) (of_key t s k)
            db.custom_training_requests (λ r e. ground arith) fresh_key,
      )
      | inr other ↦ ground (
        arith,
        h.unique_keys t s k,
        count_if-append (of_key t s k) db.custom_training_requests
            (request_row job setup key at ∷ []),
      )
    ];
    bounded = λ t.
        ground
          (arith, h.bounded t, count_if-append (active_custom t) db.jobs (started_row job ∷ []));
  }

-- Every reservation, whether it starts, replays or is refused, keeps the references, the keys and
-- the limit on active jobs.
pub reserve_training_job-IsStartState :
    (job : Job) (setup key max_active max_daily now at : ℕ) (db : Database)
    → IsStartState max_active db
    → IsStartState max_active (reserve_training_job job setup key max_active max_daily now at db).1
reserve_training_job-IsStartState job setup key max_active max_daily now at db h =
    elim (reserve_state job setup key max_active max_daily now at db) [
      | inl same ↦ rw same h
      | inr s ↦
          let (e0, e1, after, id, k, a, d) = s in
          rw after (
            Started-IsStartState job setup key at db max_active max_daily now
              (refl, refl, refl, id, k, a, d) h)
    ]

-- While the references hold, a repeated key never meets a reservation without a job.
pub reserve_training_job-ne-runtime_error :
    (job : Job) (setup key max_active max_daily now at : ℕ) (db : Database)
    → IsStartState max_active db
    → (reserve_training_job job setup key max_active max_daily now at db).0
      ≢ err StoreError.runtime_error
unfolding reserve_training_job
reserve_training_job-ne-runtime_error job setup key max_active max_daily now at db h e =
    elim (Option-cases (find? (of_key job.tenant_id setup key) db.custom_training_requests)) [
      | inl new ↦ ground arith
      | inr (r, found) ↦
          let linked =
            All-find? (λ (r : RequestRow). any (of_job r.job_id r.tenant_id) db.jobs ≡ true)
              (of_key job.tenant_id setup key) db.custom_training_requests r h.linked found in
          let own =
            find?_sound (of_key job.tenant_id setup key) db.custom_training_requests r found in
          let (row, stored) = find?_of_any (of_job r.job_id r.tenant_id) db.jobs linked in
          ground arith
    ]

-- A start happens exactly for a new key and a new job identity, within both limits; the day's
-- limit counts the starts of the last 24 hours.
pub reserve_training_job_created :
    (job : Job) (setup key max_active max_daily now at : ℕ) (db : Database)
    → ((reserve_training_job job setup key max_active max_daily now at db).0 ≡ ok (job, true)) ↔ (
        (find? (of_key job.tenant_id setup key) db.custom_training_requests ≡ none)
        × (any (λ (r : JobRow). r.id == job.id) db.jobs ≡ false)
        × (count_if (active_custom job.tenant_id) db.jobs < max_active)
        × (count_if (started_since job.tenant_id now) db.custom_training_requests < max_daily))
unfolding reserve_training_job
reserve_training_job_created job setup key max_active max_daily now at db = (
  λ h. ground arith,
  λ h.
      ground
        (arith, any_of_find?-none (of_key job.tenant_id setup key) db.custom_training_requests h.0),
)
