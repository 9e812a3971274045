-- ===== src/Store/Preparations.antt =====
-- `class CustomTrainingStore` of saas/backend/app/store.py: the preparation attempts. Its start
-- reservations are in Starts.antt.
pub mod Newest
pub mod Reuse
pub mod Invariant
pub mod Updates
use nebius_serverless_challe.Prelude.{
  ℕ, ◌+◌, Text, empty, Bool, true, false, not, ◌&&◌, ◌||◌, Option, none, some, List, [], ◌∷◌, ◌++◌,
  map, leb, ◌==◌, if◌then◌else◌, select, find?, count_if, any, update_where,
}
use nebius_serverless_challe.Models.{PreparationAttempt, PreparationState, is_active, is_reusable}
use nebius_serverless_challe.Store.Database.{Database, AttemptRow}
use nebius_serverless_challe.Store.Monad.{
  ◌>>=◌, ◌>>◌, Quota, StoreError, Action, pure, gets, transaction, raise_if, modify,
}

-- `tenant_id` is left out of the stored JSON, and every private authority is put in.
abbrev pub attempt_json : PreparationAttempt → PreparationAttempt
attempt_json attempt = record attempt { tenant_id = empty }

-- `_attempt`: the tenant comes back from its column.
abbrev pub load_attempt : AttemptRow → PreparationAttempt
load_attempt row = let stored = row.attempt in record stored { tenant_id = row.tenant_id }

-- `ORDER BY created_at DESC, rowid DESC`: a later row stands before the earlier ones that are no
-- younger.
abbrev pub insert_newest : AttemptRow → List AttemptRow → List AttemptRow
insert_newest r [] = r ∷ []
insert_newest r (x ∷ xs) =
    if leb x.created_at r.created_at then r ∷ x ∷ xs else x ∷ insert_newest r xs

pub newest_onto : List AttemptRow → List AttemptRow → List AttemptRow
newest_onto sorted [] = sorted
newest_onto sorted (r ∷ rows) = newest_onto (insert_newest r sorted) rows

pub newest_first : List AttemptRow → List AttemptRow
unfolding newest_onto
newest_first rows = newest_onto [] rows

-- `LIMIT 1`
abbrev pub first_row : List AttemptRow → Option PreparationAttempt
first_row [] = none
first_row (r ∷ _) = some (load_attempt r)

abbrev pub of_setup : Text → Text → AttemptRow → Bool
of_setup tenant_id setup_id r = r.tenant_id == tenant_id && r.setup_id == setup_id

abbrev pub of_fingerprint : Text → Text → Text → AttemptRow → Bool
of_fingerprint tenant_id setup_id fingerprint r =
    of_setup tenant_id setup_id r && r.fingerprint == fingerprint

abbrev pub is_accepted : PreparationState → Bool
is_accepted PreparationState.accepted = true
is_accepted _ = false

unfoldable pub latest_preparation : Text → Text → Database → Option PreparationAttempt
unfolding newest_first
latest_preparation tenant_id setup_id db =
    first_row (newest_first (select (of_setup tenant_id setup_id) db.preparation_attempts))

-- `json_extract(data, '$.state') = 'accepted'` reads the stored object, not the column.
unfoldable pub accepted_preparation : Text → Text → Text → Database → Option PreparationAttempt
unfolding newest_first
accepted_preparation tenant_id setup_id fingerprint db = first_row (
    newest_first (
      select (λ r. of_fingerprint tenant_id setup_id fingerprint r && is_accepted r.attempt.state)
        db.preparation_attempts))

abbrev pub of_id : Text → Text → AttemptRow → Bool
of_id tenant_id preparation_id r = r.tenant_id == tenant_id && r.id == preparation_id

abbrev pub load_found : Option AttemptRow → Option PreparationAttempt
load_found none = none
load_found (some row) = some (load_attempt row)

unfoldable pub get_preparation : Text → Text → Database → Option PreparationAttempt
get_preparation tenant_id preparation_id db =
    load_found (find? (of_id tenant_id preparation_id) db.preparation_attempts)

unfoldable pub list_active_preparations : Database → List PreparationAttempt
list_active_preparations db =
    map load_attempt (select (λ (r : AttemptRow). is_active r.state) db.preparation_attempts)

abbrev pub attempt_row : PreparationAttempt → ℕ → AttemptRow
attempt_row attempt now = record {
  id = attempt.id;
  tenant_id = attempt.tenant_id;
  setup_id = attempt.setup_id;
  robot_id = attempt.robot_id;
  fingerprint = attempt.fingerprint;
  state = attempt.state;
  attempt = attempt_json attempt;
  created_at = now;
}

abbrev pub active_of_tenant : Text → AttemptRow → Bool
active_of_tenant tenant_id r = r.tenant_id == tenant_id && is_active r.state

-- The primary key, and the unique index `preparation_attempts_active_fingerprint`.
abbrev pub attempt_conflict : AttemptRow → List AttemptRow → Bool
attempt_conflict new rows =
    any (λ (r : AttemptRow). r.id == new.id) rows
    || is_active new.state
      && any (λ r. of_fingerprint new.tenant_id new.setup_id new.fingerprint r && is_active r.state)
          rows

abbrev pub insert_attempt : AttemptRow → Action (Unit {0})
insert_attempt new = do
  rows ← gets (λ db. db.preparation_attempts)
  raise_if (attempt_conflict new rows) StoreError.integrity_error
  modify (λ db. record db { preparation_attempts = db.preparation_attempts ++ new ∷ [] })

-- the tail of `reserve_preparation`, where no attempt is reused
insert_reservation : PreparationAttempt → ℕ → ℕ → Action (PreparationAttempt × Bool)
insert_reservation attempt max_active_per_tenant now = do
  active ← gets (λ db. count_if (active_of_tenant attempt.tenant_id) db.preparation_attempts)
  raise_if (leb max_active_per_tenant active)
      (StoreError.quota_exceeded Quota.active_preparations max_active_per_tenant)
  insert_attempt (attempt_row attempt now)
  pure (attempt, true)

-- `existing and not retry`
decide_reservation :
    List AttemptRow → PreparationAttempt → ℕ → Bool → ℕ → Action (PreparationAttempt × Bool)
unfolding insert_reservation
decide_reservation [] attempt max_active retry now = insert_reservation attempt max_active now
decide_reservation (r ∷ _) attempt max_active retry now =
    if retry then insert_reservation attempt max_active now else pure (load_attempt r, false)

unfoldable pub reserve_preparation :
    PreparationAttempt → ℕ → Bool → ℕ → Action (PreparationAttempt × Bool)
unfolding decide_reservation newest_first
reserve_preparation attempt max_active_per_tenant retry now = transaction (do
  rows ← gets (λ db. newest_first (
      select (of_fingerprint attempt.tenant_id attempt.setup_id attempt.fingerprint)
        db.preparation_attempts))
  elim (find? (λ (r : AttemptRow). is_reusable r.attempt.state) rows) [
    | some r ↦ pure (load_attempt r, false)
    | none ↦ decide_reservation rows attempt max_active_per_tenant retry now
  ])

abbrev pub set_attempt : PreparationAttempt → AttemptRow → AttemptRow
set_attempt attempt r = record r { state = attempt.state; attempt = attempt_json attempt }

-- The state after the `UPDATE` violates `preparation_attempts_active_fingerprint` if another row of
-- the fingerprint is active.
abbrev pub update_conflict : PreparationAttempt → List AttemptRow → Bool
update_conflict attempt rows =
    is_active attempt.state
    && any
        (λ r.
          of_id attempt.tenant_id attempt.id r
          && any
              (λ (o : AttemptRow).
                not (o.id == r.id)
                && of_fingerprint r.tenant_id r.setup_id r.fingerprint o
                && is_active o.state)
              rows)
        rows

unfoldable pub put_preparation : PreparationAttempt → Action (Unit {0})
put_preparation attempt = do
  rows ← gets (λ db. db.preparation_attempts)
  raise_if (update_conflict attempt rows) StoreError.integrity_error
  modify (λ db. record db {
    preparation_attempts =
        update_where (of_id attempt.tenant_id attempt.id) (set_attempt attempt)
          db.preparation_attempts;
  })
  raise_if (not (count_if (of_id attempt.tenant_id attempt.id) rows == 1)) StoreError.key_error
