-- ===== src/Store/Preparations/Reuse.antt =====
-- `reserve_preparation`: when an attempt is reused, and when a new one is made.
use nebius_serverless_challe.Prelude.{
  ℕ, ◌<◌, ◌≡◌, refl, sym, ap, ◌∙◌, ◌≢◌, ◌⊎◌, inl, inr, Bool, true, false, ◌&&◌, Option, none, some,
  List, [], ◌∷◌, ◌++◌, arith, Bool-cases, Option-cases, select, find?, count_if, any, select-append,
  any_of_found, any-select,
}
use nebius_serverless_challe.Models.{PreparationAttempt, PreparationState, is_reusable}
use nebius_serverless_challe.Store.Database.{Database, AttemptRow}
use nebius_serverless_challe.Store.Monad.{ok, err, StoreError}
use nebius_serverless_challe.Store.Preparations.{
  newest_first, first_row, load_attempt, of_fingerprint, is_accepted, active_of_tenant,
  accepted_preparation, attempt_row, attempt_conflict, reserve_preparation,
}
use nebius_serverless_challe.Store.Preparations.Newest.{
  find?-newest_first-append, any-newest_first, NewestOf, accepted_preparation-NewestOf,
}

abbrev pub reusable_row : AttemptRow → Bool
reusable_row r = is_reusable r.attempt.state

-- The rows of an attempt's fingerprint, the newest first.
abbrev pub existing : PreparationAttempt → Database → List AttemptRow
existing a db =
    newest_first
      (select (of_fingerprint a.tenant_id a.setup_id a.fingerprint) db.preparation_attempts)

abbrev pub after_insert : PreparationAttempt → ℕ → Database → Database
after_insert a now db = record db {
  preparation_attempts = db.preparation_attempts ++ attempt_row a now ∷ [];
}

module _ (a : PreparationAttempt) (max_active : ℕ) (retry : Bool) (now : ℕ) where
  -- The newest attempt that is under way or accepted is returned, and nothing changes.
  abbrev pub Reused : PreparationAttempt → Bool → Database → Database → Type 0
  Reused b created db db' =
      (r : AttemptRow) × (find? reusable_row (existing a db) ≡ some r)
      × (b ≡ load_attempt r)
      × (created ≡ false)
      × (db' ≡ db)

  -- Every attempt has failed: without `retry` the newest is returned, and nothing changes.
  abbrev pub Kept : PreparationAttempt → Bool → Database → Database → Type 0
  Kept b created db db' =
      (find? reusable_row (existing a db) ≡ none)
      × (first_row (existing a db) ≡ some b)
      × (retry ≡ false)
      × (created ≡ false)
      × (db' ≡ db)

  -- A new attempt is stored, within the tenant's limit.
  abbrev pub Inserted : PreparationAttempt → Bool → Database → Database → Type 0
  Inserted b created db db' =
      (find? reusable_row (existing a db) ≡ none)
      × (b ≡ a)
      × (created ≡ true)
      × (db' ≡ after_insert a now db)
      × (count_if (active_of_tenant a.tenant_id) db.preparation_attempts < max_active)
      × (attempt_conflict (attempt_row a now) db.preparation_attempts ≡ false)

  fresh_cases :
      (rows : List AttemptRow) (b : PreparationAttempt) (created : Bool) (db db' : Database)
      → existing a db ≡ rows
      → find? reusable_row (existing a db) ≡ none
      → reserve_preparation a max_active retry now db ≡ (ok (b, created), db')
      → Reused b created db db' ⊎ Kept b created db db' ⊎ Inserted b created db db'
  unfolding reserve_preparation
  fresh_cases [] b created db db' e new h = inr (inr (ground arith))
  fresh_cases (r ∷ rows) b created db db' e new h = elim (Bool-cases retry) [
    | inl again ↦ inr (inr (ground arith))
    | inr once ↦ inr (inl (ground arith))
  ]

  pub reserve_cases :
      (b : PreparationAttempt) (created : Bool) (db db' : Database)
      → reserve_preparation a max_active retry now db ≡ (ok (b, created), db')
      → Reused b created db db' ⊎ Kept b created db db' ⊎ Inserted b created db db'
  unfolding reserve_preparation
  reserve_cases b created db db' h = elim (Option-cases (find? reusable_row (existing a db))) [
    | inr (r, found) ↦ inl (r, found, ground arith, ground arith, ground arith)
    | inl new ↦ fresh_cases (existing a db) b created db db' refl new h
  ]

  reuse_found :
      (r : AttemptRow) (db : Database)
      → find? reusable_row (existing a db) ≡ some r
      → reserve_preparation a max_active retry now db ≡ (ok (load_attempt r, false), db)
  unfolding reserve_preparation
  reuse_found r db h = ground (arith, h)

  pub reserve_preparation_error :
      (e : StoreError) (db : Database)
      → (reserve_preparation a max_active retry now db).0 ≡ err e
      → (reserve_preparation a max_active retry now db).1 ≡ db
  unfolding reserve_preparation
  reserve_preparation_error e db h = ground arith

abbrev pub SameSubject : PreparationAttempt → PreparationAttempt → Type 0
SameSubject a a' =
    (a'.tenant_id ≡ a.tenant_id) × (a'.setup_id ≡ a.setup_id) × (a'.fingerprint ≡ a.fingerprint)

existing_same :
    (a a' : PreparationAttempt) (db : Database) → SameSubject a a' → existing a' db ≡ existing a db
existing_same a a' db (t, s, f) = rw (t, s, f)

-- After an insertion the new row is the reusable one.
found_after_insert :
    (a : PreparationAttempt) (now : ℕ) (db : Database)
    → find? reusable_row (existing a db) ≡ none
    → is_reusable a.state ≡ true
    → find? reusable_row (existing a (after_insert a now db)) ≡ some (attempt_row a now)
found_after_insert a now db none_before live =
    rw (select-append mine db.preparation_attempts (attempt_row a now ∷ []), own)
      (find?-newest_first-append reusable_row (select mine db.preparation_attempts)
        (attempt_row a now) none_before live)
  where
    mine : AttemptRow → Bool
    mine = of_fingerprint a.tenant_id a.setup_id a.fingerprint

    own : select mine (attempt_row a now ∷ []) ≡ attempt_row a now ∷ []
    own = ground arith

-- Where no attempt can be reused, the newest one cannot.
failed_first :
    (b : PreparationAttempt) (rows : List AttemptRow)
    → find? reusable_row rows ≡ none
    → first_row rows ≡ some b
    → is_reusable b.state ≢ true
failed_first b [] n f live = cc
failed_first b (r ∷ rows) n f live = ground arith

accepted_exists :
    (a : PreparationAttempt) (db : Database)
    → any
        (λ r. of_fingerprint a.tenant_id a.setup_id a.fingerprint r && is_accepted r.attempt.state)
        db.preparation_attempts
      ≡ true
    → (c : PreparationAttempt) × (accepted_preparation a.tenant_id a.setup_id a.fingerprint db
        ≡ some c)
accepted_exists a db h =
    go (accepted_preparation a.tenant_id a.setup_id a.fingerprint db)
      (accepted_preparation-NewestOf a.tenant_id a.setup_id a.fingerprint db)
  where
    go :
        (o : Option PreparationAttempt)
        → NewestOf
            (λ r.
              of_fingerprint a.tenant_id a.setup_id a.fingerprint r && is_accepted r.attempt.state)
            db.preparation_attempts
            o
        → (c : PreparationAttempt) × (o ≡ some c)
    go none k = absurd (cc (sym h ∙ k))
    go (some c) k = (c, refl)

-- A preparation that is queued, under way or accepted is not prepared again: a second request for
-- the same tenant, setup and fingerprint, with any limits and also as a retry, returns the same
-- attempt and changes nothing.
pub reserve_preparation-again :
    (a a' : PreparationAttempt) (max_active max_active' : ℕ) (retry retry' : Bool) (now now' : ℕ)
    (b : PreparationAttempt) (created : Bool) (db db' : Database)
    → SameSubject a a'
    → reserve_preparation a max_active retry now db ≡ (ok (b, created), db')
    → is_reusable b.state ≡ true
    → reserve_preparation a' max_active' retry' now' db' ≡ (ok (b, false), db')
reserve_preparation-again a a' max_active max_active' retry retry' now now' b created db db' s h
      live =
    elim (reserve_cases a max_active retry now b created db db' h) [
      | inl (r, found, loaded, _, same) ↦
          rw (same, loaded)
            (reuse_found a' max_active' retry' now' r db
              (ap (find? reusable_row) (existing_same a a' db s) ∙ found))
      | inr (inl (no_live, first, _, _, _)) ↦
          absurd (failed_first b (existing a db) no_live first live)
      | inr (inr (no_live, mine, _, after, _, _)) ↦
          let live' : is_reusable a.state ≡ true = ground arith in
          rw (after, mine)
            (reuse_found a' max_active' retry' now' (attempt_row a now) _ (
              ap (find? reusable_row) (existing_same a a' (after_insert a now db) s)
              ∙ found_after_insert a now db no_live live'))
    ]

-- When a request returns an accepted attempt, a start that asks for the accepted preparation of the
-- same fingerprint finds one, whether or not that attempt is the latest of its setup.
pub reserve_preparation-accepted :
    (a : PreparationAttempt) (max_active : ℕ) (retry : Bool) (now : ℕ) (b : PreparationAttempt)
    (db db' : Database)
    → reserve_preparation a max_active retry now db ≡ (ok (b, false), db')
    → b.state ≡ PreparationState.accepted
    → (c : PreparationAttempt) × (accepted_preparation a.tenant_id a.setup_id a.fingerprint db'
        ≡ some c)
reserve_preparation-accepted a max_active retry now b db db' h acc =
    elim (reserve_cases a max_active retry now b false db db' h) [
      | inl (r, found, loaded, _, same) ↦
          let accepted_found : is_accepted r.attempt.state ≡ true = ground arith in
          let stored =
            any_of_found reusable_row (λ (x : AttemptRow). is_accepted x.attempt.state)
              (existing a db) r found accepted_found in
          rw same (
            accepted_exists a db (
              sym (
                any-select mine (λ (x : AttemptRow). is_accepted x.attempt.state)
                  db.preparation_attempts)
              ∙ sym (any-newest_first _ (select mine db.preparation_attempts))
              ∙ stored))
      | inr (inl (no_live, first, _, _, _)) ↦
          absurd (failed_first b (existing a db) no_live first (ground arith))
      | inr (inr (_, _, made, _, _, _)) ↦ absurd (ground arith)
    ]
  where
    mine : AttemptRow → Bool
    mine = of_fingerprint a.tenant_id a.setup_id a.fingerprint
