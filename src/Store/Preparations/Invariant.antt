-- ===== src/Store/Preparations/Invariant.antt =====
-- The table of attempts between two reservations, and the tenant's limit.
use nebius_serverless_challe.Prelude.{
  ℕ, ◌≤◌, ◌<◌, Text, ◌≡◌, refl, sym, ap, ◌∙◌, inl, inr, Bool, false, ◌&&◌, List, [], ◌∷◌, ◌++◌,
  arith, ◌==◌, Bool-cases, All, All-append, count_if, any, count_if-append, count_if_of_any-false,
}
use nebius_serverless_challe.Models.{PreparationAttempt, is_active}
use nebius_serverless_challe.Store.Database.{Database, AttemptRow}
use nebius_serverless_challe.Store.Monad.{Result, ok, err}
use nebius_serverless_challe.Store.Preparations.{
  of_fingerprint, active_of_tenant, attempt_row, attempt_conflict, reserve_preparation,
}
use nebius_serverless_challe.Store.Preparations.Reuse.{reserve_cases, reserve_preparation_error}

-- The columns of a row repeat the stored attempt, but for the tenant, which the JSON leaves out.
abbrev pub IsConsistent : AttemptRow → Type 0
IsConsistent r =
    (r.id ≡ r.attempt.id)
    × (r.setup_id ≡ r.attempt.setup_id)
    × (r.fingerprint ≡ r.attempt.fingerprint)
    × (r.state ≡ r.attempt.state)

-- Rows are consistent, an id is used once, one attempt at most is under way for each setup and
-- fingerprint of a tenant, and no tenant has more attempts under way than the limit.
pub record IsAttemptTable (max_active : ℕ) (rows : List AttemptRow) : Type 0 where
  pub consistent : All IsConsistent rows
  pub primary_key : (i : Text) → count_if (λ (r : AttemptRow). r.id == i) rows ≤ 1
  pub single : (t s f : Text) → count_if (λ r. of_fingerprint t s f r && is_active r.state) rows ≤ 1
  pub bounded : (t : Text) → count_if (active_of_tenant t) rows ≤ max_active

module _ (a : PreparationAttempt) (now max_active : ℕ) (rows : List AttemptRow) where
  insert-primary_key :
      (i : Text)
      → any (λ (r : AttemptRow). r.id == a.id) rows ≡ false
      → count_if (λ (r : AttemptRow). r.id == i) rows ≤ 1
      → count_if (λ (r : AttemptRow). r.id == i) (rows ++ attempt_row a now ∷ []) ≤ 1
  insert-primary_key i fresh h = ground (
    arith,
    count_if-append (λ (r : AttemptRow). r.id == i) rows (attempt_row a now ∷ []),
    count_if_of_any-false (λ (r : AttemptRow). r.id == a.id) (λ (r : AttemptRow). r.id == a.id) rows
        (λ r e. e) fresh,
  )

  insert-single :
      (t s f : Text)
      → attempt_conflict (attempt_row a now) rows ≡ false
      → count_if (λ r. of_fingerprint t s f r && is_active r.state) rows ≤ 1
      → count_if (λ r. of_fingerprint t s f r && is_active r.state) (rows ++ attempt_row a now ∷ [])
        ≤ 1
  insert-single t s f fresh h =
      elim (Bool-cases (of_fingerprint t s f (attempt_row a now) && is_active a.state)) [
        | inl same ↦ ground (
          arith,
          count_if-append (λ r. of_fingerprint t s f r && is_active r.state) rows
              (attempt_row a now ∷ []),
          count_if_of_any-false
              (λ r. of_fingerprint a.tenant_id a.setup_id a.fingerprint r && is_active r.state)
              (λ r. of_fingerprint t s f r && is_active r.state) rows (λ r e. ground arith)
              (ground arith),
        )
        | inr other ↦ ground (
          arith,
          count_if-append (λ r. of_fingerprint t s f r && is_active r.state) rows
              (attempt_row a now ∷ []),
        )
      ]

  insert-IsAttemptTable :
      attempt_conflict (attempt_row a now) rows ≡ false
      → count_if (active_of_tenant a.tenant_id) rows < max_active
      → IsAttemptTable max_active rows
      → IsAttemptTable max_active (rows ++ attempt_row a now ∷ [])
  insert-IsAttemptTable fresh room h = record {
    consistent = All-append IsConsistent rows _ h.consistent ((refl, refl, refl, refl), tt);
    primary_key = λ i. insert-primary_key i (ground arith) (h.primary_key i);
    single = λ t s f. insert-single t s f fresh (h.single t s f);
    bounded = λ t.
        ground
          (arith, h.bounded t, count_if-append (active_of_tenant t) rows (attempt_row a now ∷ []));
  }

-- Every reservation, whether it inserts, reuses or is refused, keeps the table well formed and the
-- tenant's limit.
pub reserve_preparation-IsAttemptTable :
    (a : PreparationAttempt) (max_active : ℕ) (retry : Bool) (now : ℕ) (db : Database)
    → IsAttemptTable max_active db.preparation_attempts
    → IsAttemptTable max_active
        (reserve_preparation a max_active retry now db).1.preparation_attempts
reserve_preparation-IsAttemptTable a max_active retry now db h =
    go (reserve_preparation a max_active retry now db) refl
  where
    go :
        (out : Result (PreparationAttempt × Bool) × Database)
        → reserve_preparation a max_active retry now db ≡ out
        → IsAttemptTable max_active out.1.preparation_attempts
    go (ok (b, created), db') e = elim (reserve_cases a max_active retry now b created db db' e) [
      | inl (r, _, _, _, same) ↦ rw same h
      | inr (inl (_, _, _, _, same)) ↦ rw same h
      | inr (inr (_, _, _, after, room, fresh)) ↦
          rw after (insert-IsAttemptTable a now max_active db.preparation_attempts fresh room h)
    ]
    go (err x, db') e =
        let same = reserve_preparation_error a max_active retry now x db (ap (λ o. o.0) e) in
        rw (sym (ap (λ o. o.1) e) ∙ same) h
