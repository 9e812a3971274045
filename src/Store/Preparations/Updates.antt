-- ===== src/Store/Preparations/Updates.antt =====
-- `put_preparation`: what a poll of the remote job writes into an attempt.
use nebius_serverless_challe.Prelude.{
  ◌≤◌, Text, ◌≡◌, refl, ap, ◌∙◌, ◌≢◌, ◌⊎◌, inl, inr, Bool, ◌&&◌, some, List, [], ◌∷◌, arith, ◌==◌,
  if◌then◌else◌, find?, count_if, any, update_where, any_of_count_if, count_if_mono,
}
use nebius_serverless_challe.Models.{PreparationAttempt}
use nebius_serverless_challe.Store.Database.{Database, AttemptRow}
use nebius_serverless_challe.Store.Monad.{ok, err, StoreError}
use nebius_serverless_challe.Store.Preparations.{
  of_id, set_attempt, load_found, put_preparation, get_preparation,
}

find?-update :
    (t i : Text) (a : PreparationAttempt) (rows : List AttemptRow)
    → load_found (find? (of_id t i) (update_where (of_id a.tenant_id a.id) (set_attempt a) rows))
      ≡ (if (a.tenant_id == t && a.id == i) && any (of_id t i) rows
          then some a
          else load_found (find? (of_id t i) rows))
find?-update t i a [] = ground arith
find?-update t i a (r ∷ rows) = ground (arith, find?-update t i a rows)

abbrev updated : PreparationAttempt → Database → Database
updated a db = record db {
  preparation_attempts =
      update_where (of_id a.tenant_id a.id) (set_attempt a) db.preparation_attempts;
}

put_preparation_ok :
    (a : PreparationAttempt) (db : Database)
    → (put_preparation a db).0 ≡ ok tt
    → ((put_preparation a db).1 ≡ updated a db)
      × (count_if (of_id a.tenant_id a.id) db.preparation_attempts ≡ 1)
unfolding put_preparation
put_preparation_ok a db h = ground arith

put_preparation_err :
    (a : PreparationAttempt) (e : StoreError) (db : Database)
    → (put_preparation a db).0 ≡ err e
    → ((put_preparation a db).1 ≡ db)
      ⊎ (((put_preparation a db).1 ≡ updated a db)
          × (count_if (of_id a.tenant_id a.id) db.preparation_attempts ≢ 1))
unfolding put_preparation
put_preparation_err a e db h = ground arith

-- After an update that returns, the attempt reads back as it was written, to its own tenant and
-- under its own id; every other lookup reads as before.
pub get_preparation-put_preparation :
    (t i : Text) (a : PreparationAttempt) (db : Database)
    → (put_preparation a db).0 ≡ ok tt
    → get_preparation t i (put_preparation a db).1
      ≡ (if a.tenant_id == t && a.id == i then some a else get_preparation t i db)
unfolding get_preparation
get_preparation-put_preparation t i a db h =
    let (after, one) = put_preparation_ok a db h in
    rw after (
      ground (
        arith,
        find?-update t i a db.preparation_attempts,
        any_of_count_if (of_id a.tenant_id a.id) db.preparation_attempts,
        one,
      ))

update_where_none :
    (p : AttemptRow → Bool) (f : AttemptRow → AttemptRow) (rows : List AttemptRow)
    → count_if p rows ≡ 0
    → update_where p f rows ≡ rows
update_where_none p f [] h = refl
update_where_none p f (r ∷ rows) h = ground (arith, update_where_none p f rows)

-- An update that raises changes nothing: there is no such attempt of the tenant, or another attempt
-- for the same fingerprint is under way.
pub put_preparation_error :
    (a : PreparationAttempt) (e : StoreError) (db : Database)
    → ((i : Text) → count_if (λ (r : AttemptRow). r.id == i) db.preparation_attempts ≤ 1)
    → (put_preparation a db).0 ≡ err e
    → (put_preparation a db).1 ≡ db
put_preparation_error a e db key h = elim (put_preparation_err a e db h) [
  | inl same ↦ same
  | inr (after, not_one) ↦
      let few =
        count_if_mono (λ (r : AttemptRow). r.id == a.id) (of_id a.tenant_id a.id)
          db.preparation_attempts (λ r n. ground arith) in
      after
      ∙ ap (λ rows. record db { preparation_attempts = rows })
          (update_where_none (of_id a.tenant_id a.id) (set_attempt a) db.preparation_attempts
            (omega (arith, key a.id, few)))
]
