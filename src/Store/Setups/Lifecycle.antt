-- ===== src/Store/Setups/Lifecycle.antt =====
-- Setups are created once for each content, within the quota.
use nebius_serverless_challe.Prelude.{
  ℕ, ◌≤◌, ◌<◌, Text, ◌≡◌, refl, sym, ap, ◌∙◌, ◌⊎◌, inl, inr, Bool, true, false, some, List, [], ◌∷◌,
  ◌++◌, arith, ◌==◌, Bool-cases, Option-cases, find?, count_if, update_where, count_if-append,
  find?-append_none, find?_of_any-false, count_if_of_any-false,
}
use nebius_serverless_challe.Models.{RobotSetup}
use nebius_serverless_challe.Store.Database.{Database, SetupRow}
use nebius_serverless_challe.Store.Monad.{Result, ok, err, StoreError}
use nebius_serverless_challe.Store.Setups.{
  setup_quota, load_setup, active_of_tenant, same_content, setup_row, setup_conflict, create_setup,
  owned, mark_deleted, delete_setup,
}

-- An id is used once, an active content once for each tenant, and no tenant has more active setups
-- than the quota.
pub record IsSetupTable (rows : List SetupRow) : Type 0 where
  pub primary_key : (i : Text) → count_if (λ (r : SetupRow). r.id == i) rows ≤ 1
  pub single : (t : Text) (d : Text) → count_if (same_content t d) rows ≤ 1
  pub bounded : (t : Text) → count_if (active_of_tenant t) rows ≤ setup_quota

abbrev pub after_create : RobotSetup → Database → Database
after_create setup db = record db { robot_setups = db.robot_setups ++ setup_row setup ∷ [] }

module _ (setup : RobotSetup) where
  -- The active setup of the same content is returned, and nothing changes.
  abbrev Found : RobotSetup → Bool → Database → Database → Type 0
  Found b created db db' =
      (r : SetupRow) × (find? (same_content setup.tenant_id setup.digest) db.robot_setups ≡ some r)
      × (b ≡ load_setup r)
      × (created ≡ false)
      × (db' ≡ db)

  abbrev Created : RobotSetup → Bool → Database → Database → Type 0
  Created b created db db' =
      (b ≡ setup)
      × (created ≡ true)
      × (db' ≡ after_create setup db)
      × (count_if (active_of_tenant setup.tenant_id) db.robot_setups < setup_quota)
      × (setup_conflict setup db.robot_setups ≡ false)

  create_cases :
      (b : RobotSetup) (created : Bool) (db db' : Database)
      → create_setup setup db ≡ (ok (b, created), db')
      → Found b created db db' ⊎ Created b created db db'
  unfolding create_setup
  create_cases b created db db' h =
      elim (Option-cases (find? (same_content setup.tenant_id setup.digest) db.robot_setups)) [
        | inl new ↦ inr (ground arith)
        | inr (r, found) ↦ inl (r, found, ground arith, ground arith, ground arith)
      ]

  create_setup_error :
      (e : StoreError) (db : Database)
      → (create_setup setup db).0 ≡ err e
      → (create_setup setup db).1 ≡ db
  unfolding create_setup
  create_setup_error e db h = ground arith

  found_again :
      (r : SetupRow) (db : Database)
      → find? (same_content setup.tenant_id setup.digest) db.robot_setups ≡ some r
      → create_setup setup db ≡ (ok (load_setup r, false), db)
  unfolding create_setup
  found_again r db h = ground arith

-- A setup of the same content, saved again by the same tenant, is the same setup: the second call
-- returns it and changes nothing.
pub create_setup-again :
    (setup setup' : RobotSetup) (b : RobotSetup) (created : Bool) (db db' : Database)
    → setup'.tenant_id ≡ setup.tenant_id
    → setup'.digest ≡ setup.digest
    → create_setup setup db ≡ (ok (b, created), db')
    → create_setup setup' db' ≡ (ok (b, false), db')
create_setup-again setup setup' b created db db' t d h =
    elim (create_cases setup b created db db' h) [
      | inl (r, found, loaded, _, same) ↦
          rw (same, loaded) (found_again setup' r db (rw (t, d) found))
      | inr (mine, _, after, _, fresh) ↦
          rw (after, mine)
            (found_again setup' (setup_row setup) _ (
              rw (t, d)
                (find?-append_none (same_content setup.tenant_id setup.digest) db.robot_setups _ (
                    find?_of_any-false _ (same_content setup.tenant_id setup.digest) db.robot_setups
                      (λ r e. e) (ground arith))
                  ∙ ground arith)))
    ]

module _ (setup : RobotSetup) (rows : List SetupRow) where
  insert_single :
      (t : Text) (d : Text)
      → setup_conflict setup rows ≡ false
      → count_if (same_content t d) rows ≤ 1
      → count_if (same_content t d) (rows ++ setup_row setup ∷ []) ≤ 1
  insert_single t d fresh h = elim (Bool-cases (same_content t d (setup_row setup))) [
    | inl same ↦ ground (
      arith,
      count_if-append (same_content t d) rows (setup_row setup ∷ []),
      count_if_of_any-false (same_content setup.tenant_id setup.digest) (same_content t d) rows
          (λ r e. ground arith) (ground arith),
    )
    | inr other ↦ ground (arith, count_if-append (same_content t d) rows (setup_row setup ∷ []))
  ]

insert-IsSetupTable :
    (setup : RobotSetup) (rows : List SetupRow)
    → setup_conflict setup rows ≡ false
    → count_if (active_of_tenant setup.tenant_id) rows < setup_quota
    → IsSetupTable rows
    → IsSetupTable (rows ++ setup_row setup ∷ [])
insert-IsSetupTable setup rows fresh room h = record {
  primary_key = λ i. ground (
    arith,
    h.primary_key i,
    count_if-append (λ (r : SetupRow). r.id == i) rows (setup_row setup ∷ []),
    count_if_of_any-false (λ (r : SetupRow). r.id == setup.id) (λ (r : SetupRow). r.id == setup.id)
        rows (λ r e. e) (ground arith),
  );
  single = λ t d. insert_single setup rows t d fresh (h.single t d);
  bounded = λ t.
      ground (arith, h.bounded t, count_if-append (active_of_tenant t) rows (setup_row setup ∷ []));
}

-- Every save, whether it creates, finds or is refused, keeps the table well formed and the tenant
-- within the quota.
pub create_setup-IsSetupTable :
    (setup : RobotSetup) (db : Database)
    → IsSetupTable db.robot_setups
    → IsSetupTable (create_setup setup db).1.robot_setups
create_setup-IsSetupTable setup db h = go (create_setup setup db) refl
  where
    go :
        (out : Result (RobotSetup × Bool) × Database)
        → create_setup setup db ≡ out
        → IsSetupTable out.1.robot_setups
    go (ok (b, created), db') e = elim (create_cases setup b created db db' e) [
      | inl (r, _, _, _, same) ↦ rw same h
      | inr (_, _, after, room, fresh) ↦
          rw after (insert-IsSetupTable setup db.robot_setups fresh room h)
    ]
    go (err x, db') e =
        let same = create_setup_error setup x db (ap (λ o. o.0) e) in
        rw (sym (ap (λ o. o.1) e) ∙ same) h

module _ (p : SetupRow → Bool) (now : ℕ) where
  -- A deletion leaves the columns of the keys alone, and deactivates.
  count_if-mark-le :
      (q : SetupRow → Bool) (rows : List SetupRow)
      → ((r : SetupRow) → q (mark_deleted now r) ≡ true → q r ≡ true)
      → count_if q (update_where p (mark_deleted now) rows) ≤ count_if q rows
  count_if-mark-le q [] d = omega arith
  count_if-mark-le q (r ∷ rows) d = ground (arith, d r, count_if-mark-le q rows d)

-- A deletion keeps the table well formed and the tenant within the quota.
pub delete_setup-IsSetupTable :
    (tenant i : Text) (now : ℕ) (db : Database)
    → IsSetupTable db.robot_setups
    → IsSetupTable (delete_setup tenant i now db).1.robot_setups
unfolding delete_setup
delete_setup-IsSetupTable tenant i now db h = record {
  primary_key = λ j. omega (
    arith,
    h.primary_key j,
    count_if-mark-le (owned tenant i false) now (λ (r : SetupRow). r.id == j) db.robot_setups
        (λ r e. e),
  );
  single = λ t d. omega (
    arith,
    h.single t d,
    count_if-mark-le (owned tenant i false) now (same_content t d) db.robot_setups
        (λ r e. ground arith),
  );
  bounded = λ t. omega (
    arith,
    h.bounded t,
    count_if-mark-le (owned tenant i false) now (active_of_tenant t) db.robot_setups
        (λ r e. ground arith),
  );
}
