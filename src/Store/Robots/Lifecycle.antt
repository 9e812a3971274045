-- ===== src/Store/Robots/Lifecycle.antt =====
-- Robots are created once for each content, within the quota.
use nebius_serverless_challe.Prelude.{
  ℕ, ◌≤◌, ◌<◌, Text, ◌≡◌, refl, sym, ap, ◌∙◌, ◌⊎◌, inl, inr, Bool, true, false, some, List, [], ◌∷◌,
  ◌++◌, arith, ◌==◌, Bool-cases, Option-cases, find?, count_if, update_where, count_if-append,
  find?-append_none, find?_of_any-false, count_if_of_any-false,
}
use nebius_serverless_challe.Models.{RobotAsset, RobotType}
use nebius_serverless_challe.Store.Database.{Database, RobotRow}
use nebius_serverless_challe.Store.Monad.{Result, ok, err, StoreError}
use nebius_serverless_challe.Store.Robots.{
  robot_quota, load_robot, active_of_tenant, same_content, robot_row, robot_conflict, create_robot,
  owned, mark_deleted, delete_robot,
}

-- An id is used once, an active content once for each tenant and robot type, and no tenant has more
-- active robots than the quota.
pub record IsRobotTable (rows : List RobotRow) : Type 0 where
  pub primary_key : (i : Text) → count_if (λ (r : RobotRow). r.id == i) rows ≤ 1
  pub single : (t : Text) (y : RobotType) (d : Text) → count_if (same_content t y d) rows ≤ 1
  pub bounded : (t : Text) → count_if (active_of_tenant t) rows ≤ robot_quota

abbrev pub after_create : RobotAsset → Text → Database → Database
after_create robot xml db = record db { robot_assets = db.robot_assets ++ robot_row robot xml ∷ [] }

module _ (robot : RobotAsset) (xml : Text) where
  -- The active robot of the same content is returned, and nothing changes.
  abbrev Found : RobotAsset → Bool → Database → Database → Type 0
  Found b created db db' =
      (r : RobotRow) × (find? (same_content robot.tenant_id robot.robot_type robot.digest)
          db.robot_assets
        ≡ some r)
      × (b ≡ load_robot r)
      × (created ≡ false)
      × (db' ≡ db)

  abbrev Created : RobotAsset → Bool → Database → Database → Type 0
  Created b created db db' =
      (b ≡ robot)
      × (created ≡ true)
      × (db' ≡ after_create robot xml db)
      × (count_if (active_of_tenant robot.tenant_id) db.robot_assets < robot_quota)
      × (robot_conflict robot db.robot_assets ≡ false)

  create_cases :
      (b : RobotAsset) (created : Bool) (db db' : Database)
      → create_robot robot xml db ≡ (ok (b, created), db')
      → Found b created db db' ⊎ Created b created db db'
  unfolding create_robot
  create_cases b created db db' h =
      elim (Option-cases
        (find? (same_content robot.tenant_id robot.robot_type robot.digest) db.robot_assets)) [
          | inl new ↦ inr (ground arith)
          | inr (r, found) ↦ inl (r, found, ground arith, ground arith, ground arith)
        ]

  create_robot_error :
      (e : StoreError) (db : Database)
      → (create_robot robot xml db).0 ≡ err e
      → (create_robot robot xml db).1 ≡ db
  unfolding create_robot
  create_robot_error e db h = ground arith

  found_again :
      (r : RobotRow) (db : Database)
      → find? (same_content robot.tenant_id robot.robot_type robot.digest) db.robot_assets ≡ some r
      → create_robot robot xml db ≡ (ok (load_robot r, false), db)
  unfolding create_robot
  found_again r db h = ground arith

-- The same content, uploaded again by the same tenant for the same robot type, is the same robot:
-- the second call returns it and changes nothing.
pub create_robot-again :
    (robot robot' : RobotAsset) (xml xml' : Text) (b : RobotAsset) (created : Bool)
    (db db' : Database)
    → robot'.tenant_id ≡ robot.tenant_id
    → robot'.robot_type ≡ robot.robot_type
    → robot'.digest ≡ robot.digest
    → create_robot robot xml db ≡ (ok (b, created), db')
    → create_robot robot' xml' db' ≡ (ok (b, false), db')
create_robot-again robot robot' xml xml' b created db db' t y d h =
    elim (create_cases robot xml b created db db' h) [
      | inl (r, found, loaded, _, same) ↦
          rw (same, loaded) (found_again robot' xml' r db (rw (t, y, d) found))
      | inr (mine, _, after, _, fresh) ↦
          rw (after, mine)
            (found_again robot' xml' (robot_row robot xml) _ (
              rw (t, y, d)
                (find?-append_none (same_content robot.tenant_id robot.robot_type robot.digest)
                    db.robot_assets _
                    (find?_of_any-false _
                      (same_content robot.tenant_id robot.robot_type robot.digest) db.robot_assets
                      (λ r e. e) (ground arith))
                  ∙ own (robot.robot_type) refl)))
    ]
  where
    own :
        (y : RobotType)
        → robot.robot_type ≡ y
        → find?
            (same_content robot.tenant_id robot.robot_type robot.digest)
            (robot_row robot xml ∷ [])
          ≡ some (robot_row robot xml)
    own y e = ground arith

module _ (robot : RobotAsset) (xml : Text) (rows : List RobotRow) where
  insert_single :
      (t : Text) (y : RobotType) (d : Text)
      → robot_conflict robot rows ≡ false
      → count_if (same_content t y d) rows ≤ 1
      → count_if (same_content t y d) (rows ++ robot_row robot xml ∷ []) ≤ 1
  insert_single t y d fresh h = elim (Bool-cases (same_content t y d (robot_row robot xml))) [
    | inl same ↦ ground (
      arith,
      count_if-append (same_content t y d) rows (robot_row robot xml ∷ []),
      count_if_of_any-false (same_content robot.tenant_id robot.robot_type robot.digest)
          (same_content t y d) rows (λ r e. ground arith) (ground arith),
    )
    | inr other ↦
        ground (arith, count_if-append (same_content t y d) rows (robot_row robot xml ∷ []))
  ]

insert-IsRobotTable :
    (robot : RobotAsset) (xml : Text) (rows : List RobotRow)
    → robot_conflict robot rows ≡ false
    → count_if (active_of_tenant robot.tenant_id) rows < robot_quota
    → IsRobotTable rows
    → IsRobotTable (rows ++ robot_row robot xml ∷ [])
insert-IsRobotTable robot xml rows fresh room h = record {
  primary_key = λ i. ground (
    arith,
    h.primary_key i,
    count_if-append (λ (r : RobotRow). r.id == i) rows (robot_row robot xml ∷ []),
    count_if_of_any-false (λ (r : RobotRow). r.id == robot.id) (λ (r : RobotRow). r.id == robot.id)
        rows (λ r e. e) (ground arith),
  );
  single = λ t y d. insert_single robot xml rows t y d fresh (h.single t y d);
  bounded = λ t.
      ground
        (arith, h.bounded t, count_if-append (active_of_tenant t) rows (robot_row robot xml ∷ []));
}

-- Every upload, whether it creates, finds or is refused, keeps the table well formed and the tenant
-- within the quota.
pub create_robot-IsRobotTable :
    (robot : RobotAsset) (xml : Text) (db : Database)
    → IsRobotTable db.robot_assets
    → IsRobotTable (create_robot robot xml db).1.robot_assets
create_robot-IsRobotTable robot xml db h = go (create_robot robot xml db) refl
  where
    go :
        (out : Result (RobotAsset × Bool) × Database)
        → create_robot robot xml db ≡ out
        → IsRobotTable out.1.robot_assets
    go (ok (b, created), db') e = elim (create_cases robot xml b created db db' e) [
      | inl (r, _, _, _, same) ↦ rw same h
      | inr (_, _, after, room, fresh) ↦
          rw after (insert-IsRobotTable robot xml db.robot_assets fresh room h)
    ]
    go (err x, db') e =
        let same = create_robot_error robot xml x db (ap (λ o. o.0) e) in
        rw (sym (ap (λ o. o.1) e) ∙ same) h

module _ (p : RobotRow → Bool) (now : ℕ) where
  -- A deletion leaves the columns of the keys alone, and deactivates.
  count_if-mark-le :
      (q : RobotRow → Bool) (rows : List RobotRow)
      → ((r : RobotRow) → q (mark_deleted now r) ≡ true → q r ≡ true)
      → count_if q (update_where p (mark_deleted now) rows) ≤ count_if q rows
  count_if-mark-le q [] d = omega arith
  count_if-mark-le q (r ∷ rows) d = ground (arith, d r, count_if-mark-le q rows d)

-- A deletion keeps the table well formed and the tenant within the quota.
pub delete_robot-IsRobotTable :
    (tenant i : Text) (now : ℕ) (db : Database)
    → IsRobotTable db.robot_assets
    → IsRobotTable (delete_robot tenant i now db).1.robot_assets
unfolding delete_robot
delete_robot-IsRobotTable tenant i now db h = record {
  primary_key = λ j. omega (
    arith,
    h.primary_key j,
    count_if-mark-le (owned tenant i false) now (λ (r : RobotRow). r.id == j) db.robot_assets
        (λ r e. e),
  );
  single = λ t y d. omega (
    arith,
    h.single t y d,
    count_if-mark-le (owned tenant i false) now (same_content t y d) db.robot_assets
        (λ r e. ground arith),
  );
  bounded = λ t. omega (
    arith,
    h.bounded t,
    count_if-mark-le (owned tenant i false) now (active_of_tenant t) db.robot_assets
        (λ r e. ground arith),
  );
}
