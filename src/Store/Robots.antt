-- ===== src/Store/Robots.antt =====
-- The robots of `class RobotStore` in saas/backend/app/store.py.
pub mod Lifecycle
pub mod Visibility
use nebius_serverless_challe.Prelude.{
  ℕ, ◌+◌, Text, empty, Bool, true, false, ◌&&◌, ◌||◌, Option, none, some, List, [], ◌∷◌, ◌++◌, leb,
  ◌==◌, select, find?, count_if, any, update_where,
}
use nebius_serverless_challe.Models.{RobotAsset, RobotType, robot_type_eq}
use nebius_serverless_challe.Store.Database.{Database, RobotRow, is_null}
use nebius_serverless_challe.Store.Monad.{
  ◌>>=◌, ◌>>◌, Quota, StoreError, Action, pure, gets, transaction, raise_if, modify,
}

-- ROBOT_QUOTA
abbrev pub robot_quota : ℕ
robot_quota = 20

-- `_robot`: the tenant comes back from its column, since the JSON leaves it out.
abbrev pub load_robot : RobotRow → RobotAsset
load_robot row = let stored = row.robot in record stored { tenant_id = row.tenant_id }

abbrev load_found : Option RobotRow → Option RobotAsset
load_found none = none
load_found (some row) = some (load_robot row)

abbrev pub active_of_tenant : Text → RobotRow → Bool
active_of_tenant tenant_id r = r.tenant_id == tenant_id && is_null r.deleted_at

-- the active row of the same tenant, type and content
abbrev pub same_content : Text → RobotType → Text → RobotRow → Bool
same_content tenant_id robot_type digest r =
    active_of_tenant tenant_id r && (robot_type_eq r.robot_type robot_type && r.digest == digest)

abbrev pub robot_row : RobotAsset → Text → RobotRow
robot_row robot xml_content = record {
  id = robot.id;
  tenant_id = robot.tenant_id;
  digest = robot.digest;
  robot_type = robot.robot_type;
  robot = record robot { tenant_id = empty };
  xml_content = xml_content;
  deleted_at = none;
}

-- The primary key, and the unique index `robot_assets_active_digest`.
abbrev pub robot_conflict : RobotAsset → List RobotRow → Bool
robot_conflict robot rows =
    any (λ (r : RobotRow). r.id == robot.id) rows
    || any (same_content robot.tenant_id robot.robot_type robot.digest) rows

insert_robot : RobotAsset → Text → Action (RobotAsset × Bool)
insert_robot robot xml_content = do
  count ← gets (λ db. count_if (active_of_tenant robot.tenant_id) db.robot_assets)
  raise_if (leb robot_quota count) (StoreError.quota_exceeded Quota.robots robot_quota)
  rows ← gets (λ db. db.robot_assets)
  raise_if (robot_conflict robot rows) StoreError.integrity_error
  modify (λ db. record db { robot_assets = db.robot_assets ++ robot_row robot xml_content ∷ [] })
  pure (robot, true)

unfoldable pub create_robot : RobotAsset → Text → Action (RobotAsset × Bool)
unfolding insert_robot
create_robot robot xml_content = transaction (do
  existing ←
      gets
        (λ db. find? (same_content robot.tenant_id robot.robot_type robot.digest) db.robot_assets)
  elim existing [ some row ↦ pure (load_robot row, false) | none ↦ insert_robot robot xml_content ])

-- `ORDER BY rowid DESC`: the list is built from the first row on, each in front of the earlier ones.
pub latest_first : List RobotAsset → List RobotRow → List RobotAsset
latest_first done [] = done
latest_first done (row ∷ rows) = latest_first (load_robot row ∷ done) rows

unfoldable pub list_robots : Text → Database → List RobotAsset
unfolding latest_first
list_robots tenant_id db = latest_first [] (select (active_of_tenant tenant_id) db.robot_assets)

-- `WHERE id = ? AND tenant_id = ?`, with or without `AND deleted_at IS NULL`
abbrev pub owned : Text → Text → Bool → RobotRow → Bool
owned tenant_id robot_id include_deleted r =
    r.id == robot_id && r.tenant_id == tenant_id && (include_deleted || is_null r.deleted_at)

unfoldable pub get_robot : Text → Text → Database → Option RobotAsset
get_robot tenant_id robot_id db =
    load_found (find? (owned tenant_id robot_id false) db.robot_assets)

abbrev with_content : Option RobotRow → Option (RobotAsset × Text)
with_content none = none
with_content (some row) = some (load_robot row, row.xml_content)

unfoldable pub get_robot_content : Text → Text → Bool → Database → Option (RobotAsset × Text)
get_robot_content tenant_id robot_id include_deleted db =
    with_content (find? (owned tenant_id robot_id include_deleted) db.robot_assets)

abbrev pub mark_deleted : ℕ → RobotRow → RobotRow
mark_deleted now r = record r { deleted_at = some now }

unfoldable pub delete_robot : Text → Text → ℕ → Action Bool
delete_robot tenant_id robot_id now = do
  rows ← gets (λ db. db.robot_assets)
  modify (λ db. record db {
    robot_assets = update_where (owned tenant_id robot_id false) (mark_deleted now) db.robot_assets;
  })
  pure (count_if (owned tenant_id robot_id false) rows == 1)
