-- ===== src/Store/Robots/Visibility.antt =====
-- Who sees a robot, and what a deletion hides.
use nebius_serverless_challe.Prelude.{
  ℕ, Text, ◌≡◌, true, false, ◌&&◌, none, List, [], ◌∷◌, arith, ◌==◌, if◌then◌else◌, All, select,
  find?, update_where, select_sound,
}
use nebius_serverless_challe.Models.{RobotAsset}
use nebius_serverless_challe.Store.Database.{Database, RobotRow}
use nebius_serverless_challe.Store.Robots.{
  load_robot, load_found, with_content, active_of_tenant, latest_first, list_robots, owned,
  get_robot, get_robot_content, mark_deleted, delete_robot,
}

find?-mark :
    (t i u j : Text) (now : ℕ) (rows : List RobotRow)
    → load_found (find? (owned u j false) (update_where (owned t i false) (mark_deleted now) rows))
      ≡ (if t == u && i == j then none else load_found (find? (owned u j false) rows))
find?-mark t i u j now [] = ground arith
find?-mark t i u j now (r ∷ rows) = ground (arith, find?-mark t i u j now rows)

with_content-mark :
    (t i u j : Text) (now : ℕ) (rows : List RobotRow)
    → with_content
        (find? (owned u j false) (update_where (owned t i false) (mark_deleted now) rows))
      ≡ (if t == u && i == j then none else with_content (find? (owned u j false) rows))
with_content-mark t i u j now [] = ground arith
with_content-mark t i u j now (r ∷ rows) = ground (arith, with_content-mark t i u j now rows)

-- After a deletion the tenant gets neither the robot nor, without `include_deleted`, its content;
-- every other such lookup of a robot or of its content is as before, also another tenant's.
pub get_robot-delete_robot :
    (t i u j : Text) (now : ℕ) (db : Database)
    → (get_robot u j (delete_robot t i now db).1
        ≡ (if t == u && i == j then none else get_robot u j db))
      × (get_robot_content u j false (delete_robot t i now db).1
          ≡ (if t == u && i == j then none else get_robot_content u j false db))
unfolding get_robot get_robot_content delete_robot
get_robot-delete_robot t i u j now db =
    (find?-mark t i u j now db.robot_assets, with_content-mark t i u j now db.robot_assets)

latest_first-All :
    (tenant : Text) (done : List RobotAsset) (rows : List RobotRow)
    → All (λ (a : RobotAsset). a.tenant_id ≡ tenant) done
    → All (λ r. active_of_tenant tenant r ≡ true) rows
    → All (λ (a : RobotAsset). a.tenant_id ≡ tenant) (latest_first done rows)
unfolding latest_first
latest_first-All tenant done [] h k = h
latest_first-All tenant done (r ∷ rows) h k =
    latest_first-All tenant (load_robot r ∷ done) rows (ground arith, h) k.1

-- The list of robots holds the asking tenant's alone.
pub list_robots_isolation :
    (tenant : Text) (db : Database)
    → All (λ (a : RobotAsset). a.tenant_id ≡ tenant) (list_robots tenant db)
unfolding list_robots
list_robots_isolation tenant db =
    latest_first-All tenant [] (select (active_of_tenant tenant) db.robot_assets) tt
      (select_sound (active_of_tenant tenant) db.robot_assets)
