-- ===== src/Store/Setups/Visibility.antt =====
-- Who sees a setup, and what a deletion hides: it loses no history.
use nebius_serverless_challe.Prelude.{
  ℕ, Text, ◌≡◌, refl, true, false, ◌&&◌, none, List, [], ◌∷◌, arith, ◌==◌, if◌then◌else◌, All,
  select, find?, update_where, select_sound,
}
use nebius_serverless_challe.Models.{RobotSetup}
use nebius_serverless_challe.Store.Database.{Database, SetupRow}
use nebius_serverless_challe.Store.Setups.{
  load_setup, load_found, active_of_tenant, latest_first, list_setups, owned, get_setup,
  get_setup_history, mark_deleted, delete_setup,
}

find?-mark :
    (t i u j : Text) (now : ℕ) (rows : List SetupRow)
    → load_found (find? (owned u j false) (update_where (owned t i false) (mark_deleted now) rows))
      ≡ (if t == u && i == j then none else load_found (find? (owned u j false) rows))
find?-mark t i u j now [] = ground arith
find?-mark t i u j now (r ∷ rows) = ground (arith, find?-mark t i u j now rows)

-- After a deletion the tenant no longer gets the setup; every other lookup is as before, also
-- another tenant's.
pub get_setup-delete_setup :
    (t i u j : Text) (now : ℕ) (db : Database)
    → get_setup u j (delete_setup t i now db).1
      ≡ (if t == u && i == j then none else get_setup u j db)
unfolding get_setup delete_setup
get_setup-delete_setup t i u j now db = find?-mark t i u j now db.robot_setups

history-mark :
    (t i u j : Text) (now : ℕ) (rows : List SetupRow)
    → load_found (find? (owned u j true) (update_where (owned t i false) (mark_deleted now) rows))
      ≡ load_found (find? (owned u j true) rows)
history-mark t i u j now [] = refl
history-mark t i u j now (r ∷ rows) = ground (arith, history-mark t i u j now rows)

-- A deletion loses nothing: the history of every setup, the deleted one's included, stays readable
-- for the jobs that were made from it.
pub get_setup_history-delete_setup :
    (t i u j : Text) (now : ℕ) (db : Database)
    → get_setup_history u j (delete_setup t i now db).1 ≡ get_setup_history u j db
unfolding get_setup_history delete_setup
get_setup_history-delete_setup t i u j now db = history-mark t i u j now db.robot_setups

latest_first-All :
    (tenant : Text) (done : List RobotSetup) (rows : List SetupRow)
    → All (λ (a : RobotSetup). a.tenant_id ≡ tenant) done
    → All (λ r. active_of_tenant tenant r ≡ true) rows
    → All (λ (a : RobotSetup). a.tenant_id ≡ tenant) (latest_first done rows)
unfolding latest_first
latest_first-All tenant done [] h k = h
latest_first-All tenant done (r ∷ rows) h k =
    latest_first-All tenant (load_setup r ∷ done) rows (ground arith, h) k.1

-- The list of setups holds the asking tenant's alone.
pub list_setups_isolation :
    (tenant : Text) (db : Database)
    → All (λ (a : RobotSetup). a.tenant_id ≡ tenant) (list_setups tenant db)
unfolding list_setups
list_setups_isolation tenant db =
    latest_first-All tenant [] (select (active_of_tenant tenant) db.robot_setups) tt
      (select_sound (active_of_tenant tenant) db.robot_setups)
