-- ===== src/Store/Setups.antt =====
-- The setups of `class RobotStore` in saas/backend/app/store.py.
pub mod Lifecycle
pub mod Visibility
use nebius_serverless_challe.Prelude.{
  ℕ, ◌+◌, Text, empty, Bool, true, false, ◌&&◌, ◌||◌, Option, none, some, List, [], ◌∷◌, ◌++◌, leb,
  ◌==◌, select, find?, count_if, any, update_where,
}
use nebius_serverless_challe.Models.{RobotSetup}
use nebius_serverless_challe.Store.Database.{Database, SetupRow, is_null}
use nebius_serverless_challe.Store.Monad.{
  ◌>>=◌, ◌>>◌, Quota, StoreError, Action, pure, gets, transaction, raise_if, modify,
}

-- SETUP_QUOTA
abbrev pub setup_quota : ℕ
setup_quota = 50

-- `_setup`: the tenant comes back from its column, since the JSON leaves it out.
abbrev pub load_setup : SetupRow → RobotSetup
load_setup row = let stored = row.setup in record stored { tenant_id = row.tenant_id }

abbrev load_found : Option SetupRow → Option RobotSetup
load_found none = none
load_found (some row) = some (load_setup row)

abbrev pub active_of_tenant : Text → SetupRow → Bool
active_of_tenant tenant_id r = r.tenant_id == tenant_id && is_null r.deleted_at

-- the active row of the same tenant and content
abbrev pub same_content : Text → Text → SetupRow → Bool
same_content tenant_id digest r = active_of_tenant tenant_id r && r.digest == digest

abbrev pub setup_row : RobotSetup → SetupRow
setup_row setup = record {
  id = setup.id;
  tenant_id = setup.tenant_id;
  robot_id = setup.robot_id;
  digest = setup.digest;
  setup = record setup { tenant_id = empty };
  deleted_at = none;
}

-- The primary key, and the unique index `robot_setups_active_digest`.
abbrev pub setup_conflict : RobotSetup → List SetupRow → Bool
setup_conflict setup rows =
    any (λ (r : SetupRow). r.id == setup.id) rows
    || any (same_content setup.tenant_id setup.digest) rows

insert_setup : RobotSetup → Action (RobotSetup × Bool)
insert_setup setup = do
  count ← gets (λ db. count_if (active_of_tenant setup.tenant_id) db.robot_setups)
  raise_if (leb setup_quota count) (StoreError.quota_exceeded Quota.setups setup_quota)
  rows ← gets (λ db. db.robot_setups)
  raise_if (setup_conflict setup rows) StoreError.integrity_error
  modify (λ db. record db { robot_setups = db.robot_setups ++ setup_row setup ∷ [] })
  pure (setup, true)

unfoldable pub create_setup : RobotSetup → Action (RobotSetup × Bool)
unfolding insert_setup
create_setup setup = transaction (do
  existing ← gets (λ db. find? (same_content setup.tenant_id setup.digest) db.robot_setups)
  elim existing [ some row ↦ pure (load_setup row, false) | none ↦ insert_setup setup ])

-- `ORDER BY rowid DESC`: the list is built from the first row on, each in front of the earlier ones.
pub latest_first : List RobotSetup → List SetupRow → List RobotSetup
latest_first done [] = done
latest_first done (row ∷ rows) = latest_first (load_setup row ∷ done) rows

unfoldable pub list_setups : Text → Database → List RobotSetup
unfolding latest_first
list_setups tenant_id db = latest_first [] (select (active_of_tenant tenant_id) db.robot_setups)

-- `WHERE id = ? AND tenant_id = ?`, with or without `AND deleted_at IS NULL`
abbrev pub owned : Text → Text → Bool → SetupRow → Bool
owned tenant_id setup_id include_deleted r =
    r.id == setup_id && r.tenant_id == tenant_id && (include_deleted || is_null r.deleted_at)

unfoldable pub get_setup : Text → Text → Database → Option RobotSetup
get_setup tenant_id setup_id db =
    load_found (find? (owned tenant_id setup_id false) db.robot_setups)

unfoldable pub get_setup_history : Text → Text → Database → Option RobotSetup
get_setup_history tenant_id setup_id db =
    load_found (find? (owned tenant_id setup_id true) db.robot_setups)

abbrev pub mark_deleted : ℕ → SetupRow → SetupRow
mark_deleted now r = record r { deleted_at = some now }

unfoldable pub delete_setup : Text → Text → ℕ → Action Bool
delete_setup tenant_id setup_id now = do
  rows ← gets (λ db. db.robot_setups)
  modify (λ db. record db {
    robot_setups = update_where (owned tenant_id setup_id false) (mark_deleted now) db.robot_setups;
  })
  pure (count_if (owned tenant_id setup_id false) rows == 1)
