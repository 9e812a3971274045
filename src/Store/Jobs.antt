-- ===== src/Store/Jobs.antt =====
-- `class JobStore` of saas/backend/app/store.py.
pub mod Isolation
use nebius_serverless_challe.Prelude.{
  Text, not, Option, none, some, List, [], ◌∷◌, ◌++◌, map, ◌==◌, if◌then◌else◌, select, find?,
  delete_where,
}
use nebius_serverless_challe.Models.{Job, ArtifactManifest, is_terminal}
use nebius_serverless_challe.Store.Database.{Database, JobRow}
use nebius_serverless_challe.Store.Monad.{Action, modify}

abbrev pub job_row : Job → JobRow
job_row job = record {
  id = job.id;
  tenant_id = job.tenant_id;
  gallery_example_id = job.gallery_example_id;
  job = job;
}

-- `INSERT OR REPLACE` on the primary key `id`
unfoldable pub put : Job → Action (Unit {0})
put job = modify λ db. record db {
  jobs = delete_where (λ (r : JobRow). r.id == job.id) db.jobs ++ job_row job ∷ [];
}

-- another tenant's job is never revealed
abbrev owned_job : Text → Option JobRow → Option Job
owned_job tenant_id none = none
owned_job tenant_id (some row) = if row.tenant_id == tenant_id then some row.job else none

unfoldable pub get : Text → Text → Database → Option Job
get tenant_id job_id db = owned_job tenant_id (find? (λ (r : JobRow). r.id == job_id) db.jobs)

unfoldable pub list : Text → Database → List Job
list tenant_id db =
    map (λ (r : JobRow). r.job) (select (λ (r : JobRow). r.tenant_id == tenant_id) db.jobs)

unfoldable pub list_active : Database → List Job
list_active db =
    select (λ (j : Job). not (is_terminal j.status)) (map (λ (r : JobRow). r.job) db.jobs)

unfoldable pub set_artifacts : ArtifactManifest → Action (Unit {0})
set_artifacts manifest = modify λ db. record db {
  artifacts =
      delete_where (λ (m : ArtifactManifest). m.job_id == manifest.job_id) db.artifacts
      ++ manifest ∷ [];
}

unfoldable pub get_artifacts : Text → Database → Option ArtifactManifest
get_artifacts job_id db = find? (λ (m : ArtifactManifest). m.job_id == job_id) db.artifacts
