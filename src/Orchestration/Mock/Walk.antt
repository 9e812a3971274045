-- ===== src/Orchestration/Mock/Walk.antt =====
-- How the mock backend ends a job.
use nebius_serverless_challe.Prelude.{
  ℕ, Text, ◌≡◌, refl, ◌∙◌, false, some, List, [], ◌∷◌, arith, ◌==◌,
}
use nebius_serverless_challe.Models.{Job, Status, ArtifactManifest}
use nebius_serverless_challe.Store.Database.{Database}
use nebius_serverless_challe.Store.Jobs.{put, set_artifacts, get, get_artifacts}
use nebius_serverless_challe.Store.Jobs.Isolation.{get-put, get-set_artifacts, find?-set_artifacts}
use nebius_serverless_challe.Orchestration.Mock.{
  lifecycle, at_status, walk, mock_manifest, mock_run,
}

-- What is the same in two jobs whatever the walk did: identity and tenant.
abbrev SameJob : Job → Job → Type 0
SameJob job job' = (job'.id ≡ job.id) × (job'.tenant_id ≡ job.tenant_id)

walk_stored :
    (stamp : Status → ℕ) (status : Status) (statuses : List Status) (job : Job) (db : Database)
    → let (job', db') = walk stamp (status ∷ statuses) job db in
      get job.tenant_id job.id db' ≡ some job'
unfolding walk
walk_stored stamp status [] job db =
    ground (arith, get-put job.tenant_id job.id (at_status job status (stamp status)) db)
walk_stored stamp status (next ∷ statuses) job db =
    walk_stored stamp next statuses (at_status job status (stamp status))
      (put (at_status job status (stamp status)) db).1

walk_others :
    (stamp : Status → ℕ) (statuses : List Status) (job : Job) (t i : Text) (db : Database)
    → (job.id == i) ≡ false
    → get t i (walk stamp statuses job db).1 ≡ get t i db
unfolding walk
walk_others stamp [] job t i db other = refl
walk_others stamp (status ∷ statuses) job t i db other =
    let job' = at_status job status (stamp status) in
    ground (arith, walk_others stamp statuses job' t i (put job' db).1 other, get-put t i job' db)

get_artifacts-set_artifacts :
    (m : ArtifactManifest) (db : Database) → get_artifacts m.job_id (set_artifacts m db).1 ≡ some m
unfolding get_artifacts set_artifacts
get_artifacts-set_artifacts m db = find?-set_artifacts m db.artifacts

-- A job that the mock backend ran is stored as completed, with the placeholder manifest of its kind,
-- and no other job changed.
pub mock_run_completes :
    (custom_contents catalog_contents : Text) (stamp : Status → ℕ) (job : Job) (db : Database)
    → let out = mock_run custom_contents catalog_contents stamp job db in
      (get job.tenant_id job.id out
        ≡ some (at_status job Status.completed (stamp Status.completed)))
      × (get_artifacts job.id out ≡ some (mock_manifest custom_contents catalog_contents job))
      × ((t i : Text) → (job.id == i) ≡ false → get t i out ≡ get t i db)
unfolding mock_run walk mock_manifest
mock_run_completes custom_contents catalog_contents stamp job db =
    let m = mock_manifest custom_contents catalog_contents job in
    let walked = (walk stamp lifecycle job db).1 in
    (
      get-set_artifacts m job.tenant_id job.id walked
          ∙ walk_stored stamp Status.queued
              (Status.starting ∷ Status.training ∷ Status.finalizing ∷ Status.rendering
                ∷ Status.evaluating ∷ Status.completed ∷ [])
              job db,
      get_artifacts-set_artifacts m walked,
      λ t i other. get-set_artifacts m t i walked ∙ walk_others stamp lifecycle job t i db other,
    )
