-- ===== src/Orchestration/Lifecycle/Outcome.antt =====
-- What it means that a job is over, and the writes that end one.
use nebius_serverless_challe.Prelude.{
  ℕ, Text, String, ◌≡◌, refl, ◌∙◌, ◌⊎◌, inl, inr, true, false, some, List, ◌∷◌, arith, ◌==◌,
  is_some, Memᴰ,
}
use nebius_serverless_challe.Models.{Job, Status, ArtifactManifest}
use nebius_serverless_challe.Store.Database.{Database}
use nebius_serverless_challe.Store.Jobs.{put, set_artifacts, get, get_artifacts}
use nebius_serverless_challe.Store.Jobs.Isolation.{get-put, find?-set_artifacts, get-set_artifacts}
use nebius_serverless_challe.Orchestration.Lifecycle.{ready, Read, save, fail, completed_job}

-- A manifest that one of the reads returned is stored.
pub record FromRead (reads : List Read) (db : Database) : Type 0 where
  pub read : Read
  pub manifest : ArtifactManifest
  pub made : Memᴰ read reads
  pub outcome : read.outcome ≡ ready manifest
  pub stored : get_artifacts manifest.job_id db ≡ some manifest

-- A stored job that is over: it failed with an error, or it completed with the manifest of a
-- read.
abbrev pub IsOver : List Read → Job → Database → Type 0
IsOver reads j db =
    ((j.status ≡ Status.failed) × (is_some j.error ≡ true))
    ⊎ ((j.status ≡ Status.completed) × FromRead reads db)

-- Lookups of other jobs read as before.
abbrev pub KeepsOthers : Job → Database → Database → Type 0
KeepsOthers job db db' = (t i : Text) → (job.id == i) ≡ false → get t i db' ≡ get t i db

pub record IsSettled (reads : List Read) (job : Job) (db db' : Database) : Type 0 where
  pub final : Job
  pub stored : get job.tenant_id job.id db' ≡ some final
  pub over : IsOver reads final db'
  pub others : KeepsOthers job db db'

-- A write of a job with the same identity.
pub get-save :
    (job j : Job) (db : Database)
    → j.id ≡ job.id
    → j.tenant_id ≡ job.tenant_id
    → get job.tenant_id job.id (save j db) ≡ some j
get-save job j db e t = ground (arith, get-put job.tenant_id job.id j db)

pub KeepsOthers-save :
    (job j : Job) (db db' : Database)
    → j.id ≡ job.id
    → KeepsOthers job db db'
    → KeepsOthers job db (save j db')
KeepsOthers-save job j db db' e h t i ne = ground (arith, get-put t i j db', h t i ne)

get_artifacts-saved :
    (m : ArtifactManifest) (j : Job) (db : Database)
    → get_artifacts m.job_id (save j (set_artifacts m db).1) ≡ some m
unfolding get_artifacts set_artifacts put
get_artifacts-saved m j db = find?-set_artifacts m db.artifacts

pub fail-IsSettled :
    (reads : List Read) (job j : Job) (error phase : String) (stamp : ℕ) (db db' : Database)
    → j.id ≡ job.id
    → j.tenant_id ≡ job.tenant_id
    → KeepsOthers job db db'
    → IsSettled reads job db (fail j error phase stamp db')
unfolding fail
fail-IsSettled reads job j error phase stamp db db' e t h = record {
  final = failed_job;
  stored = get-save job failed_job db' e t;
  over = inl (refl, refl);
  others = KeepsOthers-save job failed_job db db' e h;
}
  where
    failed_job : Job
    failed_job = record j {
      status = Status.failed;
      phase = some phase;
      failure_phase = some phase;
      error = some error;
      updated_at = stamp;
    }

pub IsSettled-more :
    (r : Read) (reads : List Read) (job : Job) (db db' : Database)
    → IsSettled reads job db db'
    → IsSettled (r ∷ reads) job db db'
IsSettled-more r reads job db db' h = record {
  final = h.final;
  stored = h.stored;
  over = elim h.over [
    | inl failed ↦ inl failed
    | inr (done, m) ↦ inr (
      done,
      record {
        read = m.read;
        manifest = m.manifest;
        made = Memᴰ.tail m.made;
        outcome = m.outcome;
        stored = m.stored;
      },
    )
  ];
  others = h.others;
}

pub completed-IsSettled :
    (r : Read) (reads : List Read) (m : ArtifactManifest) (job j : Job) (stamp : ℕ)
    (db db' : Database)
    → j.id ≡ job.id
    → j.tenant_id ≡ job.tenant_id
    → r.outcome ≡ ready m
    → KeepsOthers job db db'
    → IsSettled (r ∷ reads) job db (save (completed_job j stamp) (set_artifacts m db').1)
unfolding completed_job
completed-IsSettled r reads m job j stamp db db' e t read h = record {
  final = completed_job j stamp;
  stored = get-save job (completed_job j stamp) (set_artifacts m db').1 e t;
  over = inr (
    refl,
    record {
      read = r;
      manifest = m;
      made = Memᴰ.head refl;
      outcome = read;
      stored = get_artifacts-saved m (completed_job j stamp) db';
    },
  );
  others = λ t i ne.
      KeepsOthers-save job (completed_job j stamp) db (set_artifacts m db').1 e
        (λ t i ne. get-set_artifacts m t i db' ∙ h t i ne) t i ne;
}
