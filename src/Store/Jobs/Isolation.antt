-- ===== src/Store/Jobs/Isolation.antt =====
-- The job history: what a write changes, what each tenant sees of it, and what is never lost.
use nebius_serverless_challe.Prelude.{
  ◌≤◌, Text, ◌≡◌, refl, inl, inr, Bool, none, some, List, [], ◌∷◌, ◌++◌, map, arith, ◌==◌,
  if◌then◌else◌, Bool-cases, Option-cases, All, All-append, select, find?, count_if, delete_where,
  find?_sound, All-find?, All-delete_where,
}
use nebius_serverless_challe.Models.{Job, ArtifactManifest}
use nebius_serverless_challe.Store.Database.{Database, JobRow}
use nebius_serverless_challe.Store.Jobs.{set_artifacts, job_row, put, get, list}

-- The indexed columns of a row repeat the fields of the stored job.
abbrev pub IsConsistent : JobRow → Type 0
IsConsistent row = (row.id ≡ row.job.id) × (row.tenant_id ≡ row.job.tenant_id)

abbrev has_id : Text → JobRow → Bool
has_id i row = row.id == i

-- The table is well formed: its rows are consistent, and `id` is a primary key.
pub record IsJobTable (rows : List JobRow) : Type 0 where
  pub consistent : All IsConsistent rows
  pub primary_key : (i : Text) → count_if (λ (r : JobRow). r.id == i) rows ≤ 1

find?-put :
    (i : Text) (job : Job) (rows : List JobRow)
    → find?
        (λ (r : JobRow). r.id == i)
        (delete_where (λ (r : JobRow). r.id == job.id) rows ++ job_row job ∷ [])
      ≡ (if job.id == i then some (job_row job) else find? (λ (r : JobRow). r.id == i) rows)
find?-put i job [] = ground arith
find?-put i job (row ∷ rows) = ground (arith, find?-put i job rows)

-- A lookup after a write: the written job, to its own tenant alone; any other id reads as before.
pub get-put :
    (tenant i : Text) (job : Job) (db : Database)
    → get tenant i (put job db).1 ≡ (
        if job.id == i then if job.tenant_id == tenant then some job else none else get tenant i db)
unfolding get put
get-put tenant i job db = ground (arith, find?-put i job db.jobs)

count_if-put :
    (i : Text) (job : Job) (rows : List JobRow)
    → count_if
        (λ (r : JobRow). r.id == i)
        (delete_where (λ (r : JobRow). r.id == job.id) rows ++ job_row job ∷ [])
      ≡ (if job.id == i then 1 else count_if (λ (r : JobRow). r.id == i) rows)
count_if-put i job [] = ground arith
count_if-put i job (row ∷ rows) = ground (arith, count_if-put i job rows)

-- A write keeps the table well formed.
pub put-IsJobTable :
    (job : Job) (db : Database) → IsJobTable db.jobs → IsJobTable (put job db).1.jobs
unfolding put
put-IsJobTable job db h = record {
  consistent =
      All-append IsConsistent _ _ (All-delete_where IsConsistent _ db.jobs h.consistent)
        ((refl, refl), tt);
  primary_key = λ i. ground (arith, count_if-put i job db.jobs, h.primary_key i);
}

-- Whatever `get` returns belongs to the tenant who asked, and has the id that was asked for.
pub get_isolation :
    (tenant i : Text) (job : Job) (db : Database)
    → IsJobTable db.jobs
    → get tenant i db ≡ some job
    → (job.tenant_id ≡ tenant) × (job.id ≡ i)
unfolding get
get_isolation tenant i job db h e = elim (Option-cases (find? (has_id i) db.jobs)) [
  | inl missing ↦ ground arith
  | inr (row, found) ↦ ground (
    arith,
    find?_sound (has_id i) db.jobs row found,
    All-find? IsConsistent (has_id i) db.jobs row h.consistent found,
  )
]

-- Every job that `list` returns belongs to the tenant who asked.
pub list_isolation :
    (tenant : Text) (db : Database)
    → IsJobTable db.jobs
    → All (λ (j : Job). j.tenant_id ≡ tenant) (list tenant db)
unfolding list
list_isolation tenant db h = jobs_of db.jobs h.consistent
  where
    jobs_of :
        (rows : List JobRow)
        → All IsConsistent rows
        → All
            (λ (j : Job). j.tenant_id ≡ tenant)
            (map (λ (r : JobRow). r.job) (select (λ (r : JobRow). r.tenant_id == tenant) rows))
    jobs_of [] h = tt
    jobs_of (r ∷ rows) h = elim (Bool-cases (r.tenant_id == tenant)) [
      | inl e ↦ rw e (ground arith, jobs_of rows h.1)
      | inr e ↦ rw e (jobs_of rows h.1)
    ]

-- A manifest changes no job.
pub get-set_artifacts :
    (m : ArtifactManifest) (t i : Text) (db : Database)
    → get t i (set_artifacts m db).1 ≡ get t i db
unfolding get set_artifacts
get-set_artifacts m t i db = refl

-- A manifest is found after it is written.
pub find?-set_artifacts :
    (m : ArtifactManifest) (rows : List ArtifactManifest)
    → find?
        (λ (x : ArtifactManifest). x.job_id == m.job_id)
        (delete_where (λ (x : ArtifactManifest). x.job_id == m.job_id) rows ++ m ∷ [])
      ≡ some m
find?-set_artifacts m [] = ground arith
find?-set_artifacts m (x ∷ rows) = ground (arith, find?-set_artifacts m rows)
