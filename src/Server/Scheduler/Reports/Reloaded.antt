-- ===== src/Server/Scheduler/Reports/Reloaded.antt =====
-- server/scheduler/scheduler.go: the row of a job before and after `UpdateJob`, as `processEvent` reads
-- it again.
use transcoderd.Prelude.{
  ℕ, ◌≡◌, refl, ap, sym, ◌∙◌, Bool, true, false, some, List, [], ◌∷◌, ◌==◌, ==_iff, Option-cases,
  Bool-cases, inl, inr, arith,
}
use transcoderd.Model.Events.{Job}
use transcoderd.Server.Repository.Store.{JobRow, Store, Result, ok, err}
use transcoderd.Server.Repository.Queries.{get_job, find_job, load_job}
use transcoderd.Server.Repository.Commands.{row_of, update_rows, update_job}
use transcoderd.Server.Repository.Loaded.{find_job-id}

find_job-update_rows :
    (row r : JobRow) (rows : List JobRow)
    → find_job row.id rows ≡ some r
    → find_job row.id (update_rows row rows) ≡ some row
unfolding find_job update_rows
find_job-update_rows row r [] e = cc
find_job-update_rows row r (x ∷ rows) e = elim (Bool-cases (x.id == row.id)) [
  | inl same ↦ rw same (rw ((==_iff row.id row.id).1 refl) refl)
  | inr other ↦ rw (other, other) (find_job-update_rows row r rows (rw other at e))
]

job_or : Job → Result Job → Job
job_or v (ok u) = u
job_or v (err x) = v

is_ok : Result Job → Bool
is_ok (ok u) = true
is_ok (err x) = false

-- The row that a job was read from.
pub get_job-row :
    (j : ℕ) (s : Store) (v : Job)
    → get_job j s ≡ ok v
    → (row : JobRow) × (find_job j s.jobs ≡ some row) × (load_job s row ≡ v) × (row.id ≡ j)
unfolding get_job job_or is_ok
get_job-row j s v e = elim (Option-cases (find_job j s.jobs)) [
  | inl missing ↦ absurd (ground (arith, ap is_ok (rw (get_job, missing) at e)))
  | inr (row, there) ↦
      (row, there, ap (job_or v) (rw (get_job, there) at e), (find_job-id j s.jobs row there).0)
]

pub get_job-found :
    (j : ℕ) (s : Store) (row : JobRow)
    → find_job j s.jobs ≡ some row
    → get_job j s ≡ ok (load_job s row)
unfolding get_job
get_job-found j s row there = rw (get_job, there) refl

-- The job of an update that is read again.
pub get_job-update_job :
    (j : ℕ) (s : Store) (v u : Job)
    → get_job j s ≡ ok v
    → u.id ≡ v.id
    → find_job j (update_job u s).0.jobs ≡ some (row_of u)
unfolding update_job load_job
get_job-update_job j s v u e same =
    let (row, there, loaded, i) = get_job-row j s v e in
    let at : u.id ≡ j = same ∙ ap (λ x. x.id) (sym loaded) ∙ i in
    rw (← at) (find_job-update_rows (row_of u) row s.jobs (rw at there))
