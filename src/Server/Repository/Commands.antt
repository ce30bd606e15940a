-- ===== src/Server/Repository/Commands.antt =====
-- The INSERT, UPDATE and DELETE statements of server/repository/repository.go.
use transcoderd.Prelude.{
  ℕ, Bool, ◌&&◌, ◌||◌, not, List, [], ◌∷◌, ◌++◌, String, str_eq, ◌==◌, if◌then◌else◌, keep, any,
}
use transcoderd.Model.Events.{NotificationType, TaskEvent, Job, same_type}
use transcoderd.Server.Repository.Store.{
  JobRow, Store, event_id_mismatch, foreign_key_violation, duplicate_key, ok, err, M, TaskProgress,
}
use transcoderd.Server.Repository.Queries.{events_of, next_id}

-- fn_job_status_update: INSERT … ON CONFLICT (job_id) DO UPDATE.
unfoldable pub update_status : TaskEvent → List TaskEvent → List TaskEvent
update_status e [] = e ∷ []
update_status e (r ∷ rs) =
    let rest = update_status e rs in if r.job_id == e.job_id then e ∷ rs else r ∷ rest

abbrev pub has_job : ℕ → Store → Bool
has_job j s = any (λ r. r.id == j) s.jobs

-- The row that is inserted, with the server's time, and the trigger on it.
unfoldable pub insert_event : ℕ → TaskEvent → Store → Store
unfolding update_status
insert_event now e s =
    let row = record e { event_time = now } in
    record s {
      job_events = s.job_events ++ (row ∷ []);
      job_status = update_status row s.job_status;
    }

unfoldable pub add_new_task_event : ℕ → TaskEvent → M (Unit {0})
unfolding next_id
add_new_task_event now e s =
    if next_id (events_of e.job_id s.job_events) == e.event_id
    then if has_job e.job_id s
      then (insert_event now e s, ok tt)
      else (s, err foreign_key_violation)
    else (s, err (event_id_mismatch e.event_id))

abbrev pub row_of : Job → JobRow
row_of v = record {
  id = v.id;
  source_path = v.source_path;
  target_path = v.target_path;
  source_size = v.source_size;
  target_size = v.target_size;
  source_probe = v.source_probe;
  target_probe = v.target_probe;
}

-- The primary key refuses a second row of the same ID.
unfoldable pub add_job : Job → M (Unit {0})
add_job v s =
    if has_job v.id s
    then (s, err duplicate_key)
    else (record s { jobs = s.jobs ++ (row_of v ∷ []) }, ok tt)

unfoldable pub update_rows : JobRow → List JobRow → List JobRow
update_rows row [] = []
update_rows row (r ∷ rs) =
    let rest = update_rows row rs in if r.id == row.id then row ∷ rest else r ∷ rest

-- An UPDATE that meets no row is no error.
unfoldable pub update_job : Job → M (Unit {0})
unfolding update_rows
update_job v s = (record s { jobs = update_rows (row_of v) s.jobs }, ok tt)

abbrev pub same_progress : String → NotificationType → TaskProgress → Bool
same_progress p t r = str_eq r.progress_id p && same_type r.notification_type t

unfoldable pub upsert_progress : TaskProgress → List TaskProgress → List TaskProgress
upsert_progress p [] = p ∷ []
upsert_progress p (r ∷ rs) =
    let rest = upsert_progress p rs in
    if same_progress p.progress_id p.notification_type r
    then record r { percent = p.percent; eta = p.eta; event_time = p.event_time } ∷ rs
    else r ∷ rest

-- An insert, which the foreign key checks, or an update of the percentage, the estimate and the time.
unfoldable pub progress_job : ℕ → TaskProgress → M (Unit {0})
unfolding upsert_progress
progress_job now p s =
    if any (same_progress p.progress_id p.notification_type) s.job_progress || has_job p.job_id s
    then (
      record s { job_progress = upsert_progress (record p { event_time = now }) s.job_progress },
      ok tt,
    )
    else (s, err foreign_key_violation)

unfoldable pub delete_progress_job : String → NotificationType → M (Unit {0})
delete_progress_job p t s =
    (record s { job_progress = keep (λ r. not (same_progress p t r)) s.job_progress }, ok tt)
