-- ===== src/Server/Scheduler/Reports.antt =====
-- server/scheduler/scheduler.go: `processEvent`, for the notifications and the progress that workers
-- report. Pings go to the table of workers, which is not modelled.
pub mod Recorded
pub mod Reloaded
pub mod Redelivered
pub mod Removal
use transcoderd.Prelude.{
  ℕ, ◌≡◌, Bool, true, false, ◌&&◌, Option, none, some, List, ◌==◌, if◌then◌else◌, any,
}
use transcoderd.Model.Events.{TaskEvent, Job, is_completed}
use transcoderd.Server.Files.Paths.{FilePath, join}
use transcoderd.Server.Files.Disk.{Disk, File, lookup, remove}
use transcoderd.Server.Repository.Store.{Store, Result, ok, err, TaskProgress, M}
use transcoderd.Server.Repository.Queries.{get_job}
use transcoderd.Server.Repository.Commands.{add_new_task_event, progress_job, delete_progress_job}
use transcoderd.Server.Scheduler.Completion.{
  Host, World, Answer, done, failed, of_repository, can_not_remove_source, complete_job,
}

-- Whether the job has this completed event already.
unfoldable pub already_recorded : TaskEvent → Job → Bool
already_recorded e v = any (λ x. (x.event_id == e.event_id) && is_completed x) v.events

abbrev pub store_answer : World → Store × Result (Unit {0}) → World × Answer
store_answer w (s, ok a) = (record w { store = s }, done)
store_answer w (s, err e) = (record w { store = s }, failed (of_repository e))

unfoldable pub record_event : ℕ → TaskEvent → World → World × Answer
record_event now e w = store_answer w (add_new_task_event now e w.store)

abbrev pub record_completed_of : ℕ → TaskEvent → World → Result Job → World × Answer
record_completed_of now e w (err x) = (w, failed (of_repository x))
record_completed_of now e w (ok v) =
    if already_recorded e v then (w, done) else record_event now e w

unfoldable pub record_completed : ℕ → TaskEvent → World → World × Answer
unfolding already_recorded record_event
record_completed now e w = record_completed_of now e w (get_job e.job_id w.store)

-- `os.Remove`; that the file is gone already is no error.
abbrev pub remove_source_of : Host → World → Result Job → World × Answer
remove_source_of h w (err x) = (w, failed (of_repository x))
remove_source_of h w (ok v) =
    let source = join h.source_root v.source_path in
    if h.remove_denied source
    then (w, failed can_not_remove_source)
    else (record w { disk = remove source w.disk }, done)

unfoldable pub remove_source : Host → TaskEvent → World → World × Answer
remove_source h e w =
    if h.delete_source_on_complete
    then remove_source_of h w (get_job e.job_id w.store)
    else (w, done)

abbrev pub and_then : World × Answer → (World → World × Answer) → World × Answer
and_then (w, done) f = f w
and_then (w, failed x) f = (w, failed x)

unfoldable pub process_notification : Host → ℕ → TaskEvent → World → World × Answer
unfolding record_completed remove_source record_event
process_notification h now e w =
    if is_completed e
    then and_then (and_then (complete_job h e.job_id w) (record_completed now e))
        (remove_source h e)
    else record_event now e w

pub data TaskProgressStatus : Type 0 where
  progressing progress_done progress_failure : TaskProgressStatus

-- Progress of a step is kept while the step runs.
unfoldable pub process_progress : ℕ → TaskProgressStatus → TaskProgress → World → World × Answer
process_progress now progressing p w = store_answer w (progress_job now p w.store)
process_progress now _ p w =
    store_answer w (delete_progress_job p.progress_id p.notification_type w.store)
