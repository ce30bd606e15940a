-- ===== src/Server/Scheduler/Maintenance.antt =====
-- server/scheduler/scheduler.go: the periodic maintenance of jobs and of progress rows. The stat of
-- a source file is an argument: whether the file is there.
pub mod Upkeep
use transcoderd.Prelude.{
  ℕ, zero, suc, ◌+◌, ◌*◌, Bool, true, false, not, ◌&&◌, Option, none, some, List, [], ◌∷◌, String,
  ltb, if◌then◌else◌, length,
}
use transcoderd.Model.Events.{
  NotificationStatus, job, queued, canceled, failed, TaskEvent, Job, add_event_complete, filter_by,
  is_assigned,
}
use transcoderd.Server.Repository.Store.{
  Store, Error, Result, ok, err, M, pure, query, ◌>>=◌, ◌>>◌, TaskProgress,
}
use transcoderd.Server.Repository.Queries.{
  get_job, get_jobs_by_status, get_timeout_jobs, get_all_progress_jobs,
}
use transcoderd.Server.Repository.Commands.{add_new_task_event, delete_progress_job}
use transcoderd.Server.Scheduler.Intake.{JobRequest, Outside, schedule_job_request}
use transcoderd.Server.Scheduler.Failures.{verify_failure_message}

-- A loop that ends with the first error.
unfoldable pub for_each {ℓ} : {A : Type ℓ} → (A → M (Unit {0})) → List A → M (Unit {0})
for_each f [] = pure tt
for_each f (x ∷ xs) = do f x; for_each f xs

unfoldable pub fail_missing : ℕ → (String → Bool) → Job → M (Unit {0})
fail_missing now exists v =
    if exists v.source_path
    then pure tt
    else add_new_task_event now (add_event_complete v now job failed "job source file not found").1

unfoldable pub queued_job_maintenance : ℕ → (String → Bool) → M (Unit {0})
unfolding for_each fail_missing
queued_job_maintenance now exists = do
  jobs ← query (λ s. ok (get_jobs_by_status job queued s))
  for_each (fail_missing now exists) jobs

abbrev give_up_message : String
give_up_message = "Job canceled by system, because of too many failed attempts"

abbrev retry_failed : Job → JobRequest
retry_failed v = record {
  source_probe = none;
  source_path = v.source_path;
  force_completed = false;
  force_failed = true;
  force_canceled = false;
  force_assigned = false;
  source_size = 0;
  target_path = v.target_path;
}

abbrev retry_assigned : Job → JobRequest
retry_assigned v = record {
  source_probe = none;
  source_path = v.source_path;
  force_completed = false;
  force_failed = false;
  force_canceled = false;
  force_assigned = true;
  source_size = 0;
  target_path = v.target_path;
}

unfoldable pub reschedule : Outside → Bool → JobRequest → M (Unit {0})
reschedule o stopped r = do schedule_job_request o stopped r >>= λ _. pure tt

unfoldable pub retry_or_cancel : Outside → Bool → Job → M (Unit {0})
unfolding reschedule
retry_or_cancel o stopped v =
    if not (verify_failure_message v.status_message)
    then pure tt
    else if ltb 10 (length (filter_by v.events job failed))
    then add_new_task_event o.now (add_event_complete v o.now job canceled give_up_message).1
    else reschedule o stopped (retry_failed v)

unfoldable pub failed_job_maintenance : Outside → Bool → M (Unit {0})
unfolding for_each retry_or_cancel
failed_job_maintenance o stopped = do
  jobs ← query (λ s. ok (get_jobs_by_status job failed s))
  for_each (retry_or_cancel o stopped) jobs

unfoldable pub restart : Outside → Bool → ℕ → M (Unit {0})
unfolding reschedule
restart o stopped id = do v ← query (get_job id); reschedule o stopped (retry_assigned v)

unfoldable pub restart_timed_out : Outside → Bool → TaskEvent → M (Unit {0})
unfolding restart
restart_timed_out o stopped e = if is_assigned e then restart o stopped e.job_id else pure tt

unfoldable pub assigned_job_maintenance : Outside → ℕ → Bool → M (Unit {0})
unfolding for_each restart_timed_out
assigned_job_maintenance o timeout stopped = do
  events ← query (λ s. ok (get_timeout_jobs o.now timeout s))
  for_each (restart_timed_out o stopped) events

unfoldable pub job_maintenance : Outside → ℕ → Bool → (String → Bool) → M (Unit {0})
job_maintenance o timeout stopped exists = do
  queued_job_maintenance o.now exists
  failed_job_maintenance o stopped
  assigned_job_maintenance o timeout stopped

-- `time.Hour * 24`, in the unit of the times of events.
unfoldable pub delete_stale : ℕ → ℕ → TaskProgress → M (Unit {0})
delete_stale now day p =
    if ltb (p.event_time + day) now
    then delete_progress_job p.progress_id p.notification_type
    else pure tt

unfoldable pub progress_job_maintenance : ℕ → ℕ → M (Unit {0})
unfolding for_each delete_stale
progress_job_maintenance now day = do
  rows ← query (λ s. ok (get_all_progress_jobs s))
  for_each (delete_stale now day) rows
