-- ===== src/Server/Scheduler/Intake.antt =====
-- server/scheduler/scheduler.go: new jobs and retries. `uuid.NewUUID` and the run of ffprobe on
-- the source file are arguments: the ID, and the probe, none where ffprobe fails.
pub mod Outcome
pub mod Retry
use transcoderd.Prelude.{
  ℕ, Bool, true, false, ◌&&◌, ◌||◌, Option, none, some, List, [], ◌∷◌, String, if◌then◌else◌,
}
use transcoderd.Model.Events.{
  NotificationStatus, job, queued, assigned, started, completed, canceled, failed, TaskEvent, Job,
  get_latest_per_notification_type, add_event, same_status,
}
use transcoderd.Server.Repository.Store.{
  Store, Error, no_recorded_status, can_not_be_rescheduled, context_canceled, Result, ok, err, M,
  pure, fail, query, ◌>>=◌, ◌>>◌, with_transaction,
}
use transcoderd.Server.Repository.Queries.{get_job_by_path}
use transcoderd.Server.Repository.Commands.{add_new_task_event, add_job, update_job}

pub record JobRequest : Type 0 where
  pub source_probe : Option String
  pub source_path : String
  pub force_completed : Bool
  pub force_failed : Bool
  pub force_canceled : Bool
  pub force_assigned : Bool
  pub source_size : ℕ
  pub target_path : String

-- What `scheduleJobRequestLocked` takes from outside: the time, a new ID, the probe of the file.
pub record Outside : Type 0 where
  pub now : ℕ
  pub new_id : ℕ
  pub probe : Option String

-- The cases of `updateJobByRequest` on the status of the last `Job` event.
unfoldable pub forced_requeue : JobRequest → NotificationStatus → Bool
forced_requeue r status =
    (r.force_completed && same_status status completed)
    || (r.force_failed && same_status status failed)
    || (r.force_canceled && same_status status canceled)

unfoldable pub forced_restart : JobRequest → NotificationStatus → Bool
forced_restart r status =
    r.force_assigned && (same_status status assigned || same_status status started)

unfoldable pub cancel_and_requeue : ℕ → Job → Job × List TaskEvent
cancel_and_requeue now v =
    let (v', cancel) = add_event v now job canceled in
    let (v'', requeue) = add_event v' now job queued in (v'', cancel ∷ requeue ∷ [])

unfoldable pub requeue : ℕ → Job → Job × List TaskEvent
requeue now v = let (v', event) = add_event v now job queued in (v', event ∷ [])

unfoldable pub update_job_by_request : ℕ → Job → JobRequest → Result (Job × List TaskEvent)
update_job_by_request now v r = elim (get_latest_per_notification_type v.events job) [
  | none ↦ err no_recorded_status
  | some last ↦
      if forced_restart r last.status
      then ok (cancel_and_requeue now v)
      else if forced_requeue r last.status
      then ok (requeue now v)
      else err can_not_be_rescheduled
]

abbrev pub or_probe : Option String → Option String → Option String
or_probe none p = p
or_probe (some q) p = some q

unfoldable pub fresh_job : Outside → JobRequest → Job
fresh_job o r = record {
  id = o.new_id;
  source_path = r.source_path;
  target_path = r.target_path;
  source_size = r.source_size;
  target_size = 0;
  source_probe = or_probe r.source_probe o.probe;
  target_probe = none;
  events = [];
  status_message = "";
}

unfoldable pub new_job : Outside → JobRequest → M (Job × List TaskEvent)
unfolding fresh_job
new_job o r = do add_job (fresh_job o r); pure (requeue o.now (fresh_job o r))

-- A reviewed request carries the probe of the file: the job takes it, and forgets its last output.
unfoldable pub refresh : JobRequest → Job → Option String → M Job
refresh r v none = pure v
refresh r v (some probe) = do
  let v' = record v {
    source_size = r.source_size;
    source_probe = some probe;
    target_size = 0;
    target_probe = none;
  }
  update_job v'
  pure v'

unfoldable pub add_events : ℕ → List TaskEvent → M (Unit {0})
add_events now [] = pure tt
add_events now (e ∷ es) = do add_new_task_event now e; add_events now es

unfoldable pub schedule_found : Outside → JobRequest → Option Job → M (Job × List TaskEvent)
unfolding new_job refresh
schedule_found o r none = new_job o r
schedule_found o r (some v) = do
  (v', events) ← query (λ _. update_job_by_request o.now v r)
  v'' ← refresh r v' r.source_probe
  pure (v'', events)

-- The function that runs in the transaction.
unfoldable pub schedule_in_transaction : Outside → JobRequest → M Job
unfolding schedule_found add_events
schedule_in_transaction o r = do
  found ← query (get_job_by_path r.source_path)
  (v, events) ← schedule_found o r found
  add_events o.now events
  pure v

-- `ctx.Err` is `stopped`.
unfoldable pub schedule_job_request : Outside → Bool → JobRequest → M Job
unfolding schedule_in_transaction
schedule_job_request o stopped r =
    if stopped then fail context_canceled else with_transaction (schedule_in_transaction o r)
