-- ===== src/Server/Scheduler/Dispatch/Cancellation.antt =====
-- What `CancelJob` (server/scheduler/scheduler.go) does, and which jobs a worker may stream.
use transcoderd.Prelude.{
  ℕ, ◌≡◌, refl, ◌⊎◌, inl, inr, Bool, true, false, Option, none, some, arith, length, if◌then◌else◌,
  Option-cases,
}
use transcoderd.Model.Events.{
  NotificationStatus, job, assigned, started, completed, canceled, failed, TaskEvent, Job,
  get_latest, next_event_id, add_event_complete, get_status,
}
use transcoderd.Server.Repository.Store.{
  JobRow, Store, Error, already_completed, is_failed, already_canceled, unknown_state,
  nil_dereference, element_not_found, err,
}
use transcoderd.Server.Repository.Queries.{events_of, load_job, find_job, get_job}
use transcoderd.Server.Repository.Commands.{insert_event}
use transcoderd.Server.Repository.Invariant.{IsConsistent}
use transcoderd.Server.Repository.Loaded.{
  IsLoaded, load_job-IsLoaded, next_event_id-loaded, add_new_task_event-loaded,
}
use transcoderd.Server.Scheduler.Dispatch.{cancel_by_status, cancel_job}

-- The event that a cancellation records.
abbrev pub cancellation : ℕ → ℕ → ℕ → TaskEvent
cancellation now id count = record {
  job_id = id;
  event_id = count;
  worker_name = "";
  event_time = now;
  notification_type = job;
  status = canceled;
  message = "Job canceled by user";
}

-- What a user's cancellation answers, by the status of the job.
abbrev pub answer : Option NotificationStatus → Error
answer none = nil_dereference
answer (some completed) = already_completed
answer (some failed) = is_failed
answer (some canceled) = already_canceled
answer (some _) = unknown_state

abbrev pub is_running : Option NotificationStatus → Bool
is_running (some assigned) = true
is_running (some started) = true
is_running _ = false

cancel_by_status_lem :
    (now : ℕ) (st : Option NotificationStatus) (v : Job) (s : Store)
    → IsConsistent s
    → IsLoaded s v
    → let event = cancellation now v.id (length (events_of v.id s.job_events)) in
      cancel_by_status now st v s
      ≡ ((if is_running st then insert_event now event s else s), err (answer st))
unfolding cancel_by_status add_event_complete
cancel_by_status_lem now st v s c l = ground (
  arith,
  next_event_id-loaded s v c l,
  add_new_task_event-loaded now s v (cancellation now v.id (next_event_id (get_latest v.events))) c
      l refl refl,
)

-- With consistent tables, CancelJob records a cancellation exactly for a job that is assigned or
-- started, changes nothing for any other, and answers with an error in every case.
pub cancel_job-answers :
    (now id : ℕ) (s : Store)
    → IsConsistent s
    → ((find_job id s.jobs ≡ none) × (cancel_job now id s ≡ (s, err element_not_found)))
      ⊎ ((row : JobRow) × (find_job id s.jobs ≡ some row)
          × (let st = get_status (load_job s row).events in
              let event = cancellation now id (length (events_of id s.job_events)) in
              cancel_job now id s
              ≡ ((if is_running st then insert_event now event s else s), err (answer st))))
unfolding cancel_job get_job
cancel_job-answers now id s c = elim (Option-cases (find_job id s.jobs)) [
  | inl e ↦ inl (e, ground (arith, e))
  | inr (row, e) ↦
      let (l, same) = load_job-IsLoaded s id row e in
      inr (
        row,
        e,
        ground (
          arith,
          e,
          same,
          cancel_by_status_lem now (get_status (load_job s row).events) (load_job s row) s c l,
        ),
      )
]
