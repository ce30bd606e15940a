-- ===== src/Examples/Jobs.antt =====
-- Concrete jobs and tables: two jobs that wait, and what the server does with them.
use transcoderd.Prelude.{
  ℕ, ◌+◌, ◌≡◌, ◌≢◌, ◌⊎◌, refl, Bool, true, false, none, some, List, [], ◌∷◌, String, length, All,
  if◌then◌else◌, ◌||◌,
}
use transcoderd.Model.Events.{
  job, queued, canceled, TaskEvent, Job, get_latest, next_event_id,
  get_latest_per_notification_type, add_event_complete, get_status, insert_by_id, sort_events,
  get_last_element, latest_loop, new_event, add_event,
}
use transcoderd.Server.Repository.Store.{
  JobRow, Store, ok, err, no_jobs_available, element_not_found, with_transaction,
}
use transcoderd.Server.Repository.Queries.{
  load_job, find_job, events_of, get_job_by_path, get_task_events, sort_by_time, insert_by_time,
  next_id, get_job, has_status, oldest, retrieve_queued_job,
}
use transcoderd.Server.Repository.Commands.{add_new_task_event, insert_event, update_status}
use transcoderd.Server.Repository.Invariant.{
  IsConsistent, add_new_task_event-IsConsistent, status_row,
}
use transcoderd.Server.Scheduler.Dispatch.{
  request_job, RequestJobResponse, assign, response, base, last_element, snoc, cancel_job,
}
use transcoderd.Server.Repository.Recorded.{Added, add_new_task_event-Added}
use transcoderd.Server.Repository.Loaded.{IsLoaded, load_job-IsLoaded}
use transcoderd.Server.Repository.Commands.{add_job}
use transcoderd.Server.Scheduler.Dispatch.Cancellation.{
  cancellation, is_running, answer, cancel_job-answers,
}
use transcoderd.Server.Scheduler.Intake.{
  Outside, JobRequest, forced_requeue, forced_restart, schedule_job_request,
  schedule_in_transaction, schedule_found, new_job, fresh_job, requeue, refresh, add_events,
}
use transcoderd.Server.Scheduler.Intake.Outcome.{schedule_job_request-queued}
use transcoderd.Server.Scheduler.Intake.Retry.{schedule_job_request-retry, own_event, is_ok}
use transcoderd.Server.Scheduler.Dispatch.Assignment.{Serves, request_job-Serves, request_job-twice}

abbrev row : ℕ → String → JobRow
row id path = record {
  id = id;
  source_path = path;
  target_path = "out.mkv";
  source_size = 1000;
  target_size = 0;
  source_probe = none;
  target_probe = none;
}

abbrev waiting : ℕ → ℕ → TaskEvent
waiting id now = record {
  job_id = id;
  event_id = 0;
  worker_name = "";
  event_time = now;
  notification_type = job;
  status = queued;
  message = "";
}

abbrev two_rows : Store
two_rows = record {
  jobs = row 1 "a.mkv" ∷ row 2 "b.mkv" ∷ [];
  job_events = [];
  job_status = [];
  job_progress = [];
}

two_rows-IsConsistent : IsConsistent two_rows
two_rows-IsConsistent = record {
  known = tt;
  numbered = λ j. tt;
  rows_known = tt;
  rows_keyed = tt;
  current = λ j. refl;
}

-- Job 2 waits since 10, job 1 since 20.
abbrev two_waiting : Store
two_waiting =
    (add_new_task_event 20 (waiting 1 20) (add_new_task_event 10 (waiting 2 10) two_rows).0).0

two_waiting-IsConsistent : IsConsistent two_waiting
two_waiting-IsConsistent =
    add_new_task_event-IsConsistent 20 (waiting 1 20) _
      (add_new_task_event-IsConsistent 10 (waiting 2 10) two_rows two_rows-IsConsistent)

request_job-Serves_example :
    (All (λ x. has_status job queued x ≡ false) two_waiting.job_status
      × (request_job 30 "w" two_waiting ≡ (two_waiting, err no_jobs_available)))
    ⊎ ((r : TaskEvent) × Serves 30 "w" two_waiting r)
request_job-Serves_example = request_job-Serves 30 "w" two_waiting two_waiting-IsConsistent

abbrev after_first : Store
after_first = (request_job 30 "w" two_waiting).0

abbrev after_second : Store
after_second = (request_job 40 "x" after_first).0

abbrev given : ℕ → String → RequestJobResponse
given id path = record { id = id; event_id = 1; name = path }

first_served : request_job 30 "w" two_waiting ≡ (after_first, ok (given 2 "b.mkv"))
unfolding request_job retrieve_queued_job oldest get_job find_job load_job get_task_events
    sort_by_time insert_by_time assign response base last_element snoc add_new_task_event
    insert_event update_status next_id add_event add_event_complete new_event get_latest sort_events
    insert_by_id get_last_element
first_served = refl

second_served : request_job 40 "x" after_first ≡ (after_second, ok (given 1 "a.mkv"))
unfolding request_job retrieve_queued_job oldest get_job find_job load_job get_task_events
    sort_by_time insert_by_time assign response base last_element snoc add_new_task_event
    insert_event update_status next_id add_event add_event_complete new_event get_latest sort_events
    insert_by_id get_last_element
second_served = refl

request_job-twice_example : (given 2 "b.mkv").id ≢ (given 1 "a.mkv").id
request_job-twice_example =
    request_job-twice 30 40 "w" "x" two_waiting after_first after_second (given 2 "b.mkv")
      (given 1 "a.mkv") two_waiting-IsConsistent first_served second_served

abbrev loaded : Job
loaded = load_job two_waiting (row 1 "a.mkv")

stored_row : find_job 1 two_waiting.jobs ≡ some (row 1 "a.mkv")
unfolding find_job add_new_task_event insert_event update_status next_id
stored_row = refl

abbrev next_of : ℕ → ℕ → TaskEvent
next_of id number = record (waiting id 50) { event_id = number; status = canceled }

add_new_task_event-Added_example :
    Added 50 (next_of 1 1) two_waiting (add_new_task_event 50 (next_of 1 1) two_waiting)
add_new_task_event-Added_example =
    add_new_task_event-Added 50 (next_of 1 1) two_waiting two_waiting-IsConsistent

add_new_task_event-IsConsistent_example :
    IsConsistent (add_new_task_event 50 (next_of 1 1) two_waiting).0
add_new_task_event-IsConsistent_example =
    add_new_task_event-IsConsistent 50 (next_of 1 1) two_waiting two_waiting-IsConsistent

loaded-IsLoaded : IsLoaded two_waiting loaded
loaded-IsLoaded = (load_job-IsLoaded two_waiting 1 (row 1 "a.mkv") stored_row).0

next_is_one : 1 ≡ next_event_id (get_latest loaded.events)
unfolding load_job get_task_events sort_by_time insert_by_time get_latest sort_events insert_by_id
    get_last_element add_new_task_event insert_event update_status next_id
next_is_one = refl

cancel_job-answers_example :
    ((find_job 1 two_waiting.jobs ≡ none)
      × (cancel_job 50 1 two_waiting ≡ (two_waiting, err element_not_found)))
    ⊎ ((r : JobRow) × (find_job 1 two_waiting.jobs ≡ some r)
        × (let st = get_status (load_job two_waiting r).events in
            let event = cancellation 50 1 (length (events_of 1 two_waiting.job_events)) in
            cancel_job 50 1 two_waiting ≡ (
              (if is_running st then insert_event 50 event two_waiting else two_waiting),
              err (answer st),
            )))
cancel_job-answers_example = cancel_job-answers 50 1 two_waiting two_waiting-IsConsistent

abbrev outside : Outside
outside = record { now = 60; new_id = 3; probe = some "{}" }

abbrev request_for : String → Bool → JobRequest
request_for path force = record {
  source_probe = none;
  source_path = path;
  force_completed = false;
  force_failed = false;
  force_canceled = force;
  force_assigned = false;
  source_size = 2000;
  target_path = "c_encoded.mkv";
}

abbrev after_request : Store
after_request = (schedule_job_request outside false (request_for "c.mkv" false) two_waiting).0

abbrev new_queued : Job
new_queued = (requeue 60 (fresh_job outside (request_for "c.mkv" false))).0

request_accepted :
    schedule_job_request outside false (request_for "c.mkv" false) two_waiting
    ≡ (after_request, ok new_queued)
unfolding schedule_job_request schedule_in_transaction schedule_found new_job fresh_job requeue
    refresh add_events with_transaction get_job_by_path add_job add_new_task_event insert_event
    update_status next_id add_event add_event_complete new_event get_latest sort_events insert_by_id
    get_last_element load_job get_task_events sort_by_time insert_by_time
request_accepted = refl

schedule_job_request-queued_example :
    (e : TaskEvent) × (status_row new_queued.id after_request ≡ some e)
    × (has_status job queued e ≡ true)
schedule_job_request-queued_example =
    schedule_job_request-queued outside false (request_for "c.mkv" false) two_waiting after_request
      new_queued request_accepted

-- Job 1 has been canceled before it was assigned.
abbrev canceled_store : Store
canceled_store = (add_new_task_event 50 (next_of 1 1) two_waiting).0

abbrev canceled_job : Job
canceled_job = load_job canceled_store (row 1 "a.mkv")

canceled_store-IsConsistent : IsConsistent canceled_store
canceled_store-IsConsistent =
    add_new_task_event-IsConsistent 50 (next_of 1 1) two_waiting two_waiting-IsConsistent

found_by_path : get_job_by_path "a.mkv" canceled_store ≡ ok (some canceled_job)
unfolding get_job_by_path load_job get_task_events sort_by_time insert_by_time add_new_task_event
    insert_event update_status next_id
found_by_path = refl

last_is_canceled : get_latest_per_notification_type canceled_job.events job ≡ some (next_of 1 1)
unfolding get_latest_per_notification_type latest_loop load_job get_task_events sort_by_time
    insert_by_time add_new_task_event insert_event update_status next_id
last_is_canceled = refl

schedule_job_request-retry_example :
    let r = request_for "a.mkv" true in
    let count = length (events_of 1 canceled_store.job_events) in
    ((schedule_job_request outside false r canceled_store).0 ≡ (
      if forced_restart r canceled
      then insert_event 60
          (own_event 60 1 (count + 1) queued)
          (insert_event 60 (own_event 60 1 count canceled) canceled_store)
      else if forced_requeue r canceled
      then insert_event 60 (own_event 60 1 count queued) canceled_store
      else canceled_store))
    × (is_ok (schedule_job_request outside false r canceled_store).1
        ≡ forced_restart r canceled || forced_requeue r canceled)
unfolding load_job
schedule_job_request-retry_example =
    schedule_job_request-retry outside (request_for "a.mkv" true) canceled_store canceled_job
      (next_of 1 1) canceled_store-IsConsistent found_by_path last_is_canceled refl

-- Two events of a job, the later one first.
abbrev two_events : List TaskEvent
two_events = next_of 1 1 ∷ waiting 1 20 ∷ []
