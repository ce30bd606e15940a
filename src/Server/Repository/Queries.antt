-- ===== src/Server/Repository/Queries.antt =====
-- The SELECT statements of server/repository/repository.go.
use transcoderd.Prelude.{
  ℕ, ◌+◌, Bool, ◌&&◌, ◌||◌, Option, none, some, List, [], ◌∷◌, String, str_eq, ◌==◌, ltb,
  if◌then◌else◌, keep, find,
}
use transcoderd.Model.Events.{
  NotificationType, job, NotificationStatus, queued, assigned, started, TaskEvent, Job, same_type,
  same_status,
}
use transcoderd.Server.Repository.Store.{
  JobRow, Store, element_not_found, Result, ok, err, TaskProgress,
}

abbrev pub events_of : ℕ → List TaskEvent → List TaskEvent
events_of j = keep (λ e. e.job_id == j)

-- ORDER BY event_time ASC; rows of one time in the order of their insertion.
unfoldable pub insert_by_time : TaskEvent → List TaskEvent → List TaskEvent
insert_by_time e [] = e ∷ []
insert_by_time e (x ∷ xs) =
    let rest = insert_by_time e xs in if ltb x.event_time e.event_time then x ∷ rest else e ∷ x ∷ xs

unfoldable pub sort_by_time : List TaskEvent → List TaskEvent
sort_by_time [] = []
sort_by_time (e ∷ es) = insert_by_time e (sort_by_time es)

unfoldable pub get_task_events : Store → ℕ → List TaskEvent
unfolding insert_by_time sort_by_time
get_task_events s j = sort_by_time (events_of j s.job_events)

-- The message of the job's row in `job_status`, of which the primary key allows one.
unfoldable pub get_job_status : Store → ℕ → String
get_job_status s j = elim (find (λ r. r.job_id == j) s.job_status) [
  | none ↦ ""
  | some r ↦ r.message
]

unfoldable pub load_job : Store → JobRow → Job
unfolding get_task_events get_job_status
load_job s row = record {
  id = row.id;
  source_path = row.source_path;
  target_path = row.target_path;
  source_size = row.source_size;
  target_size = row.target_size;
  source_probe = row.source_probe;
  target_probe = row.target_probe;
  events = get_task_events s row.id;
  status_message = get_job_status s row.id;
}

unfoldable pub find_job : ℕ → List JobRow → Option JobRow
find_job j = find (λ r. r.id == j)

unfoldable pub get_job : ℕ → Store → Result Job
unfolding find_job
get_job j s = elim (find_job j s.jobs) [
  | none ↦ err element_not_found
  | some row ↦ ok (load_job s row)
]

-- A job that is not found is no error here.
unfoldable pub get_job_by_path : String → Store → Result (Option Job)
get_job_by_path path s = elim (find (λ r. str_eq r.source_path path) s.jobs) [
  | none ↦ ok none
  | some row ↦ ok (some (load_job s row))
]

abbrev pub has_status : NotificationType → NotificationStatus → TaskEvent → Bool
has_status t st r = same_type r.notification_type t && same_status r.status st

-- ORDER BY event_time ASC LIMIT 1.
unfoldable pub oldest : List TaskEvent → Option TaskEvent
oldest [] = none
oldest (r ∷ rs) = elim (oldest rs) [
  | none ↦ some r
  | some o ↦ if ltb o.event_time r.event_time then some o else some r
]

unfoldable pub retrieve_queued_job : Store → Result Job
unfolding oldest
retrieve_queued_job s = elim (oldest (keep (has_status job queued) s.job_status)) [
  | none ↦ err element_not_found
  | some r ↦ get_job r.job_id s
]

-- INNER JOIN with the jobs, which the foreign key never leaves without a row; the probes are not
-- selected.
unfoldable pub join_jobs : Store → List TaskEvent → List Job
join_jobs s [] = []
join_jobs s (r ∷ rs) =
    let rest = join_jobs s rs in
    elim (find_job r.job_id s.jobs) [
      | none ↦ rest
      | some row ↦ record (load_job s row) { source_probe = none; target_probe = none } ∷ rest
    ]

-- ORDER BY event_time DESC.
unfoldable pub insert_latest : TaskEvent → List TaskEvent → List TaskEvent
insert_latest e [] = e ∷ []
insert_latest e (x ∷ xs) =
    let rest = insert_latest e xs in if ltb e.event_time x.event_time then x ∷ rest else e ∷ x ∷ xs

unfoldable pub sort_latest : List TaskEvent → List TaskEvent
sort_latest [] = []
sort_latest (e ∷ es) = insert_latest e (sort_latest es)

unfoldable pub get_jobs_by_status : NotificationType → NotificationStatus → Store → List Job
unfolding insert_latest sort_latest join_jobs
get_jobs_by_status t st s = join_jobs s (sort_latest (keep (has_status t st) s.job_status))

-- MAX(job_event_id) + 1 of the rows, and 0 where there is none (COALESCE(…, -1) + 1).
unfoldable pub next_id : List TaskEvent → ℕ
next_id [] = 0
next_id (e ∷ es) = let rest = next_id es in if ltb e.event_id rest then rest else e.event_id + 1

-- The row is its job's last event of type `Job`.
unfoldable pub is_last_job_event : Store → TaskEvent → Bool
unfolding next_id
is_last_job_event s v =
    next_id (keep (λ e. same_type e.notification_type job) (events_of v.job_id s.job_events))
    == v.event_id + 1

unfoldable pub get_timeout_jobs : ℕ → ℕ → Store → List TaskEvent
unfolding is_last_job_event
get_timeout_jobs now timeout s =
    keep
      (λ v.
        is_last_job_event s v
        && (same_status v.status assigned || same_status v.status started)
        && ltb (v.event_time + timeout) now)
      s.job_events

unfoldable pub get_all_progress_jobs : Store → List TaskProgress
get_all_progress_jobs s = s.job_progress
