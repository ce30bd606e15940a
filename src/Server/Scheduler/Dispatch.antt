-- ===== src/Server/Scheduler/Dispatch.antt =====
-- server/scheduler/scheduler.go: handing queued jobs to workers, cancelling them, and the test
-- whether a worker may stream a job.
pub mod Assignment
pub mod Cancellation
use Prim.Native.Char.{Char, code}
use transcoderd.Prelude.{
  ℕ, Bool, true, false, not, Option, none, some, List, [], ◌∷◌, String, str_eq, ◌==◌, if◌then◌else◌,
}
use transcoderd.Model.Events.{
  NotificationStatus, job, queued, assigned, started, completed, canceled, failed, TaskEvent, Job,
  get_latest, get_latest_per_notification_type, get_status, add_event, add_event_complete,
  same_status,
}
use transcoderd.Server.Repository.Store.{
  Store, Error, element_not_found, no_jobs_available, already_completed, is_failed,
  already_canceled, unknown_state, nil_dereference, stream_not_allowed, Result, ok, err, M, pure,
  fail, query, ◌>>=◌, ◌>>◌,
}
use transcoderd.Server.Repository.Queries.{get_job, retrieve_queued_job}
use transcoderd.Server.Repository.Commands.{add_new_task_event}

pub record RequestJobResponse : Type 0 where
  pub id : ℕ
  pub event_id : ℕ
  pub name : String

unfoldable pub snoc : String → Char → String
snoc String.[] c = String.◌∷◌ c String.[]
snoc (String.◌∷◌ d s) c = String.◌∷◌ d (snoc s c)

-- The last element of a path, read from the left; `fresh` after a separator.
unfoldable pub last_element : String → Bool → String → String
unfolding snoc
last_element current fresh String.[] = current
last_element current fresh (String.◌∷◌ c s) =
    let separator = code c == b'/' in
    last_element (if separator then current else snoc (if fresh then "" else current) c) separator s

-- `filepath.Base`
unfoldable pub base : String → String
unfolding last_element
base path =
    let name = last_element "" true path in
    if str_eq path "" then "." else if str_eq name "" then "/" else name

-- The repository's "not found" is "no jobs" to the worker.
abbrev pub no_jobs : Result Job → Result Job
no_jobs (ok v) = ok v
no_jobs (err element_not_found) = err no_jobs_available
no_jobs (err e) = err e

unfoldable pub response : Job → Result RequestJobResponse
unfolding get_latest base
response v = elim (get_latest v.events) [
  | none ↦ err nil_dereference
  | some e ↦ ok (record { id = v.id; event_id = e.event_id; name = base v.source_path })
]

unfoldable pub assign : ℕ → String → Job → M RequestJobResponse
unfolding response
assign now worker_name video = do
  let (video', event) = add_event video now job assigned
  add_new_task_event now (record event { worker_name = worker_name })
  query (λ _. response video')

unfoldable pub request_job : ℕ → String → M RequestJobResponse
unfolding assign
request_job now worker_name = do
  video ← query (λ s. no_jobs (retrieve_queued_job s))
  assign now worker_name video

-- The `switch` of `CancelJob`. Its last two cases record the event and go on to the error below it.
unfoldable pub cancel_by_status : ℕ → Option NotificationStatus → Job → M (Unit {0})
cancel_by_status now none v = fail nil_dereference
cancel_by_status now (some completed) v = fail already_completed
cancel_by_status now (some failed) v = fail is_failed
cancel_by_status now (some canceled) v = fail already_canceled
cancel_by_status now (some queued) v = fail unknown_state
cancel_by_status now (some _) v = do
  let (_, event) = add_event_complete v now job canceled "Job canceled by user"
  add_new_task_event now event
  fail unknown_state

unfoldable pub cancel_job : ℕ → ℕ → M (Unit {0})
unfolding cancel_by_status
cancel_job now id = do v ← query (get_job id); cancel_by_status now (get_status v.events) v

unfoldable pub streamable : String → Job → Result Job
streamable worker_name v = elim (get_latest_per_notification_type v.events job) [
  | none ↦ err nil_dereference
  | some te ↦
      if not (same_status te.status started)
      then err stream_not_allowed
      else if not (str_eq te.worker_name worker_name)
      then err stream_not_allowed
      else ok v
]

unfoldable pub is_valid_stremeable_job : ℕ → String → M Job
unfolding streamable
is_valid_stremeable_job id worker_name = do
  v ← query (get_job id)
  query (λ _. streamable worker_name v)
