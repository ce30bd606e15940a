-- ===== src/Server/Scheduler/Intake/Retry.antt =====
-- Retries of a recorded job by `scheduleJobRequestLocked` (server/scheduler/scheduler.go).
use transcoderd.Prelude.{
  ℕ, ◌+◌, ◌≡◌, refl, sym, ap, ◌∙◌, inl, inr, Bool, true, false, ◌||◌, none, some, List, [], ◌∷◌,
  arith, length, ◌==◌, if◌then◌else◌, Bool-cases, Option-cases, String, any, find, str_eq,
  length-append,
}
use transcoderd.Model.Events.{
  NotificationStatus, job, queued, canceled, TaskEvent, Job, get_latest_per_notification_type,
  add_event, get_latest, next_event_id,
}
use transcoderd.Model.Events.Appended.{add_event_complete-next}
use transcoderd.Server.Repository.Store.{JobRow, Store, Result, ok, err, with_transaction}
use transcoderd.Server.Repository.Queries.{events_of, load_job, get_job_by_path}
use transcoderd.Server.Repository.Commands.{has_job, insert_event, add_new_task_event}
use transcoderd.Server.Repository.Invariant.{
  IsConsistent, insert_event-IsConsistent, add_new_task_event-cases,
}
use transcoderd.Server.Repository.Invariant.Numbering.{events_of-snoc, next_id-length}
use transcoderd.Server.Repository.Loaded.{IsLoaded, next_event_id-loaded}
use transcoderd.Server.Scheduler.Intake.{
  JobRequest, Outside, cancel_and_requeue, requeue, update_job_by_request, refresh, add_events,
  schedule_found, schedule_in_transaction, schedule_job_request, forced_requeue, forced_restart,
}

find_path-known :
    (path : String) (rows : List JobRow) (row : JobRow)
    → find (λ r. str_eq r.source_path path) rows ≡ some row
    → any (λ r. r.id == row.id) rows ≡ true
find_path-known path [] row h = cc
find_path-known path (r ∷ rs) row h = elim (Bool-cases (str_eq r.source_path path)) [
  | inl hit ↦ ground (arith, h, hit)
  | inr miss ↦ ground (arith, find_path-known path rs row (rw miss at h))
]

pub get_job_by_path-IsLoaded :
    (path : String) (s : Store) (v : Job) → get_job_by_path path s ≡ ok (some v) → IsLoaded s v
unfolding get_job_by_path load_job
get_job_by_path-IsLoaded path s v h =
    elim (Option-cases (find (λ r. str_eq r.source_path path) s.jobs)) [
      | inl e ↦ absurd (ground (arith, h, e))
      | inr (row, e) ↦ record {
        stored = ground (arith, h, e, find_path-known path s.jobs row e);
        read = ground (arith, h, e);
      }
    ]

-- A `Job` event of the scheduler's own.
abbrev pub own_event : ℕ → ℕ → ℕ → NotificationStatus → TaskEvent
own_event now id count status = record {
  job_id = id;
  event_id = count;
  worker_name = "";
  event_time = now;
  notification_type = job;
  status = status;
  message = "";
}

record_next :
    (now : ℕ) (e : TaskEvent) (s : Store)
    → IsConsistent s
    → has_job e.job_id s ≡ true
    → e.event_id ≡ length (events_of e.job_id s.job_events)
    → add_new_task_event now e s ≡ (insert_event now e s, ok tt)
record_next now e s c k n = ground (arith, add_new_task_event-cases now e s c)

count_next :
    (now : ℕ) (e : TaskEvent) (s : Store)
    → length (events_of e.job_id (insert_event now e s).job_events)
      ≡ length (events_of e.job_id s.job_events) + 1
unfolding insert_event
count_next now e s = ground (
  arith,
  events_of-snoc e.job_id s.job_events (record e { event_time = now }),
  length-append (events_of e.job_id s.job_events) (record e { event_time = now } ∷ []),
)

has_job-insert_event :
    (j now : ℕ) (e : TaskEvent) (s : Store) → has_job j (insert_event now e s) ≡ has_job j s
unfolding insert_event
has_job-insert_event j now e s = refl

record_after :
    (now : ℕ) (first second : TaskEvent) (s : Store)
    → IsConsistent s
    → has_job first.job_id s ≡ true
    → first.event_id ≡ length (events_of first.job_id s.job_events)
    → second.job_id ≡ first.job_id
    → second.event_id ≡ first.event_id + 1
    → add_new_task_event now second (insert_event now first s)
      ≡ (insert_event now second (insert_event now first s), ok tt)
record_after now first second s c k n same next =
    let id = first.job_id in
    let c' =
      insert_event-IsConsistent now first s c
        (next_id-length (events_of id s.job_events) (c.numbered id) ∙ sym n) k in
    record_next now second (insert_event now first s) c'
      (rw (same, has_job-insert_event id now first s) k)
      (rw (same, count_next now first s) (next ∙ ap (λ m. m + 1) n))

add_two :
    (now : ℕ) (first second : TaskEvent) (s : Store)
    → IsConsistent s
    → has_job first.job_id s ≡ true
    → first.event_id ≡ length (events_of first.job_id s.job_events)
    → second.job_id ≡ first.job_id
    → second.event_id ≡ first.event_id + 1
    → add_events now (first ∷ second ∷ []) s
      ≡ (insert_event now second (insert_event now first s), ok tt)
unfolding add_events
add_two now first second s c k n same next =
    ground (arith, record_next now first s c k n, record_after now first second s c k n same next)

add_one :
    (now : ℕ) (e : TaskEvent) (s : Store)
    → IsConsistent s
    → has_job e.job_id s ≡ true
    → e.event_id ≡ length (events_of e.job_id s.job_events)
    → add_events now (e ∷ []) s ≡ (insert_event now e s, ok tt)
unfolding add_events
add_one now e s c k n = ground (arith, record_next now e s c k n)

requeue_events :
    (now : ℕ) (v : Job) (s : Store)
    → IsConsistent s
    → IsLoaded s v
    → let count = length (events_of v.id s.job_events) in
      add_events now (requeue now v).1 s
      ≡ (insert_event now (own_event now v.id count queued) s, ok tt)
unfolding requeue add_event
requeue_events now v s c l =
    let n = next_event_id-loaded s v c l in
    add_one now (add_event v now job queued).1 s c l.stored n
    ∙ ap (λ k. (insert_event now (own_event now v.id k queued) s, ok tt)) n

cancel_and_requeue_events :
    (now : ℕ) (v : Job) (s : Store)
    → IsConsistent s
    → IsLoaded s v
    → let count = length (events_of v.id s.job_events) in
      add_events now (cancel_and_requeue now v).1 s ≡ (
        insert_event now
            (own_event now v.id (count + 1) queued)
            (insert_event now (own_event now v.id count canceled) s),
        ok tt,
      )
unfolding cancel_and_requeue add_event
cancel_and_requeue_events now v s c l =
    let n = next_event_id-loaded s v c l in
    let (i, m) = add_event_complete-next v now job canceled "" in
    let w = (add_event v now job canceled).0 in
    let k : next_event_id (get_latest w.events) ≡ next_event_id (get_latest v.events) + 1 =
      m ∙ ap (λ x. x + 1) (sym i) in
    add_two now (add_event v now job canceled).1 (add_event w now job queued).1 s c l.stored n refl
      k
    ∙ ap
        (λ x. (
          insert_event now (own_event now v.id x queued) (
              insert_event now (own_event now v.id (next_event_id (get_latest v.events)) canceled)
                s),
          ok tt,
        ))
        k
    ∙ ap
        (λ x. (
          insert_event now (own_event now v.id (x + 1) queued)
              (insert_event now (own_event now v.id x canceled) s),
          ok tt,
        ))
        n

abbrev pub is_ok : {A : Type 0} → Result A → Bool
is_ok (ok a) = true
is_ok (err e) = false

-- With consistent tables, a request without a probe for a recorded job cancels and queues an
-- assigned or started job if that is forced, queues a finished one if its state is forced, and
-- else fails and changes nothing.
pub schedule_job_request-retry :
    (o : Outside) (r : JobRequest) (s : Store) (v : Job) (last : TaskEvent)
    → IsConsistent s
    → get_job_by_path r.source_path s ≡ ok (some v)
    → get_latest_per_notification_type v.events job ≡ some last
    → r.source_probe ≡ none
    → let count = length (events_of v.id s.job_events) in
      ((schedule_job_request o false r s).0 ≡ (
        if forced_restart r last.status
        then insert_event o.now
            (own_event o.now v.id (count + 1) queued)
            (insert_event o.now (own_event o.now v.id count canceled) s)
        else if forced_requeue r last.status
        then insert_event o.now (own_event o.now v.id count queued) s
        else s))
      × (is_ok (schedule_job_request o false r s).1
          ≡ forced_restart r last.status || forced_requeue r last.status)
unfolding schedule_job_request schedule_in_transaction schedule_found with_transaction refresh
    update_job_by_request
schedule_job_request-retry o r s v last c found latest plain =
    let l = get_job_by_path-IsLoaded r.source_path s v found in
    let one = requeue_events o.now v s c l in
    let two = cancel_and_requeue_events o.now v s c l in
    elim (Bool-cases (forced_restart r last.status)) [
      | inl restart ↦ (ground (arith, restart, two), ground (arith, restart, two))
      | inr keep ↦ elim (Bool-cases (forced_requeue r last.status)) [
        | inl again ↦ (ground (arith, keep, again, one), ground (arith, keep, again, one))
        | inr refused ↦ (ground (arith, keep, refused), ground (arith, keep, refused))
      ]
    ]
