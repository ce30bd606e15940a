-- ===== src/Server/Scheduler/Dispatch/Assignment.antt =====
-- What `RequestJob` (server/scheduler/scheduler.go) hands out.
use mathlib.Core.Path.{subst}
use transcoderd.Prelude.{
  ℕ, ◌+◌, ◌≤◌, ◌≡◌, ◌≢◌, refl, ap, ◌∙◌, ◌⊎◌, inl, inr, Bool, true, false, Option, none, some, List,
  [], ◌∷◌, ◌++◌, arith, length, find, All, ◌==◌, Bool-cases, Option-cases, keep, String,
}
use transcoderd.Model.Events.{
  job, queued, assigned, TaskEvent, Job, get_latest, next_event_id, add_event, sort_events,
}
use transcoderd.Model.Events.Latest.{bound, next_event_id-get_latest}
use transcoderd.Model.Events.Appended.{next_event_id-snoc}
use transcoderd.Server.Repository.Store.{JobRow, Store, no_jobs_available, ok, err}
use transcoderd.Server.Repository.Queries.{
  events_of, load_job, find_job, get_job, has_status, oldest, retrieve_queued_job,
}
use transcoderd.Server.Repository.Commands.{update_status, insert_event}
use transcoderd.Server.Repository.Invariant.{IsConsistent, KnowsJob, IsKeyed, status_row}
use transcoderd.Server.Repository.Invariant.Numbering.{find-update_status}
use transcoderd.Server.Repository.Loaded.{
  IsLoaded, load_job-IsLoaded, find_job-known, next_event_id-loaded, add_new_task_event-loaded,
}
use transcoderd.Server.Repository.Statements.{
  Keeps, run_Keeps, Keeps-bind, Keeps-query, Keeps-event,
}
use transcoderd.Server.Scheduler.Dispatch.{RequestJobResponse, base, response, assign, request_job}

oldest-none : (rs : List TaskEvent) → oldest rs ≡ none → rs ≡ []
unfolding oldest
oldest-none [] h = refl
oldest-none (r ∷ rs) h = ground arith

abbrev NotBefore : ℕ → Option TaskEvent → Type 0
NotBefore n none = Unit
NotBefore n (some r) = n ≤ r.event_time

oldest-NotBefore :
    (n : ℕ) (q : TaskEvent → Bool) (rs : List TaskEvent)
    → NotBefore n (oldest (keep q rs))
    → All (λ x. q x ≡ true → n ≤ x.event_time) rs
unfolding oldest
oldest-NotBefore n q [] h = tt
oldest-NotBefore n q (x ∷ xs) h = elim (Bool-cases (q x)) [
  | inl wanted ↦ elim (Option-cases (oldest (keep q xs))) [
    | inl e ↦ ((λ _. ground arith), oldest-NotBefore n q xs (rw e tt))
    | inr (r, e) ↦ ((λ _. ground arith), oldest-NotBefore n q xs (rw e (ground arith)))
  ]
  | inr unwanted ↦ ((λ p. ground arith), oldest-NotBefore n q xs (rw unwanted at h))
]

oldest-find :
    (q : TaskEvent → Bool) (rs : List TaskEvent) (r : TaskEvent)
    → IsKeyed rs
    → oldest (keep q rs) ≡ some r
    → (find (λ x. x.job_id == r.job_id) rs ≡ some r) × (q r ≡ true)
unfolding oldest
oldest-find q [] r k h = cc
oldest-find q (x ∷ xs) r k h = elim (Option-cases (oldest (keep q xs))) [
  | inl e ↦ (ground (arith, e), ground (arith, e))
  | inr (o, e) ↦
      let (f, w) = oldest-find q xs o k.1 e in (ground (arith, e, f, w), ground (arith, e, f, w))
]

some_eq {ℓ} : {A : Type ℓ} {x y : A} → some x ≡ some y → x ≡ y
some_eq h = cc

find-All {κ} :
    (P : TaskEvent → Type κ) (p : TaskEvent → Bool) (rs : List TaskEvent) (r : TaskEvent)
    → All P rs
    → find p rs ≡ some r
    → P r
find-All P p [] r a h = cc
find-All P p (x ∷ xs) r a h = elim (Bool-cases (p x)) [
  | inl hit ↦ subst P (some_eq (rw hit at h)) a.0
  | inr miss ↦ find-All P p xs r a.1 (rw miss at h)
]

-- The event that an assignment records for a job with `count` events.
abbrev assignment : ℕ → ℕ → ℕ → String → TaskEvent
assignment now id count worker_name = record {
  job_id = id;
  event_id = count;
  worker_name = worker_name;
  event_time = now;
  notification_type = job;
  status = assigned;
  message = "";
}

response-snoc :
    (v : Job) (es : List TaskEvent) (e : TaskEvent)
    → v.events ≡ sort_events es ++ (e ∷ [])
    → e.event_id ≡ bound es
    → response v ≡ ok (record { id = v.id; event_id = e.event_id; name = base v.source_path })
unfolding response
response-snoc v es e h n = elim (Option-cases (get_latest v.events)) [
  | inl e ↦ absurd (omega (arith, last, ap next_event_id e))
  | inr (l, e) ↦ ground (arith, e, last, ap next_event_id e)
]
  where
    last : next_event_id (get_latest v.events) ≡ e.event_id + 1
    last = ap (λ l. next_event_id (get_latest l)) h ∙ next_event_id-snoc es e n

assign_lem :
    (now : ℕ) (worker_name : String) (v : Job) (s : Store)
    → IsConsistent s
    → IsLoaded s v
    → let count = length (events_of v.id s.job_events) in
      assign now worker_name v s ≡ (
        insert_event now (assignment now v.id count worker_name) s,
        ok (record { id = v.id; event_id = count; name = base v.source_path }),
      )
unfolding assign add_event
assign_lem now worker_name v s c l = ground (
  arith,
  next_event_id-loaded s v c l,
  add_new_task_event-loaded now s v
      (assignment now v.id (next_event_id (get_latest v.events)) worker_name) c l refl refl,
  response-snoc (add_event v now job assigned).0 v.events (add_event v now job assigned).1 refl
      (next_event_id-get_latest v.events),
)

keep-nil : (q : TaskEvent → Bool) (rs : List TaskEvent) → keep q rs ≡ [] → All (λ x. q x ≡ false) rs
keep-nil q [] h = tt
keep-nil q (x ∷ xs) h = elim (Bool-cases (q x)) [
  | inl wanted ↦ absurd (ground (arith, h, wanted))
  | inr unwanted ↦ (unwanted, keep-nil q xs (rw unwanted at h))
]

-- What a request of a worker does where `r` is the status row that it is served by.
pub record Serves (now : ℕ) (worker_name : String) (s : Store) (r : TaskEvent) : Type 0 where
  pub row : JobRow
  pub is_row : find_job r.job_id s.jobs ≡ some row
  pub is_status : status_row r.job_id s ≡ some r
  pub is_queued : has_status job queued r ≡ true
  pub is_oldest :
      All (λ x. has_status job queued x ≡ true → r.event_time ≤ x.event_time) s.job_status
  pub served :
      let count = length (events_of r.job_id s.job_events) in
      request_job now worker_name s ≡ (
        insert_event now (assignment now r.job_id count worker_name) s,
        ok (record { id = r.job_id; event_id = count; name = base row.source_path }),
      )

request_job-none :
    (now : ℕ) (worker_name : String) (s : Store)
    → oldest (keep (has_status job queued) s.job_status) ≡ none
    → request_job now worker_name s ≡ (s, err no_jobs_available)
unfolding request_job retrieve_queued_job
request_job-none now worker_name s e = ground (arith, e)

request_job-some :
    (now : ℕ) (worker_name : String) (s : Store) (r : TaskEvent) (row : JobRow)
    → oldest (keep (has_status job queued) s.job_status) ≡ some r
    → find_job r.job_id s.jobs ≡ some row
    → request_job now worker_name s ≡ assign now worker_name (load_job s row) s
unfolding request_job retrieve_queued_job get_job
request_job-some now worker_name s r row e f = ground (arith, e, f)

-- With consistent tables, RequestJob either finds no queued job, and then answers so and changes
-- nothing, or hands out the queued job that waits longest and records the assignment to that
-- worker as its next event.
pub request_job-Serves :
    (now : ℕ) (worker_name : String) (s : Store)
    → IsConsistent s
    → (All (λ x. has_status job queued x ≡ false) s.job_status
        × (request_job now worker_name s ≡ (s, err no_jobs_available)))
      ⊎ ((r : TaskEvent) × Serves now worker_name s r)
unfolding load_job
request_job-Serves now worker_name s c =
    elim (Option-cases (oldest (keep (has_status job queued) s.job_status))) [
      | inl e ↦ inl (
        keep-nil (has_status job queued) s.job_status (oldest-none _ e),
        request_job-none now worker_name s e,
      )
      | inr (r, e) ↦
          let (found, wanted) = oldest-find (has_status job queued) s.job_status r c.rows_keyed e in
          let (row, f) =
            find_job-known r.job_id s.jobs
              (find-All (KnowsJob s.jobs) _ s.job_status r c.rows_known found) in
          let (loaded, same) = load_job-IsLoaded s r.job_id row f in
          inr (
            r,
            record {
              row = row;
              is_row = f;
              is_status = found;
              is_queued = wanted;
              is_oldest =
                  oldest-NotBefore r.event_time (has_status job queued) s.job_status
                    (rw e (omega arith));
              served =
                  request_job-some now worker_name s r row e f
                  ∙ assign_lem now worker_name (load_job s row) s c loaded
                  ∙ rw same refl;
            },
          )
    ]

Keeps-request_job : (now : ℕ) (worker_name : String) → Keeps (request_job now worker_name)
unfolding request_job assign
Keeps-request_job now worker_name =
    Keeps-bind (Keeps-query _) λ video. Keeps-bind (Keeps-event now _) λ _. Keeps-query _

-- A served request leaves its job's row assigned; it was queued before.
request_job-rows :
    (now : ℕ) (worker_name : String) (s t : Store) (r : RequestJobResponse)
    → IsConsistent s
    → request_job now worker_name s ≡ (t, ok r)
    → ((before : TaskEvent) × (status_row r.id s ≡ some before)
        × (has_status job queued before ≡ true))
      × ((after : TaskEvent) × (status_row r.id t ≡ some after)
          × (has_status job queued after ≡ false))
unfolding insert_event
request_job-rows now worker_name s t r c h = elim (request_job-Serves now worker_name s c) [
  | inl (_, e) ↦ absurd (ground (arith, h, e))
  | inr (q, v) ↦
      let event = assignment now q.job_id (length (events_of q.job_id s.job_events)) worker_name in
      let id : r.id ≡ q.job_id = ground (arith, h, v.served) in
      let tables : t.job_status ≡ update_status event s.job_status = ground (arith, h, v.served) in
      (
        (q, rw id v.is_status, v.is_queued),
        (
          event,
          rw (id, tables) (find-update_status q.job_id event s.job_status ∙ ground arith),
          ground arith,
        ),
      )
]

-- With consistent tables, two requests in a row that are both served get different jobs.
pub request_job-twice :
    (now later : ℕ) (worker other : String) (s t u : Store) (first second : RequestJobResponse)
    → IsConsistent s
    → request_job now worker s ≡ (t, ok first)
    → request_job later other t ≡ (u, ok second)
    → first.id ≢ second.id
request_job-twice now later worker other s t u first second c h k same =
    let (_, (after, e, taken)) = request_job-rows now worker s t first c h in
    let d : IsConsistent t =
      subst IsConsistent (ap (λ x. x.0) h) (run_Keeps (Keeps-request_job now worker) s c) in
    let ((before, f, waiting), _) = request_job-rows later other t u second d k in
    ground (arith, e, f, ap (λ j. status_row j t) same)
