-- ===== src/Server/Scheduler/Intake/Outcome.antt =====
-- What `scheduleJobRequestLocked` (server/scheduler/scheduler.go) leaves behind.
use transcoderd.Prelude.{
  ℕ, ◌≡◌, refl, ◌⊎◌, inl, inr, Bool, true, false, Option, none, some, List, [], ◌∷◌, arith, last,
  String,
}
use transcoderd.Model.Events.{job, queued, canceled, TaskEvent, Job, add_event}
use transcoderd.Server.Repository.Store.{
  Store, Result, ok, err, M, bind_result, pure, ◌>>=◌, with_transaction, roll_back,
}
use transcoderd.Server.Repository.Queries.{get_job_by_path, has_status}
use transcoderd.Server.Repository.Commands.{insert_event, add_new_task_event, add_job, update_job}
use transcoderd.Server.Repository.Invariant.{status_row}
use transcoderd.Server.Repository.Invariant.Numbering.{find-update_status}
use transcoderd.Server.Repository.Statements.{
  Keeps, Keeps-bind, Keeps-query, Keeps-pure, Keeps-fail, Keeps-transaction, Keeps-event,
  Keeps-add_job, Keeps-update_job,
}
use transcoderd.Server.Scheduler.Intake.{
  JobRequest, Outside, cancel_and_requeue, requeue, update_job_by_request, fresh_job, new_job,
  refresh, add_events, schedule_found, schedule_in_transaction, schedule_job_request,
}

pub bind-ok :
    {A B : Type 0} (r : Store × Result A) (f : A → M B) {t : Store} {b : B}
    → bind_result r f ≡ (t, ok b)
    → (s : Store) × (a : A) × (r ≡ (s, ok a)) × (f a s ≡ (t, ok b))
bind-ok (s, ok a) f h = (s, a, refl, h)
bind-ok (s, err e) f h = absurd (ground (arith, h))

Keeps-add_events : (now : ℕ) (es : List TaskEvent) → Keeps (add_events now es)
unfolding add_events
Keeps-add_events now [] = Keeps-pure tt
Keeps-add_events now (e ∷ es) = Keeps-bind (Keeps-event now e) λ _. Keeps-add_events now es

Keeps-refresh : (r : JobRequest) (v : Job) (p : Option String) → Keeps (refresh r v p)
unfolding refresh
Keeps-refresh r v none = Keeps-pure v
Keeps-refresh r v (some p) = Keeps-bind (Keeps-update_job _) λ _. Keeps-pure _

Keeps-schedule_found :
    (o : Outside) (r : JobRequest) (found : Option Job) → Keeps (schedule_found o r found)
unfolding schedule_found new_job
Keeps-schedule_found o r none = Keeps-bind (Keeps-add_job _) λ _. Keeps-pure _
Keeps-schedule_found o r (some v) =
    Keeps-bind (Keeps-query (λ _. update_job_by_request o.now v r))
      λ p. Keeps-bind (Keeps-refresh r p.0 r.source_probe) λ v''. Keeps-pure (v'', p.1)

-- An intake keeps the tables consistent, whether it succeeds or fails.
pub Keeps-schedule_job_request :
    (o : Outside) (stopped : Bool) (r : JobRequest) → Keeps (schedule_job_request o stopped r)
unfolding schedule_job_request schedule_in_transaction
Keeps-schedule_job_request o true r = Keeps-fail _
Keeps-schedule_job_request o false r = Keeps-transaction (
    Keeps-bind (Keeps-query (get_job_by_path r.source_path)) λ found.
      Keeps-bind (Keeps-schedule_found o r found)
        λ p. Keeps-bind (Keeps-add_events o.now p.1) λ _. Keeps-pure p.0)

add_new_task_event-ok :
    (now : ℕ) (e : TaskEvent) (s t : Store) {u : Unit {0}}
    → add_new_task_event now e s ≡ (t, ok u)
    → t ≡ insert_event now e s
unfolding add_new_task_event
add_new_task_event-ok now e s t h = ground arith

-- The job's row shows the last of the events that were added.
add_events-last :
    (now : ℕ) (es : List TaskEvent) (s t : Store) {u : Unit {0}} (e : TaskEvent)
    → add_events now es s ≡ (t, ok u)
    → last es ≡ some e
    → status_row e.job_id t ≡ some (record e { event_time = now })
unfolding add_events insert_event
add_events-last now [] s t e h l = cc
add_events-last now (x ∷ []) s t e h l =
    let (s', a, p, q) = bind-ok (add_new_task_event now x s) (λ _. add_events now []) h in
    let tables = add_new_task_event-ok now x s s' p in
    ground (
      arith,
      q,
      tables,
      l,
      find-update_status e.job_id (record x { event_time = now }) s.job_status,
    )
add_events-last now (x ∷ y ∷ ys) s t e h l =
    let (s', a, p, q) = bind-ok (add_new_task_event now x s) (λ _. add_events now (y ∷ ys)) h in
    add_events-last now (y ∷ ys) s' t e q l

-- The events end with one that queues the job.
abbrev EndsQueued : ℕ → List TaskEvent → Type 0
EndsQueued id es =
    (e : TaskEvent) × (last es ≡ some e) × (e.job_id ≡ id) × (has_status job queued e ≡ true)

requeue-EndsQueued : (now : ℕ) (v : Job) → EndsQueued v.id (requeue now v).1
unfolding requeue add_event
requeue-EndsQueued now v = ((add_event v now job queued).1, refl, refl, refl)

cancel_and_requeue-EndsQueued : (now : ℕ) (v : Job) → EndsQueued v.id (cancel_and_requeue now v).1
unfolding cancel_and_requeue add_event
cancel_and_requeue-EndsQueued now v =
    ((add_event (add_event v now job canceled).0 now job queued).1, refl, refl, refl)

requeue_id : (now : ℕ) (v : Job) → (requeue now v).0.id ≡ v.id
unfolding requeue add_event
requeue_id now v = refl

cancel_and_requeue_id : (now : ℕ) (v : Job) → (cancel_and_requeue now v).0.id ≡ v.id
unfolding cancel_and_requeue add_event
cancel_and_requeue_id now v = refl

-- A retry is one of two lists of events, by the status of the last `Job` event.
update_job_by_request-cases :
    (now : ℕ) (v : Job) (r : JobRequest) (p : Job × List TaskEvent)
    → update_job_by_request now v r ≡ ok p
    → (p ≡ cancel_and_requeue now v) ⊎ (p ≡ requeue now v)
unfolding update_job_by_request
update_job_by_request-cases now v r p h = ground arith

update_job_by_request-EndsQueued :
    (now : ℕ) (v : Job) (r : JobRequest) (p : Job × List TaskEvent)
    → update_job_by_request now v r ≡ ok p
    → EndsQueued v.id p.1 × (p.0.id ≡ v.id)
update_job_by_request-EndsQueued now v r p h = elim (update_job_by_request-cases now v r p h) [
  | inl e ↦ rw e (cancel_and_requeue-EndsQueued now v, cancel_and_requeue_id now v)
  | inr e ↦ rw e (requeue-EndsQueued now v, requeue_id now v)
]

refresh_id :
    (r : JobRequest) (v w : Job) (probe : Option String) (s t : Store)
    → refresh r v probe s ≡ (t, ok w)
    → w.id ≡ v.id
unfolding refresh update_job
refresh_id r v w none s t h = ground arith
refresh_id r v w (some q) s t h = ground arith

schedule_found-EndsQueued :
    (o : Outside) (r : JobRequest) (found : Option Job) (s t : Store) (p : Job × List TaskEvent)
    → schedule_found o r found s ≡ (t, ok p)
    → EndsQueued p.0.id p.1
unfolding schedule_found new_job
schedule_found-EndsQueued o r none s t p h =
    let (s', a, e, f) =
      bind-ok (add_job (fresh_job o r) s) (λ _. pure (requeue o.now (fresh_job o r))) h in
    let same : p ≡ requeue o.now (fresh_job o r) = ground (arith, f) in
    rw (same, requeue_id o.now (fresh_job o r)) (requeue-EndsQueued o.now (fresh_job o r))
schedule_found-EndsQueued o r (some v) s t p h =
    let (s', q, e, f) =
      bind-ok {A = Job × List TaskEvent} (s, update_job_by_request o.now v r)
        (λ q. refresh r q.0 r.source_probe >>= λ v''. pure {A = Job × List TaskEvent} (v'', q.1))
        h in
    let (s'', w, e', f') =
      bind-ok (refresh r q.0 r.source_probe s') (λ v''. pure {A = Job × List TaskEvent} (v'', q.1))
        f in
    let updated : update_job_by_request o.now v r ≡ ok q = ground (arith, e) in
    let (ends, kept) = update_job_by_request-EndsQueued o.now v r q updated in
    let same : p ≡ (w, q.1) = ground (arith, f') in
    rw (same, refresh_id r q.0 w r.source_probe s' s'' e', kept) ends

roll_back-ok :
    {A : Type 0} (s t : Store) (x : Store × Result A) (a : A)
    → roll_back s x ≡ (t, ok a)
    → x ≡ (t, ok a)
roll_back-ok s t (u, ok b) a h = h
roll_back-ok s t (u, err e) a h = absurd (ground (arith, h))

added-queued :
    (now : ℕ) (p : Job × List TaskEvent) (s s' t : Store) (v : Job) {u : Unit {0}}
    → EndsQueued p.0.id p.1
    → add_events now p.1 s ≡ (s', ok u)
    → pure p.0 s' ≡ (t, ok v)
    → (e : TaskEvent) × (status_row v.id t ≡ some e) × (has_status job queued e ≡ true)
added-queued now p s s' t v (e, is_last, same, waiting) h k =
    let row = add_events-last now p.1 s s' e h is_last in
    (record e { event_time = now }, ground (arith, k, same, row), waiting)

schedule_in_transaction-queued :
    (o : Outside) (r : JobRequest) (s t : Store) (v : Job)
    → schedule_in_transaction o r s ≡ (t, ok v)
    → (e : TaskEvent) × (status_row v.id t ≡ some e) × (has_status job queued e ≡ true)
unfolding schedule_in_transaction
schedule_in_transaction-queued o r s t v h =
    let (s1, found, e1, f1) =
      bind-ok {A = Option Job} (s, get_job_by_path r.source_path s)
        (λ found.
          schedule_found o r found >>= λ p. add_events o.now p.1 >>= λ _. pure {A = Job} p.0)
        h in
    let (s2, p, e2, f2) =
      bind-ok (schedule_found o r found s1) (λ p. add_events o.now p.1 >>= λ _. pure {A = Job} p.0)
        f1 in
    let (s3, u, e3, f3) = bind-ok (add_events o.now p.1 s2) (λ _. pure {A = Job} p.0) f2 in
    added-queued o.now p s2 s3 t v (schedule_found-EndsQueued o r found s1 s2 p e2) e3 f3

-- A job request that succeeds leaves its job queued, whether the job is new or retried.
pub schedule_job_request-queued :
    (o : Outside) (stopped : Bool) (r : JobRequest) (s t : Store) (v : Job)
    → schedule_job_request o stopped r s ≡ (t, ok v)
    → (e : TaskEvent) × (status_row v.id t ≡ some e) × (has_status job queued e ≡ true)
unfolding schedule_job_request with_transaction
schedule_job_request-queued o true r s t v h = absurd (ground (arith, h))
schedule_job_request-queued o false r s t v h =
    schedule_in_transaction-queued o r s t v (roll_back-ok s t (schedule_in_transaction o r s) v h)
