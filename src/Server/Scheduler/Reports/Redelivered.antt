-- ===== src/Server/Scheduler/Reports/Redelivered.antt =====
-- server/scheduler/scheduler.go: a completed event that comes again, and when the source is removed.
use mathlib.Core.Path.{subst}
use transcoderd.Prelude.{ℕ, ◌≡◌, refl, ap, sym, ◌∙◌, true, some, any, ◌⊎◌, Bool-cases, inl, inr}
use transcoderd.Model.Events.{TaskEvent, Job, is_completed}
use transcoderd.Server.Files.Paths.{join}
use transcoderd.Server.Repository.Store.{JobRow, Store, Error, Result, ok, err}
use transcoderd.Server.Repository.Queries.{get_job, find_job, load_job}
use transcoderd.Server.Repository.Commands.{row_of, update_job}
use transcoderd.Server.Scheduler.Completion.{
  Host, World, Answer, done, failed, targeted, complete_job,
}
use transcoderd.Server.Scheduler.Completion.Outcome.{
  Completed, saved, unsaved, unwritten, complete_job-Completed,
}
use transcoderd.Server.Scheduler.Reports.{
  record_completed, remove_source, and_then, process_notification,
}
use transcoderd.Server.Scheduler.Reports.Reloaded.{get_job-found, get_job-update_job}
use transcoderd.Server.Scheduler.Reports.Recorded.{
  is_completion, is_recorded, already_recorded-stored,
}

pub Result-cases : (r : Result Job) → ((v : Job) × (r ≡ ok v)) ⊎ ((x : Error) × (r ≡ err x))
Result-cases (ok v) = inl (v, refl)
Result-cases (err x) = inr (x, refl)

-- The events and the status rows stay.
pub record SameEvents (s s' : Store) : Type 0 where
  pub job_events : s'.job_events ≡ s.job_events
  pub job_status : s'.job_status ≡ s.job_status

Completed-SameEvents :
    (h : Host) (v : Job) (w : World) (r : World × Answer)
    → Completed h v w r
    → SameEvents w.store r.0.store
unfolding update_job
Completed-SameEvents h v w r (saved p final file d a b) = record {
  job_events = refl;
  job_status = refl;
}
Completed-SameEvents h v w r (unsaved why d a b) = record { job_events = refl; job_status = refl }
Completed-SameEvents h v w r (unwritten final probed d a b) = record {
  job_events = refl;
  job_status = refl;
}

complete_job-SameEvents :
    (h : Host) (j : ℕ) (w : World) → SameEvents w.store (complete_job h j w).0.store
unfolding complete_job
complete_job-SameEvents h j w = elim (Result-cases (get_job j w.store)) [
  | inl (v, e) ↦ Completed-SameEvents h v w (complete_job h j w) (complete_job-Completed h j v w e)
  | inr (x, e) ↦ rw e (record { job_events = refl; job_status = refl })
]

is_recorded-same :
    (e : TaskEvent) (s s' : Store) → SameEvents s s' → is_recorded e s' ≡ is_recorded e s
unfolding is_recorded
is_recorded-same e s s' same = ap (any (is_completion e)) same.job_events

-- A completion that the table has is taken as recorded where its job is read.
recorded-done :
    (now : ℕ) (e : TaskEvent) (u : World) (row : JobRow)
    → is_recorded e u.store ≡ true
    → find_job e.job_id u.store.jobs ≡ some row
    → record_completed now e u ≡ (u, done)
unfolding record_completed
recorded-done now e u row h there =
    let read = get_job-found e.job_id u.store row there in
    rw (read, already_recorded-stored e u.store (load_job u.store row) read ∙ h) refl

pub remove_source-keeps :
    (h : Host) (e : TaskEvent) (w : World) → (remove_source h e w).0.store ≡ w.store
unfolding remove_source
remove_source-keeps h e w = elim (Bool-cases h.delete_source_on_complete) [
  | inl on ↦ elim (Result-cases (get_job e.job_id w.store)) [
    | inl (v, k) ↦ elim (Bool-cases (h.remove_denied (join h.source_root v.source_path))) [
      | inl denied ↦ rw (on, k, denied) refl
      | inr allowed ↦ rw (on, k, allowed) refl
    ]
    | inr (x, k) ↦ rw (on, k) refl
  ]
  | inr off ↦ rw off refl
]

again-Completed :
    (h : Host) (now : ℕ) (e : TaskEvent) (v : Job) (w : World) (r : World × Answer)
    → get_job e.job_id w.store ≡ ok v
    → is_recorded e w.store ≡ true
    → Completed h v w r
    → and_then (and_then r (record_completed now e)) (remove_source h e)
      ≡ and_then r (remove_source h e)
unfolding targeted
again-Completed h now e v w r read known (saved p final file d a b) =
    let u : World = record {
      store = (update_job (targeted h v p final file) w.store).0;
      disk = d;
    } in
    let same = Completed-SameEvents h v w (u, done) (saved p final file d a b) in
    ap (λ x. and_then x (remove_source h e))
      (recorded-done now e u (row_of (targeted h v p final file))
        (is_recorded-same e w.store u.store same ∙ known)
        (get_job-update_job e.job_id w.store v (targeted h v p final file) read refl))
again-Completed h now e v w r read known (unsaved why d a b) = refl
again-Completed h now e v w r read known (unwritten final probed d a b) = refl

-- The events and status rows after the source may have been removed.
and_then-SameEvents :
    (h : Host) (e : TaskEvent) (s : Store) (r : World × Answer)
    → SameEvents s r.0.store
    → SameEvents s (and_then r (remove_source h e)).0.store
and_then-SameEvents h e s (w, done) same =
    subst (SameEvents s) (sym (remove_source-keeps h e w)) same
and_then-SameEvents h e s (w, failed why) same = same

-- A completed event that the table of events has already is answered, when it comes again, as the
-- completion of its job and the removal of the source are, never with an error of the event;
-- events and status rows stay as they are.
pub process_notification-again :
    (h : Host) (now : ℕ) (e : TaskEvent) (w : World)
    → is_completed e ≡ true
    → is_recorded e w.store ≡ true
    → let r = process_notification h now e w in
      (r ≡ and_then (complete_job h e.job_id w) (remove_source h e)) × SameEvents w.store r.0.store
unfolding process_notification complete_job
process_notification-again h now e w completed known =
    let same : (process_notification h now e w)
        ≡ and_then (complete_job h e.job_id w) (remove_source h e) =
      rw completed answered in
    (
      same,
      subst (λ r. SameEvents w.store r.0.store) (sym same)
          (and_then-SameEvents h e w.store (complete_job h e.job_id w)
            (complete_job-SameEvents h e.job_id w)),
    )
  where
    answered :
        and_then (and_then (complete_job h e.job_id w) (record_completed now e)) (remove_source h e)
        ≡ and_then (complete_job h e.job_id w) (remove_source h e)
    answered = elim (Result-cases (get_job e.job_id w.store)) [
      | inr (x, k) ↦ rw k refl
      | inl (v, k) ↦
          again-Completed h now e v w (complete_job h e.job_id w) k known
            (complete_job-Completed h e.job_id v w k)
    ]
