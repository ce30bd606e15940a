-- ===== src/Server/Scheduler/Reports/Recorded.antt =====
-- server/scheduler/scheduler.go: whether the completed event of a job is in the table of events, as
-- `processEvent` finds it in the loaded job.
use mathlib.Core.Path.{subst}
use transcoderd.Prelude.{
  ℕ, ◌≡◌, refl, ap, ◌∙◌, Bool, true, false, ◌&&◌, ◌||◌, Option, none, some, List, [], ◌∷◌, ◌++◌,
  ◌==◌, ltb, any, keep, Bool-cases, inl, inr, ==_iff,
}
use transcoderd.Model.Events.{TaskEvent, Job, is_completed}
use transcoderd.Server.Repository.Store.{JobRow, Store, element_not_found, Result, ok, err}
use transcoderd.Server.Repository.Queries.{
  get_job, find_job, load_job, get_task_events, sort_by_time, insert_by_time, events_of,
}
use transcoderd.Server.Repository.Commands.{insert_event}
use transcoderd.Server.Repository.Loaded.{find_job-id}
use transcoderd.Server.Scheduler.Reports.{already_recorded}

any-insert_by_time :
    (p : TaskEvent → Bool) (e : TaskEvent) (xs : List TaskEvent)
    → any p (insert_by_time e xs) ≡ (p e || any p xs)
unfolding insert_by_time
any-insert_by_time p e [] = refl
any-insert_by_time p e (x ∷ xs) = elim (Bool-cases (ltb x.event_time e.event_time)) [
  | inl later ↦ rw (later, any-insert_by_time p e xs) (or_swap (p x) (p e) (any p xs))
  | inr first ↦ rw first refl
]
  where
    or_swap : (a b c : Bool) → (a || (b || c)) ≡ (b || (a || c))
    or_swap true true c = refl
    or_swap true false c = refl
    or_swap false true c = refl
    or_swap false false c = refl

any-sort_by_time : (p : TaskEvent → Bool) (xs : List TaskEvent) → any p (sort_by_time xs) ≡ any p xs
unfolding sort_by_time
any-sort_by_time p [] = refl
any-sort_by_time p (x ∷ xs) =
    any-insert_by_time p x (sort_by_time xs) ∙ ap (λ b. p x || b) (any-sort_by_time p xs)

any-keep :
    (p q : TaskEvent → Bool) (xs : List TaskEvent) → any p (keep q xs) ≡ any (λ x. q x && p x) xs
any-keep p q [] = refl
any-keep p q (x ∷ xs) = elim (Bool-cases (q x)) [
  | inl e ↦ rw e (ap (λ b. p x || b) (any-keep p q xs))
  | inr e ↦ rw e (any-keep p q xs)
]

abbrev pub is_completion : TaskEvent → TaskEvent → Bool
is_completion e x = (x.job_id == e.job_id) && ((x.event_id == e.event_id) && is_completed x)

-- The table has the event, by its job and its ID, as a completion.
unfoldable pub is_recorded : TaskEvent → Store → Bool
is_recorded e s = any (is_completion e) s.job_events

-- A job that is read has the events of the table.
Reads : ℕ → Store → Result Job → Type 0
Reads j s (err x) = Unit
Reads j s (ok v) = v.events ≡ get_task_events s j

found-Reads :
    (j : ℕ) (s : Store) (o : Option JobRow)
    → find_job j s.jobs ≡ o
    → Reads j s (elim o [ none ↦ err element_not_found | some row ↦ ok (load_job s row) ])
unfolding Reads load_job
found-Reads j s none e = tt
found-Reads j s (some row) e = ap (get_task_events s) (find_job-id j s.jobs row e).0

get_job-Reads : (j : ℕ) (s : Store) → Reads j s (get_job j s)
unfolding get_job
get_job-Reads j s = found-Reads j s (find_job j s.jobs) refl

pub already_recorded-stored :
    (e : TaskEvent) (s : Store) (v : Job)
    → get_job e.job_id s ≡ ok v
    → already_recorded e v ≡ is_recorded e s
unfolding Reads already_recorded is_recorded get_task_events
already_recorded-stored e s v h =
    let p : TaskEvent → Bool = λ x. (x.event_id == e.event_id) && is_completed x in
    ap (any p) (subst (Reads e.job_id s) h (get_job-Reads e.job_id s))
    ∙ any-sort_by_time p (events_of e.job_id s.job_events)
    ∙ any-keep p (λ x. x.job_id == e.job_id) s.job_events

any-snoc :
    (p : TaskEvent → Bool) (xs : List TaskEvent) (x : TaskEvent)
    → p x ≡ true
    → any p (xs ++ (x ∷ [])) ≡ true
any-snoc p [] x h = rw h refl
any-snoc p (y ∷ ys) x h = elim (Bool-cases (p y)) [
  | inl e ↦ rw e refl
  | inr e ↦ rw e (any-snoc p ys x h)
]

pub is_recorded-insert_event :
    (now : ℕ) (e : TaskEvent) (s : Store)
    → is_completed e ≡ true
    → is_recorded e (insert_event now e s) ≡ true
unfolding is_recorded insert_event is_completed
is_recorded-insert_event now e s h =
    any-snoc (is_completion e) s.job_events (record e { event_time = now })
      (rw ((==_iff e.job_id e.job_id).1 refl, (==_iff e.event_id e.event_id).1 refl) h)
