-- ===== src/Server/Repository/Loaded.antt =====
-- Jobs as the repository loads them, and the events that may be appended to them.
use transcoderd.Prelude.{
  ℕ, ◌≡◌, refl, sym, ap, ◌∙◌, inl, inr, true, some, List, [], ◌∷◌, arith, length, any, ◌==◌,
  Bool-cases,
}
use transcoderd.Model.Events.{TaskEvent, Job, get_latest, next_event_id}
use transcoderd.Model.Events.Latest.{bound, next_event_id-get_latest}
use transcoderd.Server.Repository.Store.{JobRow, Store, ok}
use transcoderd.Server.Repository.Queries.{events_of, get_task_events, load_job, find_job}
use transcoderd.Server.Repository.Commands.{has_job, insert_event, add_new_task_event}
use transcoderd.Server.Repository.Invariant.{IsConsistent}
use transcoderd.Server.Repository.Invariant.Numbering.{
  next_id-length, next_id-bound, bound-sort_by_time,
}

-- The job is in the tables, with the events that they have for it.
pub record IsLoaded (s : Store) (v : Job) : Type 0 where
  pub stored : has_job v.id s ≡ true
  pub read : v.events ≡ get_task_events s v.id

pub find_job-id :
    (j : ℕ) (rows : List JobRow) (row : JobRow)
    → find_job j rows ≡ some row
    → (row.id ≡ j) × (any (λ r. r.id == j) rows ≡ true)
unfolding find_job
find_job-id j [] row h = cc
find_job-id j (r ∷ rs) row h = elim (Bool-cases (r.id == j)) [
  | inl same ↦ (ground arith, ground arith)
  | inr other ↦ let (i, k) = find_job-id j rs row (rw other at h) in (i, ground arith)
]

pub find_job-known :
    (j : ℕ) (rows : List JobRow)
    → any (λ r. r.id == j) rows ≡ true
    → (row : JobRow) × (find_job j rows ≡ some row)
unfolding find_job
find_job-known j [] h = cc
find_job-known j (r ∷ rs) h = elim (Bool-cases (r.id == j)) [
  | inl same ↦ (r, rw same)
  | inr other ↦ let (row, e) = find_job-known j rs (ground arith) in (row, rw other e)
]

pub load_job-IsLoaded :
    (s : Store) (j : ℕ) (row : JobRow)
    → find_job j s.jobs ≡ some row
    → IsLoaded s (load_job s row) × ((load_job s row).id ≡ j)
unfolding load_job
load_job-IsLoaded s j row h =
    let (i, k) = find_job-id j s.jobs row h in (record { stored = ground arith; read = refl }, i)

-- The ID of the next event of a loaded job is the number of its events.
pub next_event_id-loaded :
    (s : Store) (v : Job)
    → IsConsistent s
    → IsLoaded s v
    → next_event_id (get_latest v.events) ≡ length (events_of v.id s.job_events)
unfolding get_task_events
next_event_id-loaded s v c l =
    next_event_id-get_latest v.events
    ∙ ap bound l.read
    ∙ bound-sort_by_time (events_of v.id s.job_events)
    ∙ sym (next_id-bound (events_of v.id s.job_events))
    ∙ next_id-length (events_of v.id s.job_events) (c.numbered v.id)

-- With consistent tables, an event that carries the next ID of a job as it was loaded is recorded.
pub add_new_task_event-loaded :
    (now : ℕ) (s : Store) (v : Job) (e : TaskEvent)
    → IsConsistent s
    → IsLoaded s v
    → e.job_id ≡ v.id
    → e.event_id ≡ next_event_id (get_latest v.events)
    → add_new_task_event now e s ≡ (insert_event now e s, ok tt)
unfolding add_new_task_event
add_new_task_event-loaded now s v e c l i n = ground (
  arith,
  next_event_id-loaded s v c l,
  next_id-length (events_of e.job_id s.job_events) (c.numbered e.job_id),
  l.stored,
  i,
  n,
)
