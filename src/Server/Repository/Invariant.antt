-- ===== src/Server/Repository/Invariant.antt =====
-- What every statement of server/repository/repository.go keeps of the tables.
pub mod Numbering
use transcoderd.Prelude.{
  ℕ, suc, ◌+◌, ◌≡◌, refl, sym, ap, ◌∙◌, Bool, true, false, ◌||◌, Option, none, some, List, [], ◌∷◌,
  ◌++◌, arith, length, keep, find, last, last-snoc, any, All, All-append, ◌==◌, if◌then◌else◌,
  Bool-cases, inl, inr,
}
use transcoderd.Model.Events.{TaskEvent, Job}
use transcoderd.Server.Repository.Store.{
  JobRow, Store, Error, event_id_mismatch, foreign_key_violation, Result, ok, err, TaskProgress,
}
use transcoderd.Server.Repository.Queries.{events_of, next_id}
use transcoderd.Server.Repository.Commands.{
  has_job, update_status, insert_event, add_new_task_event, row_of, add_job, update_rows,
  update_job,
}
use Numbering.{IsNumbered, events_of-snoc, IsNumbered-snoc, next_id-length, find-update_status}

-- The row of a job in `job_status`.
abbrev pub status_row : ℕ → Store → Option TaskEvent
status_row j s = find (λ r. r.job_id == j) s.job_status

abbrev pub KnowsJob : List JobRow → TaskEvent → Type 0
KnowsJob rows e = any (λ r. r.id == e.job_id) rows ≡ true

-- One row for each job.
abbrev pub IsKeyed : List TaskEvent → Type 0
IsKeyed [] = Unit
IsKeyed (r ∷ rs) = (find (λ x. x.job_id == r.job_id) rs ≡ none) × IsKeyed rs

pub record IsConsistent (s : Store) : Type 0 where
  pub known : All (KnowsJob s.jobs) s.job_events
  pub numbered : (j : ℕ) → IsNumbered 0 (events_of j s.job_events)
  pub rows_known : All (KnowsJob s.jobs) s.job_status
  pub rows_keyed : IsKeyed s.job_status
  pub current : (j : ℕ) → status_row j s ≡ last (events_of j s.job_events)

insert_event-IsNumbered :
    (now : ℕ) (e : TaskEvent) (s : Store) (j : ℕ)
    → IsConsistent s
    → next_id (events_of e.job_id s.job_events) ≡ e.event_id
    → IsNumbered 0 (events_of j (insert_event now e s).job_events)
unfolding insert_event
insert_event-IsNumbered now e s j v h = elim (Bool-cases (e.job_id == j)) [
  | inl same ↦
      rw (events_of-snoc j s.job_events (record e { event_time = now }), same)
        (IsNumbered-snoc 0 (events_of j s.job_events) (record e { event_time = now }) (v.numbered j)
          (ground (arith, h, next_id-length (events_of j s.job_events) (v.numbered j))))
  | inr other ↦
      rw (events_of-snoc j s.job_events (record e { event_time = now }), other) (v.numbered j)
]

insert_event-current :
    (now : ℕ) (e : TaskEvent) (s : Store) (j : ℕ)
    → IsConsistent s
    → status_row j (insert_event now e s) ≡ last (events_of j (insert_event now e s).job_events)
unfolding insert_event
insert_event-current now e s j v = ground (
  arith,
  find-update_status j (record e { event_time = now }) s.job_status,
  events_of-snoc j s.job_events (record e { event_time = now }),
  last-snoc (events_of j s.job_events) (record e { event_time = now }),
  v.current j,
)

update_status-KnowsJob :
    (rows : List JobRow) (e : TaskEvent) (rs : List TaskEvent)
    → KnowsJob rows e
    → All (KnowsJob rows) rs
    → All (KnowsJob rows) (update_status e rs)
unfolding update_status
update_status-KnowsJob rows e [] k h = (k, tt)
update_status-KnowsJob rows e (r ∷ rs) k h = elim (Bool-cases (r.job_id == e.job_id)) [
  | inl same ↦ rw same (k, h.1)
  | inr other ↦ rw other (h.0, update_status-KnowsJob rows e rs k h.1)
]

update_status-IsKeyed :
    (e : TaskEvent) (rs : List TaskEvent) → IsKeyed rs → IsKeyed (update_status e rs)
unfolding update_status
update_status-IsKeyed e [] h = (refl, tt)
update_status-IsKeyed e (r ∷ rs) h = elim (Bool-cases (r.job_id == e.job_id)) [
  | inl same ↦ rw same (ground (arith, h.0), h.1)
  | inr other ↦
      rw other
        (ground (arith, find-update_status r.job_id e rs, h.0), update_status-IsKeyed e rs h.1)
]

pub insert_event-IsConsistent :
    (now : ℕ) (e : TaskEvent) (s : Store)
    → IsConsistent s
    → next_id (events_of e.job_id s.job_events) ≡ e.event_id
    → has_job e.job_id s ≡ true
    → IsConsistent (insert_event now e s)
unfolding insert_event
insert_event-IsConsistent now e s v h k = record {
  known =
      All-append (KnowsJob s.jobs) s.job_events (record e { event_time = now } ∷ []) v.known
        (k, tt);
  numbered = λ j. insert_event-IsNumbered now e s j v h;
  rows_known =
      update_status-KnowsJob s.jobs (record e { event_time = now }) s.job_status k v.rows_known;
  rows_keyed = update_status-IsKeyed (record e { event_time = now }) s.job_status v.rows_keyed;
  current = λ j. insert_event-current now e s j v;
}

-- With consistent tables, an event is recorded exactly when its ID is the number of the events its
-- job has and the job exists; else the tables stay and the error says which of the two failed.
pub add_new_task_event-cases :
    (now : ℕ) (e : TaskEvent) (s : Store)
    → IsConsistent s
    → add_new_task_event now e s ≡ (
        if length (events_of e.job_id s.job_events) == e.event_id
        then if has_job e.job_id s
          then (insert_event now e s, ok tt)
          else (s, err foreign_key_violation)
        else (s, err (event_id_mismatch e.event_id)))
unfolding add_new_task_event
add_new_task_event-cases now e s v =
    rw (next_id-length (events_of e.job_id s.job_events) (v.numbered e.job_id))

-- AddNewTaskEvent keeps the tables consistent, whether it records the event or not: events and
-- status rows of known jobs, the events of a job numbered without gaps, one status row per job,
-- equal to its last event.
pub add_new_task_event-IsConsistent :
    (now : ℕ) (e : TaskEvent) (s : Store)
    → IsConsistent s
    → IsConsistent (add_new_task_event now e s).0
unfolding add_new_task_event
add_new_task_event-IsConsistent now e s v =
    elim (Bool-cases (next_id (events_of e.job_id s.job_events) == e.event_id)) [
      | inl next ↦ elim (Bool-cases (has_job e.job_id s)) [
        | inl known ↦ rw (next, known) (insert_event-IsConsistent now e s v (ground arith) known)
        | inr unknown ↦ rw (next, unknown) v
      ]
      | inr other ↦ rw other v
    ]

any-append :
    (j : ℕ) (rows : List JobRow) (row : JobRow)
    → any (λ r. r.id == j) rows ≡ true
    → any (λ r. r.id == j) (rows ++ (row ∷ [])) ≡ true
any-append j [] row h = cc
any-append j (r ∷ rs) row h = ground (arith, any-append j rs row)

any-update_rows :
    (j : ℕ) (row : JobRow) (rows : List JobRow)
    → any (λ r. r.id == j) (update_rows row rows) ≡ any (λ r. r.id == j) rows
unfolding update_rows
any-update_rows j row [] = refl
any-update_rows j row (r ∷ rs) = ground (arith, any-update_rows j row rs)

All-KnowsJob :
    (before after : List JobRow) (es : List TaskEvent)
    → ((j : ℕ) → any (λ r. r.id == j) before ≡ true → any (λ r. r.id == j) after ≡ true)
    → All (KnowsJob before) es
    → All (KnowsJob after) es
All-KnowsJob before after [] f h = tt
All-KnowsJob before after (e ∷ es) f h = (f e.job_id h.0, All-KnowsJob before after es f h.1)

pub add_job-IsConsistent : (v : Job) (s : Store) → IsConsistent s → IsConsistent (add_job v s).0
unfolding add_job
add_job-IsConsistent v s h = elim (Bool-cases (has_job v.id s)) [
  | inl there ↦ rw there h
  | inr fresh ↦ rw fresh (record {
    known =
        All-KnowsJob s.jobs (s.jobs ++ (row_of v ∷ [])) s.job_events
          (λ j. any-append j s.jobs (row_of v)) h.known;
    numbered = h.numbered;
    rows_known =
        All-KnowsJob s.jobs (s.jobs ++ (row_of v ∷ [])) s.job_status
          (λ j. any-append j s.jobs (row_of v)) h.rows_known;
    rows_keyed = h.rows_keyed;
    current = h.current;
  })
]

pub update_job-IsConsistent :
    (v : Job) (s : Store) → IsConsistent s → IsConsistent (update_job v s).0
unfolding update_job
update_job-IsConsistent v s h = record {
  known =
      All-KnowsJob s.jobs (update_rows (row_of v) s.jobs) s.job_events
        (λ j k. any-update_rows j (row_of v) s.jobs ∙ k) h.known;
  numbered = h.numbered;
  rows_known =
      All-KnowsJob s.jobs (update_rows (row_of v) s.jobs) s.job_status
        (λ j k. any-update_rows j (row_of v) s.jobs ∙ k) h.rows_known;
  rows_keyed = h.rows_keyed;
  current = h.current;
}
