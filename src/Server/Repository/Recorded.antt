-- ===== src/Server/Repository/Recorded.antt =====
-- server/repository/repository.go: the tables after an event was added, and where it is refused.
use transcoderd.Prelude.{
  ℕ, ◌≡◌, ◌≢◌, refl, true, false, some, [], ◌∷◌, ◌++◌, arith, length, ◌==◌, ==_iff, Bool-cases, inl,
  inr,
}
use transcoderd.Model.Events.{TaskEvent}
use transcoderd.Server.Repository.Store.{
  Store, foreign_key_violation, event_id_mismatch, Result, ok, err,
}
use transcoderd.Server.Repository.Queries.{events_of}
use transcoderd.Server.Repository.Commands.{has_job, insert_event, add_new_task_event}
use transcoderd.Server.Repository.Invariant.{IsConsistent, status_row}
use transcoderd.Server.Repository.Invariant.Numbering.{
  events_of-snoc, next_id-length, find-update_status,
}

-- The tables with one more event, the last of its job and in the job's status row; those of other
-- jobs, and all other tables, are the same.
pub record Appended (row : TaskEvent) (s t : Store) : Type 0 where
  pub jobs_same : t.jobs ≡ s.jobs
  pub progress_same : t.job_progress ≡ s.job_progress
  pub last_event :
      events_of row.job_id t.job_events ≡ events_of row.job_id s.job_events ++ (row ∷ [])
  pub status : status_row row.job_id t ≡ some row
  pub other_events : (j : ℕ) → row.job_id ≢ j → events_of j t.job_events ≡ events_of j s.job_events
  pub other_status : (j : ℕ) → row.job_id ≢ j → status_row j t ≡ status_row j s

-- What becomes of an event.
pub data Added (now : ℕ) (e : TaskEvent) (s : Store) : Store × Result (Unit {0}) → Type 0 where
  added :
      (t : Store)
      → length (events_of e.job_id s.job_events) ≡ e.event_id
      → has_job e.job_id s ≡ true
      → Appended (record e { event_time = now }) s t
      → Added now e s (t, ok tt)
  without_job :
      length (events_of e.job_id s.job_events) ≡ e.event_id
      → has_job e.job_id s ≡ false
      → Added now e s (s, err foreign_key_violation)
  of_other_id :
      length (events_of e.job_id s.job_events) ≢ e.event_id
      → Added now e s (s, err (event_id_mismatch e.event_id))

differs : (i j : ℕ) → i ≢ j → (i == j) ≡ false
differs i j h = elim (Bool-cases (i == j)) [ inl e ↦ absurd (h ((==_iff i j).0 e)) | inr e ↦ e ]

insert_event-Appended :
    (now : ℕ) (e : TaskEvent) (s : Store)
    → Appended (record e { event_time = now }) s (insert_event now e s)
unfolding insert_event
insert_event-Appended now e s =
    let row : TaskEvent = record e { event_time = now } in
    let own : (e.job_id == e.job_id) ≡ true = (==_iff e.job_id e.job_id).1 refl in
    record {
      jobs_same = refl;
      progress_same = refl;
      last_event = rw (events_of-snoc e.job_id s.job_events row, own) refl;
      status = rw (find-update_status e.job_id row s.job_status, own) refl;
      other_events = λ j h. rw (events_of-snoc j s.job_events row, differs e.job_id j h) refl;
      other_status = λ j h. rw (find-update_status j row s.job_status, differs e.job_id j h) refl;
    }

-- With consistent tables, an event is added exactly when its ID is the number of the events its
-- job has and the job exists: it is then, with the server's time, the job's last event and the
-- job's status row, and all else is the same. Otherwise the tables stay, and the error says which
-- of the two failed.
pub add_new_task_event-Added :
    (now : ℕ) (e : TaskEvent) (s : Store)
    → IsConsistent s
    → Added now e s (add_new_task_event now e s)
unfolding add_new_task_event
add_new_task_event-Added now e s v =
    let count = next_id-length (events_of e.job_id s.job_events) (v.numbered e.job_id) in
    elim (Bool-cases (length (events_of e.job_id s.job_events) == e.event_id)) [
      | inr other ↦ rw (count, other) (of_other_id (λ k. ground (arith, other, k)))
      | inl next ↦ elim (Bool-cases (has_job e.job_id s)) [
        | inl stored ↦
            rw (count, next, stored)
              (added (insert_event now e s) (ground (arith, next)) stored
                (insert_event-Appended now e s))
        | inr absent ↦ rw (count, next, absent) (without_job (ground (arith, next)) absent)
      ]
    ]
