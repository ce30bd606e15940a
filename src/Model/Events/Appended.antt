-- ===== src/Model/Events/Appended.antt =====
-- Appending the next event to a job's list (`AddEventComplete`, model/model.go).
use transcoderd.Prelude.{
  ℕ, ◌+◌, ◌≡◌, ap, ◌∙◌, List, [], ◌∷◌, ◌++◌, arith, ltb, if◌then◌else◌, String,
}
use transcoderd.Model.Events.{
  TaskEvent, Job, NotificationType, NotificationStatus, sort_events, get_latest, next_event_id,
  add_event_complete,
}
use transcoderd.Model.Events.Latest.{bound, bound-sort, next_event_id-get_latest}

pub bound-snoc :
    (es : List TaskEvent) (e : TaskEvent)
    → bound (es ++ (e ∷ [])) ≡ (if ltb e.event_id (bound es) then bound es else e.event_id + 1)
bound-snoc [] e = ground arith
bound-snoc (x ∷ xs) e = ground (arith, bound-snoc xs e)

pub next_event_id-snoc :
    (es : List TaskEvent) (e : TaskEvent)
    → e.event_id ≡ bound es
    → next_event_id (get_latest (sort_events es ++ (e ∷ []))) ≡ e.event_id + 1
next_event_id-snoc es e n =
    next_event_id-get_latest (sort_events es ++ (e ∷ []))
    ∙ bound-snoc (sort_events es) e
    ∙ ground (arith, bound-sort es, n)

-- A new event carries the ID after the greatest of its job, and the event after it the ID that
-- follows.
pub add_event_complete-next :
    (v : Job) (now : ℕ) (t : NotificationType) (st : NotificationStatus) (message : String)
    → let (w, e) = add_event_complete v now t st message in
      (e.event_id ≡ bound v.events) × (next_event_id (get_latest w.events) ≡ bound v.events + 1)
unfolding add_event_complete
add_event_complete-next v now t st message =
    let n = next_event_id-get_latest v.events in
    (n, next_event_id-snoc v.events (add_event_complete v now t st message).1 n ∙ ap (λ k. k + 1) n)
