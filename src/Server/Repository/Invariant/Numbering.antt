-- ===== src/Server/Repository/Invariant/Numbering.antt =====
-- Lemmas on lists of events: numbering from zero, and the rows of one job.
use transcoderd.Prelude.{
  ℕ, suc, ◌+◌, ◌≡◌, refl, some, List, [], ◌∷◌, ◌++◌, arith, length, find, ◌==◌, if◌then◌else◌,
}
use transcoderd.Model.Events.{TaskEvent}
use transcoderd.Model.Events.Latest.{bound}
use transcoderd.Server.Repository.Queries.{events_of, next_id, insert_by_time, sort_by_time}
use transcoderd.Server.Repository.Commands.{update_status}

-- The event IDs count up from `n`.
abbrev pub IsNumbered : ℕ → List TaskEvent → Type 0
IsNumbered n [] = Unit
IsNumbered n (e ∷ es) = (e.event_id ≡ n) × IsNumbered (suc n) es

pub events_of-snoc :
    (j : ℕ) (es : List TaskEvent) (e : TaskEvent)
    → events_of j (es ++ (e ∷ []))
      ≡ (if e.job_id == j then events_of j es ++ (e ∷ []) else events_of j es)
events_of-snoc j [] e = ground arith
events_of-snoc j (x ∷ xs) e = ground (arith, events_of-snoc j xs e)

pub IsNumbered-snoc :
    (n : ℕ) (es : List TaskEvent) (e : TaskEvent)
    → IsNumbered n es
    → e.event_id ≡ n + length es
    → IsNumbered n (es ++ (e ∷ []))
IsNumbered-snoc n [] e h p = (omega arith, tt)
IsNumbered-snoc n (x ∷ xs) e h p = (h.0, IsNumbered-snoc (suc n) xs e h.1 (omega arith))

next_id-tail :
    (n : ℕ) (e : TaskEvent) (es : List TaskEvent)
    → IsNumbered n (e ∷ es)
    → next_id (e ∷ es) ≡ n + length (e ∷ es)
unfolding next_id
next_id-tail n e [] h = ground arith
next_id-tail n e (x ∷ xs) h = ground (arith, next_id-tail (suc n) x xs h.1)

pub next_id-length : (es : List TaskEvent) → IsNumbered 0 es → next_id es ≡ length es
unfolding next_id
next_id-length [] h = refl
next_id-length (e ∷ es) h = omega (arith, next_id-tail 0 e es h)

pub next_id-bound : (es : List TaskEvent) → next_id es ≡ bound es
unfolding next_id
next_id-bound [] = refl
next_id-bound (e ∷ es) = ground (arith, next_id-bound es)

bound-insert_by_time :
    (e : TaskEvent) (es : List TaskEvent) → bound (insert_by_time e es) ≡ bound (e ∷ es)
unfolding insert_by_time
bound-insert_by_time e [] = refl
bound-insert_by_time e (x ∷ xs) = ground (arith, bound-insert_by_time e xs)

pub bound-sort_by_time : (es : List TaskEvent) → bound (sort_by_time es) ≡ bound es
unfolding sort_by_time
bound-sort_by_time [] = refl
bound-sort_by_time (e ∷ es) =
    ground (arith, bound-insert_by_time e (sort_by_time es), bound-sort_by_time es)

pub find-update_status :
    (j : ℕ) (e : TaskEvent) (rs : List TaskEvent)
    → find (λ r. r.job_id == j) (update_status e rs)
      ≡ (if e.job_id == j then some e else find (λ r. r.job_id == j) rs)
unfolding update_status
find-update_status j e [] = ground arith
find-update_status j e (r ∷ rs) = ground (arith, find-update_status j e rs)
