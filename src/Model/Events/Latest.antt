-- ===== src/Model/Events/Latest.antt =====
-- What `GetLatest` and `GetLatestPerNotificationType` (model/model.go) return.
use mathlib.Core.List.{Memᴰ}
use transcoderd.Prelude.{
  ℕ, ◌+◌, ◌≤◌, ◌<◌, ◌≡◌, refl, sym, ◌∙◌, ◌⊎◌, inl, inr, true, Option, none, some, List, [], ◌∷◌,
  ◌&&◌, arith, All, Bool-cases, Option-cases, ltb, ap, if◌then◌else◌,
}
use transcoderd.Model.Events.{
  TaskEvent, NotificationType, insert_by_id, sort_events, get_last_element, get_latest,
  next_event_id, same_type, beats, latest_loop, get_latest_per_notification_type,
}

-- One more than the greatest event ID, 0 for no events: what the next event has to carry.
abbrev pub bound : List TaskEvent → ℕ
bound [] = 0
bound (e ∷ es) = let rest = bound es in if ltb e.event_id rest then rest else e.event_id + 1

bound-insert : (e : TaskEvent) (es : List TaskEvent) → bound (insert_by_id e es) ≡ bound (e ∷ es)
unfolding insert_by_id
bound-insert e [] = refl
bound-insert e (x ∷ xs) = ground (arith, bound-insert e xs)

pub bound-sort : (es : List TaskEvent) → bound (sort_events es) ≡ bound es
unfolding sort_events
bound-sort [] = refl
bound-sort (e ∷ es) = ground (arith, bound-insert e (sort_events es), bound-sort es)

abbrev IsAscending : List TaskEvent → Type 0
IsAscending [] = Unit
IsAscending (x ∷ xs) = All (λ y. x.event_id ≤ y.event_id) xs × IsAscending xs

All-le-insert :
    (n : ℕ) (e : TaskEvent) (xs : List TaskEvent)
    → n ≤ e.event_id
    → All (λ y. n ≤ y.event_id) xs
    → All (λ y. n ≤ y.event_id) (insert_by_id e xs)
unfolding insert_by_id
All-le-insert n e [] h a = (h, tt)
All-le-insert n e (x ∷ xs) h a = ground (arith, All-le-insert n e xs h a.1)

All-le_trans :
    (m n : ℕ) (xs : List TaskEvent)
    → m ≤ n
    → All (λ y. n ≤ y.event_id) xs
    → All (λ y. m ≤ y.event_id) xs
All-le_trans m n [] h a = tt
All-le_trans m n (x ∷ xs) h a = (omega arith, All-le_trans m n xs h a.1)

insert-IsAscending :
    (e : TaskEvent) (xs : List TaskEvent) → IsAscending xs → IsAscending (insert_by_id e xs)
unfolding insert_by_id
insert-IsAscending e [] a = (tt, tt)
insert-IsAscending e (x ∷ xs) a = ground (
  arith,
  insert-IsAscending e xs a.1,
  All-le-insert x.event_id e xs,
  All-le_trans e.event_id x.event_id xs,
)

sort-IsAscending : (es : List TaskEvent) → IsAscending (sort_events es)
unfolding sort_events
sort-IsAscending [] = tt
sort-IsAscending (e ∷ es) = insert-IsAscending e (sort_events es) (sort-IsAscending es)

last-bound : (es : List TaskEvent) → IsAscending es → next_event_id (get_last_element es) ≡ bound es
unfolding get_last_element
last-bound [] a = refl
last-bound (e ∷ []) a = ground arith
last-bound (e ∷ x ∷ xs) a = ground (arith, last-bound (x ∷ xs) a.1)

-- `GetLatest` has the greatest ID of the list, whatever the list's order.
pub next_event_id-get_latest : (es : List TaskEvent) → next_event_id (get_latest es) ≡ bound es
unfolding get_latest
next_event_id-get_latest es = last-bound (sort_events es) (sort-IsAscending es) ∙ bound-sort es

All-lt_mono :
    (m n : ℕ) (xs : List TaskEvent)
    → m ≤ n
    → All (λ x. x.event_id < m) xs
    → All (λ x. x.event_id < n) xs
All-lt_mono m n [] h a = tt
All-lt_mono m n (x ∷ xs) h a = (omega arith, All-lt_mono m n xs h a.1)

pub All-lt-bound : (es : List TaskEvent) → All (λ x. x.event_id < bound es) es
All-lt-bound [] = tt
All-lt-bound (e ∷ es) =
    (ground arith, All-lt_mono (bound es) (bound (e ∷ es)) es (ground arith) (All-lt-bound es))

mem_past : {l e x : TaskEvent} {xs : List TaskEvent} → Memᴰ l (e ∷ xs) → Memᴰ l (e ∷ x ∷ xs)
mem_past (Memᴰ.head p) = Memᴰ.head p
mem_past (Memᴰ.tail t) = Memᴰ.tail (Memᴰ.tail t)

mem_after :
    {l e x : TaskEvent} {xs ys : List TaskEvent}
    → (Memᴰ l ys → Memᴰ l (e ∷ xs))
    → Memᴰ l (x ∷ ys)
    → Memᴰ l (e ∷ x ∷ xs)
mem_after f (Memᴰ.head p) = Memᴰ.tail (Memᴰ.head p)
mem_after f (Memᴰ.tail t) = mem_past (f t)

mem-insert : (l e : TaskEvent) (xs : List TaskEvent) → Memᴰ l (insert_by_id e xs) → Memᴰ l (e ∷ xs)
unfolding insert_by_id
mem-insert l e [] m = m
mem-insert l e (x ∷ xs) m = elim (Bool-cases (ltb x.event_id e.event_id)) [
  | inl lower ↦ mem_after (mem-insert l e xs) (rw lower at m)
  | inr higher ↦ rw higher at m
]

mem_cons :
    {l e : TaskEvent} {xs ys : List TaskEvent}
    → (Memᴰ l ys → Memᴰ l xs)
    → Memᴰ l (e ∷ ys)
    → Memᴰ l (e ∷ xs)
mem_cons f (Memᴰ.head p) = Memᴰ.head p
mem_cons f (Memᴰ.tail t) = Memᴰ.tail (f t)

pub mem-sort : (l : TaskEvent) (es : List TaskEvent) → Memᴰ l (sort_events es) → Memᴰ l es
unfolding sort_events
mem-sort l [] m = m
mem-sort l (e ∷ es) m = mem_cons (mem-sort l es) (mem-insert l e (sort_events es) m)

mem-last : (l : TaskEvent) (es : List TaskEvent) → get_last_element es ≡ some l → Memᴰ l es
unfolding get_last_element
mem-last l [] h = cc
mem-last l (e ∷ []) h = Memᴰ.head (ground arith)
mem-last l (e ∷ x ∷ xs) h = Memᴰ.tail (mem-last l (x ∷ xs) h)

All-le_of_lt :
    (m n : ℕ) (xs : List TaskEvent)
    → n ≡ m + 1
    → All (λ x. x.event_id < n) xs
    → All (λ x. x.event_id ≤ m) xs
All-le_of_lt m n [] h a = tt
All-le_of_lt m n (x ∷ xs) h a = (omega arith, All-le_of_lt m n xs h a.1)

-- GetLatest is none for no events and else an event of the list with the greatest ID.
pub get_latest-greatest :
    (es : List TaskEvent)
    → ((es ≡ []) × (get_latest es ≡ none))
      ⊎ ((l : TaskEvent) × (get_latest es ≡ some l)
          × Memᴰ l es
          × All (λ x. x.event_id ≤ l.event_id) es)
get_latest-greatest es = elim (Option-cases (get_latest es)) [
  | inl e ↦ inl (empty es (ap next_event_id e), e)
  | inr (l, e) ↦ inr (
    l,
    e,
    mem-sort l es (mem-last l (sort_events es) (unfold get_latest in e)),
    All-le_of_lt l.event_id _ es (sym (next_event_id-get_latest es) ∙ ap next_event_id e)
        (All-lt-bound es),
  )
]
  where
    empty : (xs : List TaskEvent) → next_event_id (get_latest xs) ≡ 0 → xs ≡ []
    empty [] h = refl
    empty (x ∷ xs) h = ground (arith, next_event_id-get_latest (x ∷ xs))

loop_bounds :
    (best : Option TaskEvent) (t : NotificationType) (es : List TaskEvent) (n : ℕ)
    → next_event_id (latest_loop best t es) ≤ n
    → (next_event_id best ≤ n)
      × All (λ e. same_type e.notification_type t ≡ true → e.event_id < n) es
unfolding latest_loop
loop_bounds best t [] n h = (h, tt)
loop_bounds best t (e ∷ es) n h =
    elim (Bool-cases (same_type e.notification_type t && beats best e)) [
      | inl better ↦
          let (above, rest) = loop_bounds (some e) t es n (rw better at h) in
          (ground arith, (λ _. omega arith, rest))
      | inr worse ↦
          let (above, rest) = loop_bounds best t es n (rw worse at h) in
          (above, (λ same. ground arith, rest))
    ]

abbrev pub Found : Option TaskEvent → NotificationType → List TaskEvent → Option TaskEvent → Type 0
Found best t es r =
    (r ≡ best)
    ⊎ ((b : TaskEvent) × (r ≡ some b) × (same_type b.notification_type t ≡ true) × Memᴰ b es)

Found-tail :
    (best : Option TaskEvent) (t : NotificationType) (e : TaskEvent) (es : List TaskEvent)
    (r : Option TaskEvent)
    → Found best t es r
    → Found best t (e ∷ es) r
Found-tail best t e es r (inl p) = inl p
Found-tail best t e es r (inr (b, p, q, m)) = inr (b, p, q, Memᴰ.tail m)

Found-head :
    (best : Option TaskEvent) (t : NotificationType) (e : TaskEvent) (es : List TaskEvent)
    (r : Option TaskEvent)
    → same_type e.notification_type t ≡ true
    → Found (some e) t es r
    → Found best t (e ∷ es) r
Found-head best t e es r h (inl p) = inr (e, p, h, Memᴰ.head refl)
Found-head best t e es r h (inr (b, p, q, m)) = inr (b, p, q, Memᴰ.tail m)

loop-Found :
    (best : Option TaskEvent) (t : NotificationType) (es : List TaskEvent)
    → Found best t es (latest_loop best t es)
unfolding latest_loop
loop-Found best t [] = inl refl
loop-Found best t (e ∷ es) = elim (Bool-cases (same_type e.notification_type t && beats best e)) [
  | inl better ↦ rw better (Found-head best t e es _ (ground arith) (loop-Found (some e) t es))
  | inr worse ↦ rw worse (Found-tail best t e es _ (loop-Found best t es))
]

-- GetLatestPerNotificationType is none only if no event has the type, and else an event of the
-- type that none of the type exceeds in ID.
pub get_latest_per_notification_type-greatest :
    (es : List TaskEvent) (t : NotificationType)
    → let r = get_latest_per_notification_type es t in
      Found none t es r
      × All (λ e. same_type e.notification_type t ≡ true → e.event_id < next_event_id r) es
unfolding get_latest_per_notification_type
get_latest_per_notification_type-greatest es t =
    (loop-Found none t es, (loop_bounds none t es _ (omega arith)).1)
