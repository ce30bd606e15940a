-- ===== src/Server/Library/Bounded.antt =====
-- server/library/operations.go: how many operations the library keeps and runs.
use mathlib.Core.Bool.{false≢true}
use mathlib.Core.Option.{none-ne-some, some-ne-none, some-injective}
use transcoderd.Prelude.{
  ℕ, suc, ◌+◌, ◌≤◌, ◌<◌, ◌≡◌, ◌≢◌, ◌⊎◌, refl, ap, ◌∙◌, Bool, true, false, ◌||◌, Option, none, some,
  List, [], ◌∷◌, String, str_eq, eq_iff, leb, ltb, if◌then◌else◌, length, any, Bool-cases,
  Option-cases, inl, inr, arith,
}
use transcoderd.Server.Library.{
  MediaOperation, still_running, sweep, count_running, oldest_finished, older, delete, fresh,
  make_room, with_room, new_operation,
}

-- At most two operations run, and at most eight are kept.
pub record IsBounded (ops : List MediaOperation) : Type 0 where
  pub runs : count_running ops ≤ 2
  pub kept : length ops ≤ 8

sweep-le :
    (now : ℕ) (ops : List MediaOperation)
    → (length (sweep now ops) ≤ length ops) × (count_running (sweep now ops) ≡ count_running ops)
unfolding sweep count_running
sweep-le now [] = (omega arith, refl)
sweep-le now (op ∷ ops) =
    let (kept, runs) = sweep-le now ops in
    elim (Bool-cases (still_running op)) [
      | inl e ↦ rw (e, e) (omega (arith, kept), omega (arith, runs))
      | inr e ↦ elim (Bool-cases (ltb (op.updated_at + 1800) now)) [
        | inl old ↦ rw (e, old) (omega (arith, kept), runs)
        | inr new ↦ rw (e, new, e) (omega (arith, kept), omega (arith, runs))
      ]
    ]

le_next : (b : Bool) {m n : ℕ} → m ≤ n → m ≤ (if b then suc n else n)
le_next true h = omega (arith, h)
le_next false h = h

next_le : (b : Bool) {m n : ℕ} → m ≤ n → (if b then suc m else m) ≤ (if b then suc n else n)
next_le true h = omega (arith, h)
next_le false h = h

delete-le :
    (id : String) (ops : List MediaOperation)
    → (length (delete id ops) ≤ length ops) × (count_running (delete id ops) ≤ count_running ops)
unfolding delete count_running
delete-le id [] = (omega arith, omega arith)
delete-le id (op ∷ ops) =
    let (kept, runs) = delete-le id ops in
    elim (Bool-cases (str_eq op.id id)) [
      | inl e ↦ rw e (omega (arith, kept), le_next (still_running op) runs)
      | inr e ↦ rw e (omega (arith, kept), next_le (still_running op) runs)
    ]

delete-lt :
    (id : String) (ops : List MediaOperation)
    → any (λ op. str_eq op.id id) ops ≡ true
    → length (delete id ops) < length ops
unfolding delete
delete-lt id [] h = absurd (false≢true h)
delete-lt id (op ∷ ops) h = elim (Bool-cases (str_eq op.id id)) [
  | inl e ↦ rw e (omega (arith, (delete-le id ops).0))
  | inr e ↦ rw e (omega (arith, delete-lt id ops (rw e at h)))
]

oldest_finished-among :
    (ops : List MediaOperation) (op : MediaOperation)
    → oldest_finished ops ≡ some op
    → any (λ x. str_eq x.id op.id) ops ≡ true
unfolding oldest_finished
oldest_finished-among [] op h = absurd (none-ne-some op h)
oldest_finished-among (x ∷ ops) op h = elim (Bool-cases (still_running x)) [
  | inl e ↦ later (str_eq x.id op.id) (oldest_finished-among ops op (rw e at h))
  | inr e ↦ elim (Option-cases (oldest_finished ops)) [
    | inl none_left ↦ first (rw (e, none_left) at h)
    | inr (o, found) ↦ elim (Bool-cases (ltb o.updated_at x.updated_at)) [
      | inl before ↦
          later (str_eq x.id op.id)
            (oldest_finished-among ops op (found ∙ (rw (e, found, before) at h)))
      | inr not_before ↦ first (rw (e, found, not_before) at h)
    ]
  ]
]
  where
    later : (a : Bool) {b : Bool} → b ≡ true → (a || b) ≡ true
    later true k = refl
    later false k = k

    first : some x ≡ some op → (str_eq x.id op.id || any (λ y. str_eq y.id op.id) ops) ≡ true
    first k = rw ((eq_iff x.id op.id).1 (ap (λ y. y.id) (some-injective x op k))) refl

older-some : (op : MediaOperation) (o : Option MediaOperation) → older op o ≢ none
older-some op none e = some-ne-none op e
older-some op (some o) e = elim (Bool-cases (ltb o.updated_at op.updated_at)) [
  | inl before ↦ some-ne-none o (rw before at e)
  | inr not_before ↦ some-ne-none op (rw not_before at e)
]

-- Where no operation is finished, all run.
all_running :
    (ops : List MediaOperation) → oldest_finished ops ≡ none → count_running ops ≡ length ops
unfolding oldest_finished count_running
all_running [] h = refl
all_running (op ∷ ops) h = elim (Bool-cases (still_running op)) [
  | inl e ↦ rw e (ap suc (all_running ops (rw e at h)))
  | inr e ↦ absurd (older-some op (oldest_finished ops) (rw e at h))
]

-- The list has a place for an operation, or one is made.
with_room-IsBounded :
    (id kind : String) (now : ℕ) (swept : List MediaOperation)
    → count_running swept < 2
    → length swept ≤ 8
    → let (left, new) = with_room swept (fresh id kind now) (make_room swept) in
      IsBounded left × (new ≡ some (fresh id kind now))
unfolding count_running
with_room-IsBounded id kind now swept few short = elim (Bool-cases (leb 8 (length swept))) [
  | inr place ↦ rw place (record { runs = omega (arith, few); kept = ground (arith, place) }, refl)
  | inl full ↦ elim (Option-cases (oldest_finished swept)) [
    | inl busy ↦ absurd (ground (arith, all_running swept busy, full, few))
    | inr (o, found) ↦
        let fewer = (delete-le o.id swept).1 in
        let shorter = delete-lt o.id swept (oldest_finished-among swept o found) in
        rw (full, found)
          (record { runs = omega (arith, few, fewer); kept = omega (arith, short, shorter) }, refl)
  ]
]

-- With at most two operations running and eight kept, the library has no more after a new
-- operation is asked for, and starts it exactly if fewer than two ran.
pub new_operation-IsBounded :
    (id kind : String) (now : ℕ) (ops : List MediaOperation)
    → IsBounded ops
    → let (left, new) = new_operation id kind now ops in
      IsBounded left
      × (((new ≡ none) × (2 ≤ count_running ops))
          ⊎ ((new ≡ some (fresh id kind now)) × (count_running ops < 2)))
unfolding new_operation
new_operation-IsBounded id kind now ops h =
    let (kept, runs) = sweep-le now ops in
    elim (Bool-cases (leb 2 (count_running ops))) [
      | inl busy ↦ rw busy (
        record { runs = omega (arith, runs, h.runs); kept = omega (arith, kept, h.kept) },
        inl (refl, ground (arith, busy)),
      )
      | inr idle ↦
          let (bounded, new) =
            with_room-IsBounded id kind now (sweep now ops) (ground (arith, runs, idle))
              (omega (arith, kept, h.kept)) in
          rw idle (bounded, inr (new, ground (arith, idle)))
    ]
