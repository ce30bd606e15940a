-- ===== src/Protocol/Invariant.antt =====
-- The invariant of an operator's commands to one worker, and the steps of the server and the network.

use Prim.Native.String.{len}
use transcoderd.Prelude.{
  ◌≡◌, ◌⊎◌, refl, Bool, true, false, not, ◌&&◌, ◌||◌, Option, none, some, List, [], ◌∷◌, String,
  str_eq, eq_iff, if◌then◌else◌, any, All, Bool-cases, inl, inr, arith, ltb,
}
use transcoderd.Model.Settings.{WorkerControl}
use transcoderd.Server.Repository.Controls.{
  ControlRow, WorkerControlAck, get_worker_control, control_of, is_individual, ack_worker_control,
  update_row,
}
use transcoderd.Server.Repository.Controls.Agreement.{Storable, set_worker_control-stored}
use transcoderd.Protocol.{
  System, Execution, pending_for, delivered, is_issued, given, polled, arrived,
}

abbrev pub was_run : String → List Execution → Bool
was_run id log = any (λ x. str_eq x.id id) log

-- The command was executed with this error, or with none.
abbrev pub has_run : String → String → List Execution → Bool
has_run id error log = any (λ x. str_eq x.id id && str_eq x.error error) log

abbrev pub NoRepeat : List Execution → Type 0
NoRepeat [] = Unit
NoRepeat (x ∷ log) = (was_run x.id log ≡ false) × NoRepeat log

abbrev pub same : (s : String) → str_eq s s ≡ true
same s = (eq_iff s s).1 refl

abbrev pub outcome : String → String
outcome error = if str_eq error "" then "applied" else "failed"

-- What the table says of a command that was dealt with is what happened.
abbrev pub Honest : List Execution → ControlRow → Type 0
Honest log r =
    (r.state ≡ "pending") ⊎ (has_run r.id r.error log ≡ true) × (r.state ≡ outcome r.error)

-- An ID that was issued.
pub record Known (cast : String → Option String) (issued : List String) (id : String) : Type 0 where
  pub canonical : cast id ≡ some id
  pub named : str_eq id "" ≡ false
  pub among : is_issued id issued ≡ true

-- Of the command in the table: it is the one that the worker has received or applied, or is not run.
abbrev pub Current : Option WorkerControl → String → List Execution → String → Type 0
Current none applied log id = (str_eq applied id ≡ true) ⊎ (was_run id log ≡ false)
Current (some c) applied log id = (str_eq c.id id ≡ true) ⊎ (was_run id log ≡ false)

module _ (cast : String → Option String) where
  abbrev pub FetchedFits : Option WorkerControl → String → List String → List Execution → Type 0
  FetchedFits none applied issued log = Unit
  FetchedFits (some c) applied issued log =
      Known cast issued c.id × ((str_eq applied c.id ≡ true) ⊎ (was_run c.id log ≡ false))

  abbrev pub RowFits : System → Option ControlRow → Type 0
  RowFits s none = Unit
  RowFits s (some r) =
      Known cast s.issued r.id
      × Honest s.log r
      × Current s.fetched s.coordinator.applied_control_id s.log r.id

  pub record Invariant (name : String) (s : System) : Type 0 where
    pub no_repeat : NoRepeat s.log
    pub recorded : All (λ x. is_issued x.id s.issued ≡ true) s.log
    pub applied :
        (s.coordinator.applied_control_id ≡ "")
        ⊎ (has_run s.coordinator.applied_control_id s.coordinator.applied_control_error s.log
            ≡ true)
    pub fetched : FetchedFits s.fetched s.coordinator.applied_control_id s.issued s.log
    pub row : RowFits s (s.table name)
    pub sent : All (λ a. (cast a.id ≡ some a.id) × (has_run a.id a.error s.log ≡ true)) s.sent

run_issued :
    (id : String) (issued : List String) (log : List Execution)
    → All (λ x. is_issued x.id issued ≡ true) log
    → was_run id log ≡ true
    → is_issued id issued ≡ true
run_issued id issued [] h r = absurd (ground (arith, r))
run_issued id issued (x ∷ log) h r = elim (Bool-cases (str_eq x.id id)) [
  | inl e ↦ let k : x.id ≡ id = (eq_iff x.id id).0 e in rw k at h.0
  | inr d ↦ run_issued id issued log h.1 (ground (arith, r, d))
]

-- A new ID leaves the others known.
Known-more :
    (cast : String → Option String) (new id : String) (issued : List String)
    → Known cast issued id
    → Known cast (new ∷ issued) id
unfolding is_issued
Known-more cast new id issued k = record {
  canonical = k.canonical;
  named = k.named;
  among = ground (arith, k.among);
}

recorded-more :
    (new : String) (issued : List String) (log : List Execution)
    → All (λ x. is_issued x.id issued ≡ true) log
    → All (λ x. is_issued x.id (new ∷ issued) ≡ true) log
unfolding is_issued
recorded-more new issued [] h = tt
recorded-more new issued (x ∷ log) h = (ground (arith, h.0), recorded-more new issued log h.1)

not_run :
    (id : String) (issued : List String) (log : List Execution)
    → All (λ x. is_issued x.id issued ≡ true) log
    → is_issued id issued ≡ false
    → was_run id log ≡ false
not_run id issued log h n = elim (Bool-cases (was_run id log)) [
  | inl r ↦ absurd (ground (arith, n, run_issued id issued log h r))
  | inr f ↦ f
]

Fetched-more :
    (cast : String → Option String) (o : Option WorkerControl) (applied new : String)
    (issued : List String) (log : List Execution)
    → FetchedFits cast o applied issued log
    → FetchedFits cast o applied (new ∷ issued) log
Fetched-more cast none applied new issued log h = tt
Fetched-more cast (some c) applied new issued log h = (Known-more cast new c.id issued h.0, h.1)

Current-new :
    (o : Option WorkerControl) (applied id : String) (log : List Execution)
    → was_run id log ≡ false
    → Current o applied log id
Current-new none applied id log h = inr h
Current-new (some c) applied id log h = inr h

pub given-Invariant :
    (cast : String → Option String) (name version : String) (c : WorkerControl) (s : System)
    → Storable cast c
    → str_eq c.id "" ≡ false
    → is_issued c.id s.issued ≡ false
    → Invariant cast name s
    → Invariant cast name (given cast name version c s)
unfolding given is_issued
given-Invariant cast name version c s k named new h =
    let (job, e, wrote) = set_worker_control-stored cast name c s.table k in
    let fresh : was_run c.id s.log ≡ false = not_run c.id s.issued s.log h.recorded new in
    record {
      no_repeat = h.no_repeat;
      recorded = recorded-more c.id s.issued s.log h.recorded;
      applied = h.applied;
      fetched =
          Fetched-more cast s.fetched s.coordinator.applied_control_id c.id s.issued s.log
            h.fetched;
      row =
          rw (wrote, same name)
            (
              record { canonical = k.id; named = named; among = ground (arith, same c.id) },
              inl refl,
              Current-new s.fetched s.coordinator.applied_control_id c.id s.log fresh,
            );
      sent = h.sent;
    }

pub arrive-Invariant :
    (cast : String → Option String) (name version : String) (ack : WorkerControlAck) (s : System)
    → cast ack.id ≡ some ack.id
    → has_run ack.id ack.error s.log ≡ true
    → Invariant cast name s
    → Invariant cast name (arrived cast name version ack s)
unfolding arrived ack_worker_control
arrive-Invariant cast name version ack s k r h = elim (Bool-cases (ltb 512 (len ack.error))) [
  | inl long ↦ rw long h
  | inr short ↦ rw short (record {
    no_repeat = h.no_repeat;
    recorded = h.recorded;
    applied = h.applied;
    fetched = h.fetched;
    row = rw k (by_row (s.table name) refl h.row);
    sent = h.sent;
  })
]
  where
    by_row :
        (o : Option ControlRow)
        → s.table name ≡ o
        → RowFits cast s o
        → RowFits cast s ((update_row name ack (some ack.id) o s.table).0 name)
    by_row none e f = rw e tt
    by_row (some row) e f = elim (Bool-cases (str_eq row.id ack.id)) [
      | inr other ↦ rw (other, e) f
      | inl at ↦
          let i : row.id ≡ ack.id = (eq_iff row.id ack.id).0 at in
          rw (at, same name) (f.0, inr (rw i r, refl), f.2)
    ]

delivered-cases :
    (version : String) (o : Option WorkerControl)
    → (delivered version o ≡ none) ⊎ (delivered version o ≡ o)
unfolding delivered
delivered-cases version o = elim (Bool-cases (str_eq version "1" || str_eq version "2")) [
  | inl speaks ↦ rw speaks (by_command o)
  | inr silent ↦ rw silent (inl refl)
]
  where
    by_command :
        (o : Option WorkerControl) → (pending_for version o ≡ none) ⊎ (pending_for version o ≡ o)
    by_command none = inl refl
    by_command (some c) =
        elim (Bool-cases
          (str_eq c.state "pending" && (not (is_individual c.action) || str_eq version "2"))) [
            | inl fits ↦ rw fits (inr refl)
            | inr other ↦ rw other (inl refl)
          ]

-- The command in the table, as one that the worker receives.
received :
    (cast : String → Option String) (s : System) (o : Option ControlRow)
    → s.fetched ≡ none
    → RowFits cast s o
    → let f = control_of o in
      FetchedFits cast f s.coordinator.applied_control_id s.issued s.log
      × RowFits cast (record s { fetched = f }) o
received cast s none e h = (tt, tt)
received cast s (some r) e h =
    let (known, honest, current) = h in
    let idle : Current none s.coordinator.applied_control_id s.log r.id = rw e at current in
    ((known, idle), (known, honest, inl (same r.id)))

pub poll-Invariant :
    (cast : String → Option String) (name version : String) (s : System)
    → s.fetched ≡ none
    → Invariant cast name s
    → Invariant cast name (polled cast name version s)
unfolding polled get_worker_control
poll-Invariant cast name version s e h = by_delivery _ (delivered-cases version _)
  where
    none_fits : RowFits cast (record s { fetched = none }) (s.table name)
    none_fits = by_row (s.table name) h.row
      where
        by_row :
            (o : Option ControlRow)
            → RowFits cast s o
            → RowFits cast (record s { fetched = none }) o
        by_row none f = tt
        by_row (some r) f = (f.0, f.1, (rw e at f.2))

    with_fetched :
        (f : Option WorkerControl)
        → FetchedFits cast f s.coordinator.applied_control_id s.issued s.log
        → RowFits cast (record s { fetched = f }) (s.table name)
        → Invariant cast name (record s { fetched = f })
    with_fetched f fits row = record {
      no_repeat = h.no_repeat;
      recorded = h.recorded;
      applied = h.applied;
      fetched = fits;
      row = row;
      sent = h.sent;
    }

    by_delivery :
        (f : Option WorkerControl)
        → (f ≡ none) ⊎ (f ≡ control_of (s.table name))
        → Invariant cast name (record s { fetched = f })
    by_delivery f (inl n) = rw n (with_fetched none tt none_fits)
    by_delivery f (inr a) =
        let (fits, row) = received cast s (s.table name) e h.row in
        rw a (with_fetched (control_of (s.table name)) fits row)
