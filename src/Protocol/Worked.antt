-- ===== src/Protocol/Worked.antt =====
-- What the worker does with a command keeps the invariant: worker/worker/remoteControl.go.

use transcoderd.Prelude.{
  ◌≡◌, ◌⊎◌, refl, sym, ap, ◌∙◌, true, false, Option, none, some, List, [], ◌∷◌, String, str_eq,
  eq_iff, All, Bool-cases, inl, inr, arith,
}
use transcoderd.Model.Settings.{WorkerControl}
use transcoderd.Server.Repository.Controls.{ControlRow, WorkerControlAck}
use transcoderd.Worker.Remote.{Surroundings, Reported, apply_remote_control}
use transcoderd.Protocol.{System, Execution, with_ack, after, worked}
use transcoderd.Protocol.Applied.{Applied, apply_remote_control-Applied}
use transcoderd.Protocol.Invariant.{
  was_run, has_run, same, Honest, Known, Current, RowFits, Invariant,
}

-- What is known of executions stays known after one more.
has_run-more :
    (x : Execution) (id error : String) (log : List Execution)
    → has_run id error log ≡ true
    → has_run id error (x ∷ log) ≡ true
has_run-more x id error log h = ground (arith, h)

Honest-more :
    (x : Execution) (r : ControlRow) (log : List Execution) → Honest log r → Honest (x ∷ log) r
Honest-more x r log (inl pending) = inl pending
Honest-more x r log (inr (h, e)) = inr (has_run-more x r.id r.error log h, e)

sent-more :
    (cast : String → Option String) (x : Execution) (sent : List WorkerControlAck)
    (log : List Execution)
    → All (λ a. (cast a.id ≡ some a.id) × (has_run a.id a.error log ≡ true)) sent
    → All (λ a. (cast a.id ≡ some a.id) × (has_run a.id a.error (x ∷ log) ≡ true)) sent
sent-more cast x [] log h = tt
sent-more cast x (a ∷ sent) log h =
    ((h.0.0, has_run-more x a.id a.error log h.0.1), sent-more cast x sent log h.1)

module _ (cast : String → Option String) (name : String) (c : WorkerControl) (s : System)
    (r : Reported) (e : s.fetched ≡ some c) (a : Applied c s.coordinator r)
    (h : Invariant cast name s) where
  fits_fetched :
      Known cast s.issued c.id
      × ((str_eq s.coordinator.applied_control_id c.id ≡ true) ⊎ (was_run c.id s.log ≡ false))
  fits_fetched = rw e at h.fetched

  sent_after :
      (log : List Execution)
      → has_run c.id r.coordinator.applied_control_error log ≡ true
      → All (λ x. (cast x.id ≡ some x.id) × (has_run x.id x.error log ≡ true)) s.sent
      → All
          (λ x. (cast x.id ≡ some x.id) × (has_run x.id x.error log ≡ true))
          (with_ack r.ack s.sent)
  sent_after log k l = by_ack r.ack a.ack
    where
      by_ack :
          (o : Option WorkerControlAck)
          → (o ≡ none)
            ⊎ (o ≡ some (record { id = c.id; error = r.coordinator.applied_control_error }))
          → All
              (λ x. (cast x.id ≡ some x.id) × (has_run x.id x.error log ≡ true))
              (with_ack o s.sent)
      by_ack o (inl n) = rw n l
      by_ack o (inr m) = rw m ((fits_fetched.0.canonical, k), l)

  -- A row fits again when the command is dealt with.
  row_after :
      (log : List Execution) (o : Option ControlRow)
      → ((row : ControlRow) → Honest s.log row → Honest log row)
      → ((id : String) → str_eq c.id id ≡ false → was_run id s.log ≡ false → was_run id log ≡ false)
      → RowFits cast s o
      → RowFits cast (after r log s) o
  row_after log none k l f = tt
  row_after log (some row) k l f =
      let current : Current (some c) s.coordinator.applied_control_id s.log row.id = rw e at f.2 in
      let now : Current none r.coordinator.applied_control_id log row.id =
        elim (Bool-cases (str_eq c.id row.id)) [
          | inl this ↦ inl (rw a.id this)
          | inr other ↦ elim current [
            | inl this ↦ absurd (ground (arith, this, other))
            | inr idle ↦ inr (l row.id other idle)
          ]
        ] in
      (f.0, k row f.1, now)

  again-Invariant :
      str_eq s.coordinator.applied_control_id c.id ≡ true → Invariant cast name (after r s.log s)
  again-Invariant known =
      let i : s.coordinator.applied_control_id ≡ c.id =
        (eq_iff s.coordinator.applied_control_id c.id).0 known in
      let ran : has_run c.id r.coordinator.applied_control_error s.log ≡ true = elim h.applied [
        | inl fresh ↦
            let empty : c.id ≡ "" = sym i ∙ fresh in
            let unnamed : str_eq c.id "" ≡ true = rw empty refl in
            absurd (ground (arith, fits_fetched.0.named, unnamed))
        | inr run ↦ rw (sym i, a.kept known) run
      ] in
      record {
        no_repeat = h.no_repeat;
        recorded = h.recorded;
        applied = inr (rw a.id ran);
        fetched = tt;
        row = row_after s.log (s.table name) (λ row k. k) (λ id d k. k) h.row;
        sent = sent_after s.log ran h.sent;
      }

  new-Invariant :
      str_eq s.coordinator.applied_control_id c.id ≡ false
      → let x : Execution = record { id = c.id; error = r.coordinator.applied_control_error } in
        Invariant cast name (after r (x ∷ s.log) s)
  new-Invariant other =
      let x : Execution = record { id = c.id; error = r.coordinator.applied_control_error } in
      let ran : has_run c.id x.error (x ∷ s.log) ≡ true = ground (arith, same c.id, same x.error) in
      let now : has_run r.coordinator.applied_control_id r.coordinator.applied_control_error
            (x ∷ s.log)
          ≡ true =
        ap (λ id. has_run id x.error (x ∷ s.log)) a.id ∙ ran in
      let idle : was_run c.id s.log ≡ false = elim fits_fetched.1 [
        | inl this ↦ absurd (ground (arith, this, other))
        | inr idle ↦ idle
      ] in
      record {
        no_repeat = (idle, h.no_repeat);
        recorded = (fits_fetched.0.among, h.recorded);
        applied = inr now;
        fetched = tt;
        row =
            row_after (x ∷ s.log) (s.table name) (λ row k. Honest-more x row s.log k)
              (λ id d k. ground (arith, d, k)) h.row;
        sent = sent_after (x ∷ s.log) ran (sent-more cast x s.sent s.log h.sent);
      }

pub work-Invariant :
    (cast : String → Option String) (name : String) (v : Surroundings) (c : WorkerControl)
    (s : System)
    → s.fetched ≡ some c
    → Invariant cast name s
    → Invariant cast name (worked v c s)
unfolding worked
work-Invariant cast name v c s e h =
    let r = apply_remote_control v c s.coordinator in
    let a = apply_remote_control-Applied v c s.coordinator in
    elim (Bool-cases (str_eq s.coordinator.applied_control_id c.id)) [
      | inl again ↦ rw again (again-Invariant cast name c s r e a h again)
      | inr new ↦ rw new (new-Invariant cast name c s r e a h new)
    ]
