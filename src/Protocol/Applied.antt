-- ===== src/Protocol/Applied.antt =====
-- What a worker remembers and acknowledges of a command: worker/worker/remoteControl.go.

use Prim.Native.String.{len, ◌++◌}
use transcoderd.Prelude.{
  ◌≡◌, ◌⊎◌, refl, ap, ◌∙◌, Bool, Option, true, false, none, some, str_eq, eq_iff, if◌then◌else◌,
  Bool-cases, inl, inr, arith, String, ltb,
}
use transcoderd.Model.Settings.{WorkerControl}
use transcoderd.Server.Repository.Controls.{WorkerControlAck}
use transcoderd.Worker.Remote.{
  Surroundings, Coordinator, Reported, apply_remote_control, apply_once, report, resolve_if,
  acknowledged, ping_fails, RemoteError, error_text, execute_remote_control,
}

-- What the worker does with a command.
pub record Applied (c : WorkerControl) (q : Coordinator) (r : Reported) : Type 0 where
  pub id : r.coordinator.applied_control_id ≡ c.id
  pub kept :
      str_eq q.applied_control_id c.id ≡ true
      → r.coordinator.applied_control_error ≡ q.applied_control_error
  pub ack :
      (r.ack ≡ none)
      ⊎ (r.ack ≡ some (record { id = c.id; error = r.coordinator.applied_control_error }))

resolve_if_same :
    (b : Bool) (d : Coordinator)
    → ((resolve_if b d).applied_control_id ≡ d.applied_control_id)
      × ((resolve_if b d).applied_control_error ≡ d.applied_control_error)
resolve_if_same true d = (refl, refl)
resolve_if_same false d = (refl, refl)

Remembers : WorkerControl → Coordinator → Coordinator → Type 0
Remembers c q d =
    (d.applied_control_id ≡ c.id)
    × (str_eq q.applied_control_id c.id ≡ true → d.applied_control_error ≡ q.applied_control_error)

resolve_if-Remembers :
    (c : WorkerControl) (q : Coordinator) (b : Bool) (d : Coordinator)
    → Remembers c q d
    → Remembers c q (resolve_if b d)
unfolding Remembers
resolve_if-Remembers c q b d (i, k) = let (e, f) = resolve_if_same b d in (e ∙ i, λ h. f ∙ k h)

report-Applied :
    (v : Surroundings) (c : WorkerControl) (q d : Coordinator)
    → Remembers c q d
    → Applied c q (report v c d)
unfolding Remembers
report-Applied v c q d m = by_answers v.pings (v.takes _)
  where
    ack : WorkerControlAck
    ack = record { id = c.id; error = d.applied_control_error }

    by_answers :
        (pings takes : Bool)
        → Applied c q (
            if pings
            then acknowledged d ack takes
            else record { coordinator = d; ack = none; round = ping_fails })
    by_answers false takes = record { id = m.0; kept = m.1; ack = inl refl }
    by_answers true false = record { id = m.0; kept = m.1; ack = inr refl }
    by_answers true true =
        let (e, f) = resolve_if_same (str_eq d.applied_control_error "") d in
        record { id = e ∙ m.0; kept = λ h. f ∙ m.1 h; ack = inr (rw f refl) }

apply_once-Remembers :
    (v : Surroundings) (c : WorkerControl) (q : Coordinator) → Remembers c q (apply_once v c q)
unfolding Remembers
apply_once-Remembers v c q = elim (Bool-cases (str_eq q.applied_control_id c.id)) [
  | inl again ↦ rw again ((eq_iff q.applied_control_id c.id).0 again, λ h. refl)
  | inr new ↦ rw new (refl, λ h. absurd (ground (arith, h)))
]

pub apply_remote_control-Applied :
    (v : Surroundings) (c : WorkerControl) (q : Coordinator)
    → Applied c q (apply_remote_control v c q)
unfolding apply_remote_control
apply_remote_control-Applied v c q = report-Applied v c q _ (
    resolve_if-Remembers c q (str_eq (apply_once v c q).applied_control_error "") _
      (apply_once-Remembers v c q))

-- A ping that arrives is followed by the acknowledgement.
pub apply_remote_control-acknowledged :
    (v : Surroundings) (c : WorkerControl) (q : Coordinator)
    → v.pings ≡ true
    → let r = apply_remote_control v c q in
      r.ack ≡ some (record { id = c.id; error = r.coordinator.applied_control_error })
unfolding apply_remote_control
apply_remote_control-acknowledged v c q p = rw p (by_answer _ (v.takes _))
  where
    by_answer :
        (d : Coordinator) (takes : Bool)
        → let r = acknowledged d (record { id = c.id; error = d.applied_control_error }) takes in
          r.ack ≡ some (record { id = c.id; error = r.coordinator.applied_control_error })
    by_answer d false = refl
    by_answer d true =
        let (e, f) = resolve_if_same (str_eq d.applied_control_error "") d in rw f refl

-- A text that was cut has 512 bytes at most, also as the server receives it.
abbrev pub CutsShort : Surroundings → Type 0
CutsShort v = (text : String) → ltb 512 (len (v.cut text)) ≡ false

error_text-short :
    (v : Surroundings) (o : Option RemoteError)
    → CutsShort v
    → ltb 512 (len (error_text v o)) ≡ false
error_text-short v none b = refl
error_text-short v (some x) b =
    let text = "Worker could not apply control: " ++ v.describe x in
    elim (Bool-cases (ltb 512 (len text))) [
      | inl long ↦ rw long (b text)
      | inr short ↦ rw (short, short) refl
    ]

apply_once-short :
    (v : Surroundings) (c : WorkerControl) (q : Coordinator)
    → CutsShort v
    → ltb 512 (len q.applied_control_error) ≡ false
    → ltb 512 (len (apply_once v c q).applied_control_error) ≡ false
apply_once-short v c q b h = elim (Bool-cases (str_eq q.applied_control_id c.id)) [
  | inl again ↦ rw again h
  | inr new ↦ rw new (error_text-short v (execute_remote_control v c q.worker).1 b)
]

report-error :
    (v : Surroundings) (c : WorkerControl) (d : Coordinator)
    → (report v c d).coordinator.applied_control_error ≡ d.applied_control_error
report-error v c d = by_answers v.pings (v.takes _)
  where
    by_answers :
        (pings takes : Bool)
        → let r : Reported =
            if pings
            then acknowledged d (record { id = c.id; error = d.applied_control_error }) takes
            else record { coordinator = d; ack = none; round = ping_fails } in
          r.coordinator.applied_control_error ≡ d.applied_control_error
    by_answers false takes = refl
    by_answers true false = refl
    by_answers true true = (resolve_if_same (str_eq d.applied_control_error "") d).1

-- The remembered error stays as short as the server takes it.
pub apply_remote_control-short :
    (v : Surroundings) (c : WorkerControl) (q : Coordinator)
    → CutsShort v
    → ltb 512 (len q.applied_control_error) ≡ false
    → ltb 512 (len (apply_remote_control v c q).coordinator.applied_control_error) ≡ false
unfolding apply_remote_control
apply_remote_control-short v c q b h =
    let d = apply_once v c q in
    let same =
      report-error v c (resolve_if (str_eq d.applied_control_error "") d)
      ∙ (resolve_if_same (str_eq d.applied_control_error "") d).1 in
    ap (λ text. ltb 512 (len text)) same ∙ apply_once-short v c q b h
