-- ===== src/Server/Repository/Controls/Agreement.antt =====
-- server/repository/workerControls.go: the database and the in-memory repository keep the same
-- commands.
use transcoderd.Prelude.{
  ◌≡◌, refl, sym, ap, true, false, Option, none, some, List, [], ◌∷◌, String, str_eq, Bool-cases,
  inl, inr, All,
}
use transcoderd.Model.Settings.{WorkerControl, validate_worker_action}
use transcoderd.Server.Repository.Controls.{
  ControlRow, ControlTable, WorkerControlAck, ControlError, job_text, control_of,
  get_worker_control, is_individual, put, pending_row, set_worker_control, ack_state, update_row,
  ack_worker_control,
}
use transcoderd.Server.Repository.Memory.{Commands, acknowledged}
use transcoderd.Server.Repository.Memory as Memory

-- The job of a command: none, for a command to the whole worker, or a UUID in the database's form.
pub data JobFits (cast : String → Option String) (action job : String) : Type 0 where
  whole : job ≡ "" → is_individual action ≡ false → JobFits cast action job
  one : str_eq job "" ≡ false → cast job ≡ some job → JobFits cast action job

pub record Storable (cast : String → Option String) (c : WorkerControl) : Type 0 where
  pub id : cast c.id ≡ some c.id
  pub known : validate_worker_action c.action ≡ true
  pub job : JobFits cast c.action c.job_id

pub data Operation : Type 0 where
  issue : String → WorkerControl → Operation
  acknowledge : String → WorkerControlAck → Operation

pub data Canonical (cast : String → Option String) : Operation → Type 0 where
  issues : (name : String) (c : WorkerControl) → Storable cast c → Canonical cast (issue name c)
  acknowledges :
      (name : String) (ack : WorkerControlAck)
      → cast ack.id ≡ some ack.id
      → Canonical cast (acknowledge name ack)

unfoldable pub in_tables :
    (String → Option String) → Operation → ControlTable → ControlTable × Option ControlError
in_tables cast (issue name c) t = set_worker_control cast name c t
in_tables cast (acknowledge name ack) t = ack_worker_control cast name ack t

unfoldable pub in_memory : Operation → Commands → Commands × Option ControlError
in_memory (issue name c) m = (Memory.set_worker_control name c m, none)
in_memory (acknowledge name ack) m = Memory.ack_worker_control name ack m

-- The same commands are read from both.
abbrev pub Agree : ControlTable → Commands → Type 0
Agree t m = (name : String) → get_worker_control name t ≡ Memory.get_worker_control name m

-- What is stored of a command that the checks admit.
pub set_worker_control-stored :
    (cast : String → Option String) (name : String) (c : WorkerControl) (t : ControlTable)
    → Storable cast c
    → (job : Option String) × (job_text job ≡ c.job_id)
      × (set_worker_control cast name c t ≡ (put name (pending_row c.id job c) t, none))
unfolding set_worker_control
set_worker_control-stored cast name c t s = by_job s.job
  where
    by_job :
        JobFits cast c.action c.job_id
        → (job : Option String) × (job_text job ≡ c.job_id)
          × (set_worker_control cast name c t ≡ (put name (pending_row c.id job c) t, none))
    by_job (whole e w) = (none, sym e, rw (s.id, e, s.known, w) refl)
    by_job (one e k) = (some c.job_id, refl, rw (s.id, e, k, s.known) refl)

put-Agree :
    (name : String) (r : ControlRow) (c : WorkerControl) (t : ControlTable) (m : Commands)
    → control_of (some r) ≡ some c
    → Agree t m
    → Agree (put name r t) (put name c m)
unfolding get_worker_control Memory.get_worker_control
put-Agree name r c t m e a other = elim (Bool-cases (str_eq other name)) [
  | inl same ↦ rw same e
  | inr different ↦ rw different (a other)
]

-- Both end in the same commands with the same answer.
abbrev pub Same : ControlTable × Option ControlError → Commands × Option ControlError → Type 0
Same p q = Agree p.0 q.0 × (p.1 ≡ q.1)

issue-Same :
    (cast : String → Option String) (name : String) (c : WorkerControl) (t : ControlTable)
    (m : Commands)
    → Storable cast c
    → Agree t m
    → Same (set_worker_control cast name c t) (Memory.set_worker_control name c m, none)
unfolding Memory.set_worker_control
issue-Same cast name c t m s a =
    let (job, e, wrote) = set_worker_control-stored cast name c t s in
    rw wrote (
      put-Agree name (pending_row c.id job c) _ t m
          (ap (λ text. some (record c { job_id = text; state = "pending"; error = "" })) e) a,
      refl,
    )

ack-Same :
    (name : String) (ack : WorkerControlAck) (row : Option ControlRow) (t : ControlTable)
    (m : Commands)
    → Agree t m
    → Same (update_row name ack (some ack.id) row t) (acknowledged name ack (control_of row) m)
ack-Same name ack none t m a = (a, refl)
ack-Same name ack (some r) t m a = elim (Bool-cases (str_eq r.id ack.id)) [
  | inl same ↦
      rw same
        (put-Agree name (record r { state = ack_state ack; error = ack.error }) _ t m refl a, refl)
  | inr other ↦ rw other (a, refl)
]

operation-Same :
    (cast : String → Option String) (op : Operation) (t : ControlTable) (m : Commands)
    → Canonical cast op
    → Agree t m
    → Same (in_tables cast op t) (in_memory op m)
unfolding in_tables in_memory ack_worker_control Memory.ack_worker_control get_worker_control
    Memory.get_worker_control
operation-Same cast _ t m (issues name c s) a = issue-Same cast name c t m s a
operation-Same cast _ t m (acknowledges name ack k) a =
    rw (k, sym (a name)) (ack-Same name ack (t name) t m a)

-- The answers of one operation after the other.
unfoldable pub answers {ℓ κ μ} :
    {S : Type ℓ} {O : Type κ} {R : Type μ} → (O → S → S × R) → List O → S → S × List R
answers step [] s = (s, [])
answers step (op ∷ ops) s =
    let (t, r) = step op s in let (u, rs) = answers step ops t in (u, r ∷ rs)

-- Commands and acknowledgements with IDs in the form of the database, in any order, get the same
-- answers from the database and from the in-memory repository, and leave the same commands to be
-- read.
pub answers-Agree :
    (cast : String → Option String) (ops : List Operation) (t : ControlTable) (m : Commands)
    → All (Canonical cast) ops
    → Agree t m
    → Agree (answers (in_tables cast) ops t).0 (answers in_memory ops m).0
      × ((answers (in_tables cast) ops t).1 ≡ (answers in_memory ops m).1)
unfolding answers
answers-Agree cast [] t m c a = (a, refl)
answers-Agree cast (op ∷ ops) t m c a =
    let (b, e) = operation-Same cast op t m c.0 a in
    let (d, f) = answers-Agree cast ops (in_tables cast op t).0 (in_memory op m).0 c.1 b in
    (d, rw (e, f) refl)
