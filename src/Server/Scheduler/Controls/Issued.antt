-- ===== src/Server/Scheduler/Controls/Issued.antt =====
-- What server/scheduler/workerControls.go stores of an operator's command.
use mathlib.Core.List.{Memᴰ}
use transcoderd.Prelude.{
  ℕ, ◌-◌, ◌≤◌, ◌≡◌, refl, sym, true, false, not, ◌&&◌, Option, none, some, List, [], ◌∷◌, String,
  str_eq, eq_iff, ltb, any, ◌⊎◌, inl, inr, Bool-cases, arith,
}
use transcoderd.Model.Settings.{
  WorkerControl, WorkerSettings, independent, total, validate_write, validate_worker_action,
  settings,
}
use transcoderd.Model.Settings.Totals.{Form, one_limit, two_limits, validate_write-Form}
use transcoderd.Server.Repository.Controls.{
  job_text, ControlTable, get_worker_control, is_individual, put, pending_row,
}
use transcoderd.Server.Repository.Controls.Agreement.{
  JobFits, whole, one, set_worker_control-stored,
}
use transcoderd.Server.Scheduler.Controls.{
  WorkerJobRuntime, WorkerRuntime, WorkerRow, WorkerTables, ControlRefusal, below, is_unusable,
  usable, reachable, owns, owned_job, target_job, checked_job, restored, new_control, Issue, issue,
  control_worker,
}

-- What `uuid.Parse` accepts, the database accepts, in the form that `String` prints.
abbrev pub Compatible : (String → Option String) → (String → Option String) → Type 0
Compatible canonical cast =
    (text id : String) → canonical text ≡ some id → (str_eq id "" ≡ false) × (cast id ≡ some id)

-- An encode that the worker reports, and that can be paused or resumed.
pub record IsControllable (job : String) (j : WorkerJobRuntime) : Type 0 where
  pub id : j.id ≡ job
  pub phase : j.phase ≡ "FFMPEG"
  pub can_pause : j.can_pause ≡ true
  pub state : (j.state ≡ "running") ⊎ (j.state ≡ "paused")

-- The job of a command that may be stored for a worker with this report.
pub data JobOwned (action job : String) (rt : WorkerRuntime) : Type 0 where
  everything : is_individual action ≡ false → job ≡ "" → JobOwned action job rt
  encode :
      is_individual action ≡ true
      → str_eq job "" ≡ false
      → below rt.control_version 2 ≡ false
      → (j : WorkerJobRuntime) → Memᴰ j rt.jobs
      → IsControllable job j
      → JobOwned action job rt

-- The worker that a command may go to.
pub record IsReachable (now : ℕ) (action name : String) (w : WorkerTables) (rt : WorkerRuntime)
    : Type 0 where
  pub row : WorkerRow
  pub found : w.workers name ≡ some row
  pub reported : row.runtime ≡ some rt
  pub recent : now - row.last_seen ≤ 30000000000
  pub new_enough : below rt.control_version 1 ≡ false
  pub accepts : rt.draining ≡ false
  pub unless_finishing : rt.finishing ≡ true → action ≡ "resume-queue"

-- A command `c` that is stored for a worker, and that is all that changes.
pub record Stores (now : ℕ) (action name : String) (w u : WorkerTables) (c : WorkerControl)
    : Type 0 where
  pub runtime : WorkerRuntime
  pub reachable : IsReachable now action name w runtime
  pub known : validate_worker_action c.action ≡ true
  pub asked : c.action ≡ action
  pub job : JobOwned c.action c.job_id runtime
  pub pending : c.state ≡ "pending"
  pub limits : settings c ≡ record (restored name runtime w) { control = none }
  pub resumes : str_eq action "resume-queue" ≡ true → validate_write (settings c) ≡ true
  pub read : get_worker_control name u.controls ≡ some c
  pub others :
      (other : String)
      → str_eq other name ≡ false
      → get_worker_control other u.controls ≡ get_worker_control other w.controls
  pub rest : u ≡ record w { controls = u.controls }

usable-cases :
    (now : ℕ) (action : String) (row : WorkerRow) (report : Option WorkerRuntime)
    → (usable now action row.last_seen report ≡ none)
      ⊎ ((rt : WorkerRuntime) × (usable now action row.last_seen report ≡ some rt)
          × (report ≡ some rt)
          × (now - row.last_seen ≤ 30000000000)
          × (is_unusable action rt ≡ false))
usable-cases now action row none = inl refl
usable-cases now action row (some rt) = elim (Bool-cases (ltb 30000000000 (now - row.last_seen))) [
  | inl late ↦ inl (rw late refl)
  | inr recent ↦ elim (Bool-cases (is_unusable action rt)) [
    | inl refused ↦ inl (rw (recent, refused) refl)
    | inr fit ↦ inr (rt, rw (recent, fit) refl, refl, ground (arith, recent), fit)
  ]
]

reachable-cases :
    (now : ℕ) (action name : String) (w : WorkerTables) (o : Option WorkerRow)
    → w.workers name ≡ o
    → (reachable now action o ≡ none)
      ⊎ ((rt : WorkerRuntime) × (reachable now action o ≡ some rt)
          × IsReachable now action name w rt)
reachable-cases now action name w none e = inl refl
reachable-cases now action name w (some row) e = elim (usable-cases now action row row.runtime) [
  | inl refused ↦ inl refused
  | inr (rt, u, report, recent, fit) ↦ inr (
    rt,
    u,
    record {
      row = row;
      found = e;
      reported = report;
      recent = recent;
      new_enough = ground (arith, fit);
      accepts = ground (arith, fit);
      unless_finishing = λ f. (eq_iff action "resume-queue").0 (ground (arith, fit, f));
    },
  )
]

-- The job that passes: the command is kept for it, and the database takes its ID.
abbrev JobPasses :
    (String → Option String) → String → WorkerRuntime → ControlRefusal ⊎ String → Type 0
JobPasses cast action rt (inl refusal) = Unit
JobPasses cast action rt (inr job) = JobOwned action job rt × JobFits cast action job

owns-IsControllable :
    (job : String) (j : WorkerJobRuntime) → owns job j ≡ true → IsControllable job j
unfolding owns
owns-IsControllable job j h = record {
  id = (eq_iff j.id job).0 (ground (arith, h));
  phase = (eq_iff j.phase "FFMPEG").0 (ground (arith, h));
  can_pause = ground (arith, h);
  state = elim (Bool-cases (str_eq j.state "running")) [
    | inl running ↦ inl ((eq_iff j.state "running").0 running)
    | inr not_running ↦ inr ((eq_iff j.state "paused").0 (ground (arith, h, not_running)))
  ];
}

owned_among :
    (job : String) (jobs : List WorkerJobRuntime)
    → any (owns job) jobs ≡ true
    → (j : WorkerJobRuntime) × Memᴰ j jobs × IsControllable job j
owned_among job [] h = absurd (ground (arith, h))
owned_among job (j ∷ jobs) h = elim (Bool-cases (owns job j)) [
  | inl owned ↦ (j, Memᴰ.head refl, owns-IsControllable job j owned)
  | inr foreign ↦
      let (k, m, c) = owned_among job jobs (ground (arith, h, foreign)) in (k, Memᴰ.tail m, c)
]

owned_job-JobPasses :
    (canonical cast : String → Option String) (action text : String) (rt : WorkerRuntime)
    → Compatible canonical cast
    → is_individual action ≡ true
    → JobPasses cast action rt (owned_job (canonical text) rt)
owned_job-JobPasses canonical cast action text rt k individual = by_id (canonical text) refl
  where
    by_id : (o : Option String) → canonical text ≡ o → JobPasses cast action rt (owned_job o rt)
    by_id none e = tt
    by_id (some id) e = elim (Bool-cases (below rt.control_version 2)) [
      | inl old ↦ rw old tt
      | inr recent ↦ elim (Bool-cases (any (owns id) rt.jobs)) [
        | inl owned ↦
            let (named, fits) = k text id e in
            let (j, m, c) = owned_among id rt.jobs owned in
            rw (recent, owned) (encode individual named recent j m c, one named fits)
        | inr foreign ↦ rw (recent, foreign) tt
      ]
    ]

target_job-JobPasses :
    (canonical cast : String → Option String) (action text : String) (rt : WorkerRuntime)
    → Compatible canonical cast
    → JobPasses cast action rt (target_job canonical action text rt)
target_job-JobPasses canonical cast action text rt k = elim (Bool-cases (is_individual action)) [
  | inl i ↦ rw i (owned_job-JobPasses canonical cast action text rt k i)
  | inr w ↦ elim (Bool-cases (str_eq text "")) [
    | inl empty ↦
        let e : text ≡ "" = (eq_iff text "").0 empty in rw (w, empty) (everything w e, whole e w)
    | inr named ↦ rw (w, named) tt
  ]
]

checked_job-JobPasses :
    (canonical cast : String → Option String) (action : String) (jobs : List String)
    (rt : WorkerRuntime)
    → Compatible canonical cast
    → JobPasses cast action rt (checked_job canonical action jobs rt)
checked_job-JobPasses canonical cast action [] rt k =
    target_job-JobPasses canonical cast action "" rt k
checked_job-JobPasses canonical cast action (job ∷ []) rt k =
    target_job-JobPasses canonical cast action job rt k
checked_job-JobPasses canonical cast action (job ∷ next ∷ jobs) rt k = tt

-- A refusal changes nothing.
abbrev pub Answered : ℕ → String → String → WorkerTables → Issue → Type 0
Answered now action name w (u, inl refusal) = u ≡ w
Answered now action name w (u, inr c) = Stores now action name w u c

no_control : (s : WorkerSettings) → Form s → s.control ≡ none
no_control s (one_limit n e f i j) = e
no_control s (two_limits c g e f i j k sum) = e

valid_limits :
    (s : WorkerSettings)
    → validate_write s ≡ true
    → validate_write (record s { control = none }) ≡ true
unfolding validate_write independent total
valid_limits s h = let e = no_control s (validate_write-Form s h) in rw e at h

put_read :
    (name : String) (job : Option String) (c : WorkerControl) (t : ControlTable)
    → job_text job ≡ c.job_id
    → c.state ≡ "pending"
    → c.error ≡ ""
    → get_worker_control name (put name (pending_row c.id job c) t) ≡ some c
unfolding get_worker_control
put_read name job c t e p n = rw ((eq_iff name name).1 refl, e, sym p, sym n) refl

put_others :
    (name other : String) (job : Option String) (c : WorkerControl) (t : ControlTable)
    → str_eq other name ≡ false
    → get_worker_control other (put name (pending_row c.id job c) t) ≡ get_worker_control other t
unfolding get_worker_control
put_others name other job c t d = rw d refl

issue-Answered :
    (cast : String → Option String) (now : ℕ) (id name action job : String) (w : WorkerTables)
    (rt : WorkerRuntime)
    → cast id ≡ some id
    → validate_worker_action action ≡ true
    → IsReachable now action name w rt
    → JobOwned action job rt
    → JobFits cast action job
    → Answered now action name w (issue cast id name action (restored name rt w) w (inr job))
unfolding settings
issue-Answered cast now id name action job w rt k known reaches owned fits =
    elim (Bool-cases (str_eq action "resume-queue" && not (validate_write (restored name rt w)))) [
      | inl unsaved ↦ rw unsaved refl
      | inr ready ↦
          let c = new_control id job action (restored name rt w) in
          let (row, e, wrote) =
            set_worker_control-stored cast name c w.controls
              (record { id = k; known = known; job = fits }) in
          rw (ready, wrote)
            (record {
              runtime = rt;
              reachable = reaches;
              known = known;
              asked = refl;
              job = owned;
              pending = refl;
              limits = refl;
              resumes = λ q. valid_limits (restored name rt w) (ground (arith, ready, q));
              read = put_read name row c w.controls e refl refl;
              others = λ other d. put_others name other row c w.controls d;
              rest = refl;
            })
    ]

-- `ControlWorker` either refuses, and then changes nothing, or stores the command that was asked
-- for, as the only command to a worker that reported within 30 seconds, is new enough and outside
-- maintenance, unless the queue of a finishing worker is to be resumed. A command to one encode is
-- stored only for an encode that the worker reports as running or paused and as one that it can
-- pause; any other command names no job; the queue is resumed only with limits that may be
-- written.
pub control_worker-Answered :
    (canonical cast : String → Option String) (now : ℕ) (id name action : String)
    (jobs : List String) (w : WorkerTables)
    → Compatible canonical cast
    → cast id ≡ some id
    → Answered now action name w (control_worker canonical cast now id name action jobs w)
unfolding control_worker
control_worker-Answered canonical cast now id name action jobs w k fresh =
    elim (Bool-cases (validate_worker_action action)) [
      | inr unknown ↦ rw unknown refl
      | inl known ↦ rw known (elim (reachable-cases now action name w (w.workers name) refl) [
        | inl refused ↦ rw refused refl
        | inr (rt, e, reaches) ↦ rw e (
            by_job rt known reaches (checked_job canonical action jobs rt)
              (checked_job-JobPasses canonical cast action jobs rt k))
      ])
    ]
  where
    by_job :
        (rt : WorkerRuntime)
        → validate_worker_action action ≡ true
        → IsReachable now action name w rt
        → (job : ControlRefusal ⊎ String) → JobPasses cast action rt job
        → Answered now action name w (issue cast id name action (restored name rt w) w job)
    by_job rt known reaches (inl refusal) p = refl
    by_job rt known reaches (inr job) p =
        issue-Answered cast now id name action job w rt fresh known reaches p.0 p.1
