-- ===== src/Worker/Admission.antt =====
-- worker/worker/executor.go: what the worker's limits, holds and pauses do, and which jobs it may
-- accept. `encodePool` and `encodeProcesses` are there, as `NewEncodeWorker` makes them. Whether
-- the system call that suspends a process succeeds, whether the server has saved a setting, whether
-- the schedule admits jobs now and whether the platform can suspend processes are arguments.
pub mod Holds
pub mod Commands
use transcoderd.Prelude.{
  ℕ, zero, suc, ◌+◌, ◌-◌, ◌%◌, Bool, true, false, not, ◌&&◌, ◌||◌, Option, none, some, List, [],
  ◌∷◌, String, str_eq, ltb, leb, ◌==◌, if◌then◌else◌,
}
use transcoderd.Prelude.Int.{ℤ, pos, negsuc}
use transcoderd.Model.Settings.{checked_sum, max_int}
use transcoderd.Worker.Pause as Pause
use transcoderd.Worker.EncodePool as EncodePool

pub data PauseMode : Type 0 where
  finish_mode ram_mode : PauseMode

pub record JobExecutor : Type 0 where
  pub active_jobs : ℕ
  pub reserved_jobs : ℕ
  pub max_active_jobs : ℕ
  pub settings_pending : Bool
  pub admission_held : Bool
  pub finishing : Bool
  pub pause_mode : PauseMode
  pub ram_paused : Bool
  pub pool : EncodePool.EncodeConcurrency
  pub processes : Pause.Controller

pub data AdmissionError : Type 0 where
  negative_limit : AdmissionError
  unsupported_limits : AdmissionError
  pause_fails : AdmissionError
  unknown_mode : AdmissionError
  ram_unavailable : AdmissionError
  drains : AdmissionError
  not_pausable : AdmissionError
  invalid_job_id : AdmissionError
  no_client : AdmissionError
  not_saved : AdmissionError
  not_accepting : AdmissionError
  not_prepared : AdmissionError

-- An operation's error, none where it succeeds.
abbrev pub Answer : Type 0
Answer = JobExecutor × Option AdmissionError

-- `uint32` counters.
abbrev pub count32 : ℕ → ℕ
count32 n = n % 4294967296

abbrev pub is_ram : PauseMode → Bool
is_ram ram_mode = true
is_ram finish_mode = false

-- Go on where the processes have answered without an error.
abbrev pub when_done :
    (JobExecutor → JobExecutor) → JobExecutor → Pause.Controller × Pause.Outcome → Answer
when_done f e (p, Pause.done) = (f (record e { processes = p }), none)
when_done f e (p, _) = (record e { processes = p }, some pause_fails)

abbrev pub suspend : (ℕ → Bool → Bool) → Bool → (JobExecutor → JobExecutor) → JobExecutor → Answer
suspend set paused f e = when_done f e (Pause.set_paused set paused e.processes)

abbrev pub resume : (ℕ → Bool → Bool) → (JobExecutor → JobExecutor) → JobExecutor → Answer
resume set f e = when_done f e (Pause.resume_all set e.processes)

abbrev pub hold_pool : Bool → JobExecutor → JobExecutor
hold_pool paused e = record e { pool = EncodePool.set_paused paused e.pool }

abbrev pub close_pool : JobExecutor → JobExecutor
close_pool e = record e { pool = EncodePool.pause e.pool }

unfoldable pub limit_applied : ℕ → PauseMode → Bool → JobExecutor → JobExecutor
limit_applied max mode ram e =
    let e' = record e {
      finishing = false;
      max_active_jobs = max;
      pause_mode = mode;
      ram_paused = ram;
      pool = if ltb 0 max then EncodePool.set_target max e.pool else e.pool;
    } in
    let e'' = hold_pool ((ram || max == 0 || e.settings_pending) && not e.admission_held) e' in
    if max == 0 then close_pool e'' else e''

unfoldable pub apply_limit : (ℕ → Bool → Bool) → ℕ → PauseMode → Bool → JobExecutor → Answer
unfolding limit_applied
apply_limit set max mode ram e =
    suspend set ((ram || max == 0 && is_ram mode) && not e.admission_held)
      (limit_applied max mode ram) e

unfoldable pub set_max_active_jobs : (ℕ → Bool → Bool) → ℤ → JobExecutor → Answer
unfolding apply_limit
set_max_active_jobs set (negsuc n) e = (e, some negative_limit)
set_max_active_jobs set (pos max) e = apply_limit set max e.pause_mode e.ram_paused e

unfoldable pub limits_applied : ℕ → ℕ → ℕ → JobExecutor → JobExecutor
limits_applied cpu gpu total e =
    hold_pool ((total == 0 || e.ram_paused || e.settings_pending) && not e.admission_held)
      (record e {
        pool = EncodePool.set_limits cpu gpu e.pool;
        max_active_jobs = total;
        finishing = false;
      })

-- The limits of the classes, with their sum where it is one that an `int` holds.
abbrev pub nat_of : ℤ → ℕ
nat_of (pos n) = n
nat_of (negsuc n) = 0

-- `Total` is none where it fails.
abbrev pub set_checked_limits : (ℕ → Bool → Bool) → ℕ → ℕ → Option ℕ → JobExecutor → Answer
set_checked_limits set cpu gpu none e = (e, some unsupported_limits)
set_checked_limits set cpu gpu (some total) e =
    suspend set ((e.ram_paused || total == 0 && is_ram e.pause_mode) && not e.admission_held)
      (limits_applied cpu gpu total) e

unfoldable pub set_encoder_limits : (ℕ → Bool → Bool) → ℤ → ℤ → JobExecutor → Answer
unfolding limits_applied
set_encoder_limits set cpu gpu e =
    set_checked_limits set (nat_of cpu) (nat_of gpu) (checked_sum (some cpu) (some gpu)) e

unfoldable pub ram_applied : Bool → JobExecutor → JobExecutor
ram_applied paused e =
    hold_pool (paused || e.max_active_jobs == 0 || e.settings_pending)
      (record e { pause_mode = finish_mode; ram_paused = paused })

unfoldable pub set_ram_paused : Bool → (ℕ → Bool → Bool) → Bool → JobExecutor → Answer
unfolding ram_applied
set_ram_paused supported set paused e =
    if paused && not supported
    then (e, some ram_unavailable)
    else if e.admission_held || e.finishing
    then (e, some drains)
    else suspend set paused (ram_applied paused) e

abbrev pub finish_applied : JobExecutor → JobExecutor
finish_applied e = hold_pool false (record e {
  finishing = true;
  pause_mode = finish_mode;
  ram_paused = false;
  max_active_jobs = 0;
})

unfoldable pub finish_accepted_jobs : (ℕ → Bool → Bool) → JobExecutor → Answer
finish_accepted_jobs set e = resume set finish_applied e

abbrev pub drain_applied : JobExecutor → JobExecutor
drain_applied e =
    hold_pool false (record e { admission_held = true; ram_paused = false; max_active_jobs = 0 })

unfoldable pub drain_accepted_jobs : (ℕ → Bool → Bool) → JobExecutor → Answer
drain_accepted_jobs set e = resume set drain_applied e

abbrev pub hold_applied : JobExecutor → JobExecutor
hold_applied e = hold_pool false (record e { admission_held = true; ram_paused = false })

unfoldable pub hold_admission : (ℕ → Bool → Bool) → JobExecutor → Answer
hold_admission set e = resume set hold_applied e

unfoldable pub require_worker_settings : JobExecutor → JobExecutor
require_worker_settings e =
    let e' = record e { settings_pending = true } in
    if e.admission_held then e' else hold_pool true e'

unfoldable pub mark_worker_settings_resolved : JobExecutor → JobExecutor
mark_worker_settings_resolved e =
    hold_pool ((e.max_active_jobs == 0 || e.ram_paused) && not e.admission_held && not e.finishing)
      (record e { settings_pending = false })

abbrev pub resolved : Answer → Answer
resolved (e, none) = (mark_worker_settings_resolved e, none)
resolved (e, some x) = (e, some x)

-- `reply` is what the server answers to the write, none without a client.
abbrev pub once_saved : Option Bool → JobExecutor → Answer → Answer
once_saved none e a = (e, some no_client)
once_saved (some false) e a = (e, some not_saved)
once_saved (some true) e a = resolved a

abbrev pub once_checked : Option ℕ → JobExecutor → Answer → Answer
once_checked none e a = (e, some unsupported_limits)
once_checked (some total) e a = a

unfoldable pub persist_encoder_limits :
    Option Bool → (ℕ → Bool → Bool) → ℤ → ℤ → JobExecutor → Answer
unfolding set_encoder_limits mark_worker_settings_resolved
persist_encoder_limits reply set cpu gpu e =
    once_checked (checked_sum (some cpu) (some gpu)) e
      (once_saved reply e (set_encoder_limits set cpu gpu e))

-- The pause that a change of admission alone keeps.
unfoldable pub kept_pause : JobExecutor → Bool
kept_pause e =
    e.ram_paused
    || e.max_active_jobs == 0 && is_ram e.pause_mode && not e.admission_held && not e.finishing

unfoldable pub persist_limit : Option Bool → (ℕ → Bool → Bool) → ℤ → Bool → JobExecutor → Answer
unfolding apply_limit mark_worker_settings_resolved kept_pause
persist_limit reply set (negsuc n) admission_only e = (e, some negative_limit)
persist_limit reply set (pos max) admission_only e = once_saved reply e (
    if admission_only
    then apply_limit set max finish_mode (kept_pause e) e
    else apply_limit set max e.pause_mode e.ram_paused e)

-- `ResolvePauseMode`.
unfoldable pub resolve_pause_mode : Bool → String → Option PauseMode
resolve_pause_mode supported mode =
    if str_eq mode "" || str_eq mode "finish"
    then some finish_mode
    else if str_eq mode "ram" && supported
    then some ram_mode
    else none

abbrev pub set_resolved_mode : (ℕ → Bool → Bool) → Option PauseMode → JobExecutor → Answer
set_resolved_mode set none e = (e, some unknown_mode)
set_resolved_mode set (some mode) e =
    suspend set
      ((e.ram_paused || is_ram mode && e.max_active_jobs == 0)
        && not e.admission_held
        && not e.finishing)
      (λ e'. record e' { pause_mode = mode }) e

unfoldable pub set_pause_mode : Bool → (ℕ → Bool → Bool) → String → JobExecutor → Answer
unfolding resolve_pause_mode
set_pause_mode supported set value e = set_resolved_mode set (resolve_pause_mode supported value) e

abbrev pub job_answer : JobExecutor → Pause.Controller × Pause.Outcome → Answer
job_answer e (p, Pause.done) = (record e { processes = p }, none)
job_answer e (p, Pause.not_running) = (record e { processes = p }, some not_pausable)
job_answer e (p, _) = (record e { processes = p }, some pause_fails)

-- `key` is none where the job's ID is no UUID.
unfoldable pub set_job_paused :
    Bool → (ℕ → Bool → Bool) → Option String → Bool → JobExecutor → Answer
set_job_paused supported set none paused e = (e, some invalid_job_id)
set_job_paused supported set (some key) paused e =
    if not supported
    then (e, some ram_unavailable)
    else if e.admission_held || e.finishing
    then (e, some drains)
    else job_answer e (Pause.set_job_paused set key paused e.processes)

abbrev pub no_processes : Pause.Controller
no_processes = record { paused = false; changes = 0; processes = [] }

-- The pauses that `NewEncodeWorker` sets up. A controller without processes asks nothing of the
-- system.
unfoldable pub new_encode_worker : ℕ → ℕ → PauseMode → Bool → EncodePool.EncoderKind → JobExecutor
new_encode_worker max parallel mode ram primary =
    let paused =
      EncodePool.set_paused (max == 0 || ram) (EncodePool.new_encode_concurrency parallel) in
    let pool = EncodePool.set_primary primary paused in
    record {
      active_jobs = 0;
      reserved_jobs = 0;
      max_active_jobs = max;
      settings_pending = false;
      admission_held = false;
      finishing = false;
      pause_mode = mode;
      ram_paused = ram;
      pool = if max == 0 then EncodePool.pause pool else pool;
      processes =
          if ram || max == 0 && is_ram mode
          then (Pause.set_paused (λ pid b. true) true no_processes).0
          else no_processes;
    }
