-- ===== src/Worker/Remote.antt =====
-- worker/worker/remoteControl.go and coordinator.go: how a worker takes over the settings that the
-- server keeps for it, and carries out its commands, each once. What the server answers, and what
-- the system says to a signal, are arguments.
pub mod Converges
pub mod Effects
use Prim.Native.String.{len, ◌++◌ as ◌+++◌}
use transcoderd.Prelude.{
  ℕ, zero, suc, ◌+◌, ◌-◌, Bool, true, false, not, ◌&&◌, ◌||◌, Option, none, some, List, [], ◌∷◌,
  String, str_eq, ltb, ◌==◌, if◌then◌else◌,
}
use transcoderd.Prelude.Int.{ℤ, pos, negsuc}
use transcoderd.Model.Settings.{
  WorkerControl, WorkerSettings, independent, validate_write, validate_worker_action, settings,
}
use transcoderd.Server.Repository.Controls.{WorkerControlAck}
use transcoderd.Worker.Admission.{
  JobExecutor, Answer, AdmissionError, set_job_paused, set_ram_paused, set_pause_mode,
  set_encoder_limits, set_max_active_jobs, mark_worker_settings_resolved,
}

pub data RemoteError : Type 0 where
  unknown_action : RemoteError
  worker_drains : RemoteError
  executor_fails : AdmissionError → RemoteError
  invalid_limits : RemoteError
  limits_not_written : RemoteError

-- What surrounds the worker in one round: whether it can suspend processes and how the system
-- answers a signal, `uuid.Parse`, whether the server writes settings, takes the ping and the
-- acknowledgement, the text of an error, and what is left of a text that is cut at 512 bytes.
pub record Surroundings : Type 0 where
  pub suspends : Bool
  pub signal : ℕ → Bool → Bool
  pub canonical : String → Option String
  pub writes : WorkerSettings → Bool
  pub pings : Bool
  pub takes : WorkerControlAck → Bool
  pub describe : RemoteError → String
  pub cut : String → String

pub record Coordinator : Type 0 where
  pub worker : JobExecutor
  pub applied_control_id : String
  pub applied_control_error : String

abbrev pub Executed : Type 0
Executed = JobExecutor × Option RemoteError

abbrev pub executed : Answer → Executed
executed (e, none) = (e, none)
executed (e, some x) = (e, some (executor_fails x))

-- Two classes have a limit each, else there is one limit.
abbrev pub apply_limits : (ℕ → Bool → Bool) → Option ℤ → Option ℤ → Option ℤ → JobExecutor → Answer
apply_limits signal (some c) (some g) max e = set_encoder_limits signal c g e
apply_limits signal _ _ (some max) e = set_max_active_jobs signal max e
apply_limits signal _ _ none e = (e, none)

abbrev pub once_executed : Answer → (JobExecutor → Answer) → Executed
once_executed (e, none) next = executed (next e)
once_executed (e, some x) next = (e, some (executor_fails x))

abbrev pub set_queue : Surroundings → WorkerSettings → JobExecutor → Executed
set_queue v s e =
    if not (validate_write s)
    then (e, some invalid_limits)
    else if not (v.writes s)
    then (e, some limits_not_written)
    else once_executed (set_pause_mode v.suspends v.signal "finish" e)
        (apply_limits v.signal s.cpu_jobs s.gpu_jobs s.max_active_jobs)

abbrev pub no_encodes : WorkerSettings
no_encodes = record {
  control = none;
  max_active_jobs = none;
  cpu_jobs = some (pos 0);
  gpu_jobs = some (pos 0);
}

abbrev pub carry_out : Surroundings → WorkerControl → JobExecutor → Executed
carry_out v c e =
    if str_eq c.action "pause-job" || str_eq c.action "resume-job"
    then executed
        (set_job_paused v.suspends v.signal (v.canonical c.job_id) (str_eq c.action "pause-job") e)
    else if str_eq c.action "pause-encodes"
    then executed (set_ram_paused v.suspends v.signal true e)
    else if str_eq c.action "resume-encodes"
    then executed (set_ram_paused v.suspends v.signal false e)
    else if str_eq c.action "stop-after-current"
    then set_queue v no_encodes e
    else if str_eq c.action "resume-queue"
    then set_queue v (settings c) e
    else (e, none)

unfoldable pub execute_remote_control : Surroundings → WorkerControl → JobExecutor → Executed
unfolding validate_worker_action validate_write settings set_job_paused set_ram_paused
    set_pause_mode set_encoder_limits set_max_active_jobs
execute_remote_control v c e =
    if not (validate_worker_action c.action)
    then (e, some unknown_action)
    else if e.admission_held || e.finishing && not (str_eq c.action "resume-queue")
    then (e, some worker_drains)
    else carry_out v c e

-- The text of an error that is acknowledged, none without an error.
abbrev pub error_text : Surroundings → Option RemoteError → String
error_text v none = ""
error_text v (some x) =
    let text = "Worker could not apply control: " +++ v.describe x in
    if ltb 512 (len text) then v.cut text else text

abbrev pub remember : Surroundings → WorkerControl → Executed → Coordinator
remember v c (e, error) = record {
  worker = e;
  applied_control_id = c.id;
  applied_control_error = error_text v error;
}

abbrev pub resolve : Coordinator → Coordinator
resolve q = record q { worker = mark_worker_settings_resolved q.worker }

abbrev pub resolve_if : Bool → Coordinator → Coordinator
resolve_if b q = if b then resolve q else q

-- How a round ends, and what it sends to acknowledge.
pub data Round : Type 0 where
  synced : Round
  not_loaded : Round
  ping_fails : Round
  ack_fails : Round
  control_fails : String → Round
  limits_fail : AdmissionError → Round

pub record Reported : Type 0 where
  pub coordinator : Coordinator
  pub ack : Option WorkerControlAck
  pub round : Round

abbrev pub acknowledged : Coordinator → WorkerControlAck → Bool → Reported
acknowledged q ack false = record { coordinator = q; ack = some ack; round = ack_fails }
acknowledged q ack true = record {
  coordinator = resolve_if (str_eq q.applied_control_error "") q;
  ack = some ack;
  round =
      if str_eq q.applied_control_error "" then synced else control_fails q.applied_control_error;
}

abbrev pub report : Surroundings → WorkerControl → Coordinator → Reported
report v c q =
    let ack : WorkerControlAck = record { id = c.id; error = q.applied_control_error } in
    if v.pings
    then acknowledged q ack (v.takes ack)
    else record { coordinator = q; ack = none; round = ping_fails }

abbrev pub apply_once : Surroundings → WorkerControl → Coordinator → Coordinator
apply_once v c q =
    if str_eq q.applied_control_id c.id
    then q
    else remember v c (execute_remote_control v c q.worker)

unfoldable pub apply_remote_control : Surroundings → WorkerControl → Coordinator → Reported
unfolding execute_remote_control mark_worker_settings_resolved
apply_remote_control v c q =
    let q' = apply_once v c q in report v c (resolve_if (str_eq q'.applied_control_error "") q')

abbrev pub same_int : ℕ → ℤ → Bool
same_int n (pos m) = n == m
same_int n (negsuc m) = false

abbrev pub is_positive : ℤ → Bool
is_positive (pos n) = ltb 0 n
is_positive (negsuc n) = false

abbrev pub has_classes : ℤ → ℤ → JobExecutor → Bool
has_classes c g e = e.pool.independent && same_int e.pool.cpu_jobs c && same_int e.pool.gpu_jobs g

abbrev pub has_limit : ℤ → JobExecutor → Bool
has_limit max e =
    same_int e.max_active_jobs max
    && not (is_positive max && (not (same_int e.pool.target max) || e.pool.independent))

-- Limits that are there already are not set again.
abbrev pub align : (ℕ → Bool → Bool) → Option ℤ → Option ℤ → Option ℤ → JobExecutor → Answer
align signal (some c) (some g) max e =
    if has_classes c g e then (e, none) else set_encoder_limits signal c g e
align signal _ _ (some max) e =
    if has_limit max e then (e, none) else set_max_active_jobs signal max e
align signal _ _ none e = (e, none)

abbrev pub aligned : Coordinator → Answer → Reported
aligned q (e, none) = record {
  coordinator = resolve (record q { worker = e });
  ack = none;
  round = synced;
}
aligned q (e, some x) = record {
  coordinator = record q { worker = e };
  ack = none;
  round = limits_fail x;
}

abbrev pub converge : Surroundings → WorkerSettings → Coordinator → Reported
converge v s q =
    if q.worker.finishing || q.worker.admission_held
    then record { coordinator = resolve q; ack = none; round = synced }
    else aligned q (align v.signal s.cpu_jobs s.gpu_jobs s.max_active_jobs q.worker)

abbrev pub obey : Surroundings → WorkerSettings → Option WorkerControl → Coordinator → Reported
obey v s none q = converge v s q
obey v s (some c) q = apply_remote_control v c q

abbrev pub with_reply : Surroundings → Option WorkerSettings → Coordinator → Reported
with_reply v none q = record { coordinator = q; ack = none; round = not_loaded }
with_reply v (some s) q = obey v s s.control q

-- One round, with the settings that the server answers, none where the request fails.
unfoldable pub sync_worker_settings : Surroundings → Option WorkerSettings → Coordinator → Reported
unfolding apply_remote_control set_encoder_limits set_max_active_jobs mark_worker_settings_resolved
sync_worker_settings v reply q = with_reply v reply q
