-- ===== src/Examples/Controls.antt =====
-- Concrete commands to workers: issued, delivered, executed and acknowledged.

use transcoderd.Prelude.{
  ◌≡◌, refl, sym, ap, arith, true, false, Option, none, some, List, [], ◌∷◌, String, str_eq, All,
  Bool-cases, inl, inr, if◌then◌else◌,
}
use transcoderd.Prelude.Int.{pos}
use transcoderd.Model.Settings.{WorkerControl, WorkerSettings, validate_worker_action}
use transcoderd.Server.Repository.Controls.{
  is_individual, job_text, WorkerControlAck, get_worker_control,
}
use transcoderd.Server.Repository.Controls.Agreement.{
  Operation, issue, acknowledge, Canonical, issues, acknowledges, Storable, whole, Agree, in_tables,
  in_memory, answers, answers-Agree,
}
use transcoderd.Server.Repository.Memory as Memory
use transcoderd.Server.Scheduler.Controls.{
  WorkerRuntime, WorkerTables, control_worker, set_worker_settings,
}
use transcoderd.Server.Scheduler.Controls.Issued.{Compatible, Answered, control_worker-Answered}
use transcoderd.Server.Scheduler.Controls.Managed.{Written, set_worker_settings-Written}
use transcoderd.Worker.EncodePool.{gpu}
use transcoderd.Worker.EncodePool as EncodePool
use transcoderd.Worker.Pause as Pause
use transcoderd.Worker.Admission.{finish_mode, new_encode_worker}
use transcoderd.Worker.Remote.{Surroundings, Coordinator, sync_worker_settings}
use transcoderd.Worker.Remote.Converges.{Converged, sync_worker_settings-Converged}
use transcoderd.Worker.Requests.{Answers, request_task}
use transcoderd.Worker.Requests.Slotted.{Slotted, request_task-Slotted}
use transcoderd.Protocol.{System, polled}
use transcoderd.Protocol as Protocol

-- The UUIDs of these runs.
abbrev parsed : String → Option String
parsed text = if str_eq text "" then none else some text

parsed-Compatible : Compatible parsed parsed
parsed-Compatible text id e = elim (Bool-cases (str_eq text "")) [
  | inl empty ↦ absurd (ground (arith, rw empty at e))
  | inr named ↦
      let same : text ≡ id = ap job_text (rw named at e) in rw (sym same) (named, rw named refl)
]

abbrev pause_all : WorkerControl
pause_all = record {
  id = "c1";
  job_id = "";
  action = "pause-encodes";
  state = "pending";
  error = "";
  cpu_jobs = some (pos 1);
  gpu_jobs = some (pos 1);
  max_active_jobs = none;
}

pause_all-Storable : Storable parsed pause_all
unfolding validate_worker_action is_individual
pause_all-Storable = record { id = refl; known = refl; job = whole refl refl }

abbrev acknowledged : WorkerControlAck
acknowledged = record { id = "c1"; error = "" }

abbrev run : List Operation
run = issue "w" pause_all ∷ acknowledge "w" acknowledged ∷ []

run-Canonical : All (Canonical parsed) run
run-Canonical = (issues "w" pause_all pause_all-Storable, (acknowledges "w" acknowledged refl, tt))

answers-Agree_example :
    Agree (answers (in_tables parsed) run (λ name. none)).0 (answers in_memory run (λ name. none)).0
    × ((answers (in_tables parsed) run (λ name. none)).1 ≡ (answers in_memory run (λ name. none)).1)
unfolding Memory.get_worker_control get_worker_control
answers-Agree_example =
    answers-Agree parsed run (λ name. none) (λ name. none) run-Canonical (λ name. refl)

abbrev busy : WorkerRuntime
busy = record {
  control_version = pos 2;
  finishing = false;
  draining = false;
  managed_profile = true;
  encoder = "av1_nvenc";
  cpu_jobs = pos 0;
  gpu_jobs = pos 2;
  jobs = record { id = "j1"; phase = "FFMPEG"; state = "running"; can_pause = true } ∷ [];
}

abbrev tables : WorkerTables
tables = record {
  workers = λ name. some record { last_seen = 5; runtime = some busy };
  limits = λ name. none;
  controls = λ name. none;
}

control_worker-Answered_example :
    Answered 9 "pause-job" "w" tables
      (control_worker parsed parsed 9 "c2" "w" "pause-job" ("j1" ∷ []) tables)
control_worker-Answered_example =
    control_worker-Answered parsed parsed 9 "c2" "w" "pause-job" ("j1" ∷ []) tables
      parsed-Compatible refl

abbrev two_gpu : WorkerSettings
two_gpu = record {
  control = none;
  max_active_jobs = none;
  cpu_jobs = some (pos 0);
  gpu_jobs = some (pos 2);
}

set_worker_settings-Written_example :
    Written "w" two_gpu tables (set_worker_settings "w" two_gpu tables)
set_worker_settings-Written_example = set_worker_settings-Written "w" two_gpu tables

abbrev quiet : Surroundings
quiet = record {
  suspends = true;
  signal = λ pid paused. true;
  canonical = parsed;
  writes = λ s. true;
  pings = true;
  takes = λ ack. true;
  describe = λ error. "no reason";
  cut = λ text. "cut";
}

abbrev idle : Coordinator
idle = record {
  worker = new_encode_worker 2 2 finish_mode false gpu;
  applied_control_id = "";
  applied_control_error = "";
}

sync_worker_settings-Converged_example :
    Converged two_gpu (sync_worker_settings quiet (some two_gpu) idle).coordinator
unfolding new_encode_worker sync_worker_settings EncodePool.set_primary EncodePool.set_paused
    EncodePool.new_encode_concurrency Pause.set_paused Pause.transition
sync_worker_settings-Converged_example =
    sync_worker_settings-Converged quiet two_gpu idle refl refl refl

abbrev a_job : Answers
a_job = record {
  allowed = true;
  update = some false;
  still_allowed = true;
  has_job = true;
  prepared = true;
}

request_task-Slotted_example :
    let e = (sync_worker_settings quiet (some two_gpu) idle).coordinator.worker in
    let (p, attempt) = request_task quiet (some two_gpu) a_job idle in
    Slotted true e (p.worker, attempt)
request_task-Slotted_example = request_task-Slotted quiet (some two_gpu) a_job idle

abbrev begun : System
begun = record {
  table = λ name. none;
  fetched = none;
  coordinator = idle;
  sent = [];
  issued = [];
  log = [];
}

abbrev issued_once : System
issued_once = Protocol.given parsed "w" "2" pause_all begun

abbrev received : System
received = polled parsed "w" "2" issued_once
