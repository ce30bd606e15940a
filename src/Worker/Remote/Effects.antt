-- ===== src/Worker/Remote/Effects.antt =====
-- worker/worker/remoteControl.go: what a command has done where it succeeds.
use transcoderd.Prelude.{◌≡◌, Bool, true, false, ◌||◌, none, some, String, if◌then◌else◌}
use transcoderd.Model.Settings.{WorkerControl, WorkerSettings, settings}
use transcoderd.Worker.Pause as Pause
use transcoderd.Worker.Pause.Transition.{settled}
use transcoderd.Worker.Admission.{JobExecutor, set_job_paused}
use transcoderd.Worker.Slots.{can_reserve_job_slot}
use transcoderd.Worker.Remote.{Surroundings, apply_limits, no_encodes}
use transcoderd.Worker.Remote.Converges.{HasLimits}

-- The job's processes have answered without an error.
pub record JobPaused (v : Surroundings) (job : String) (paused : Bool) (e d : JobExecutor)
    : Type 0 where
  pub key : String
  pub parsed : v.canonical job ≡ some key
  pub answered : Pause.set_job_paused v.signal key paused e.processes ≡ (d.processes, Pause.done)

-- All encodes are paused or not: each process is suspended exactly if that was asked for or it has a
-- hold of its own.
pub record AllPaused (paused : Bool) (e d : JobExecutor) : Type 0 where
  pub flag : d.ram_paused ≡ paused
  pub controller : d.processes.paused ≡ paused
  pub each : d.processes.processes ≡ settled (λ p. paused || p.individual) e.processes.processes

pub data Effect (v : Surroundings) (c : WorkerControl) (e d : JobExecutor) : Type 0 where
  job_pauses :
      (paused : Bool)
      → c.action ≡ (if paused then "pause-job" else "resume-job")
      → JobPaused v c.job_id paused e d
      → Effect v c e d
  all_pause :
      (paused : Bool)
      → c.action ≡ (if paused then "pause-encodes" else "resume-encodes")
      → AllPaused paused e d
      → Effect v c e d
  queue_stops :
      c.action ≡ "stop-after-current"
      → v.writes no_encodes ≡ true
      → ((allowed : Bool) → can_reserve_job_slot allowed d ≡ false)
      → Effect v c e d
  queue_resumes :
      c.action ≡ "resume-queue"
      → v.writes (settings c) ≡ true
      → HasLimits c.cpu_jobs c.gpu_jobs c.max_active_jobs d
      → Effect v c e d

-- Where the queue's limits change, the server has written them, and the executor has taken them.
record QueueSet (v : Surroundings) (s : WorkerSettings) (d : JobExecutor) : Type 0 where
  before : JobExecutor
  written : v.writes s ≡ true
  done : (apply_limits v.signal s.cpu_jobs s.gpu_jobs s.max_active_jobs before).1 ≡ none
  result : d ≡ (apply_limits v.signal s.cpu_jobs s.gpu_jobs s.max_active_jobs before).0
