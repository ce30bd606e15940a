-- ===== src/Server/Repository/Limits.antt =====
-- server/repository/encoderSettings.go, workerControls.go and repository.go: the table of worker
-- settings, as a function from the worker's name to its row. A row keeps its last limits that were
-- not zero, to resume the queue with.
pub mod Saved
use transcoderd.Prelude.{
  ℕ, Bool, true, false, not, ◌&&◌, Option, none, some, String, str_eq, ltb, if◌then◌else◌,
}
use transcoderd.Prelude.Int.{ℤ, pos, negsuc}
use transcoderd.Model.Settings.{WorkerSettings, independent, total, validate_write}

pub record LimitRow : Type 0 where
  pub max_active_jobs : ℕ
  pub cpu_jobs : Option ℕ
  pub gpu_jobs : Option ℕ
  pub resume_max_active_jobs : Option ℕ
  pub resume_cpu_jobs : Option ℕ
  pub resume_gpu_jobs : Option ℕ

abbrev pub LimitTable : Type 0
LimitTable = String → Option LimitRow

pub data LimitError : Type 0 where
  name_required : LimitError
  invalid_settings : LimitError

abbrev pub of_nat : Option ℕ → Option ℤ
of_nat none = none
of_nat (some n) = some (pos n)

abbrev pub no_settings : WorkerSettings
no_settings = record { control = none; max_active_jobs = none; cpu_jobs = none; gpu_jobs = none }

abbrev pub settings_of : Option LimitRow → WorkerSettings
settings_of none = no_settings
settings_of (some r) = record {
  control = none;
  max_active_jobs = some (pos r.max_active_jobs);
  cpu_jobs = of_nat r.cpu_jobs;
  gpu_jobs = of_nat r.gpu_jobs;
}

unfoldable pub get_worker_settings : String → LimitTable → WorkerSettings
get_worker_settings name t = settings_of (t name)

abbrev pub resume_of : Option LimitRow → WorkerSettings
resume_of none = no_settings
resume_of (some r) = record {
  control = none;
  max_active_jobs = of_nat r.resume_max_active_jobs;
  cpu_jobs = of_nat r.resume_cpu_jobs;
  gpu_jobs = of_nat r.resume_gpu_jobs;
}

unfoldable pub get_worker_resume_settings : String → LimitTable → WorkerSettings
get_worker_resume_settings name t = resume_of (t name)

-- The columns that both statements write: the new limits are also those to resume with, unless the
-- queue is stopped by them.
abbrev pub written : ℕ → Option ℕ → Option ℕ → Option LimitRow → LimitRow
written max cpu gpu none = record {
  max_active_jobs = max;
  cpu_jobs = cpu;
  gpu_jobs = gpu;
  resume_max_active_jobs = if ltb 0 max then some max else none;
  resume_cpu_jobs = if ltb 0 max then cpu else none;
  resume_gpu_jobs = if ltb 0 max then gpu else none;
}
written max cpu gpu (some r) = record {
  max_active_jobs = max;
  cpu_jobs = cpu;
  gpu_jobs = gpu;
  resume_max_active_jobs = if ltb 0 max then some max else r.resume_max_active_jobs;
  resume_cpu_jobs = if ltb 0 max then cpu else r.resume_cpu_jobs;
  resume_gpu_jobs = if ltb 0 max then gpu else r.resume_gpu_jobs;
}

-- INSERT … ON CONFLICT (worker_name) DO UPDATE.
abbrev pub upsert : String → ℕ → Option ℕ → Option ℕ → LimitTable → LimitTable
upsert name max cpu gpu t other =
    if str_eq other name then some (written max cpu gpu (t name)) else t other

unfoldable pub set_worker_max_active_jobs : String → ℤ → LimitTable → LimitTable × Option LimitError
set_worker_max_active_jobs name (negsuc n) t =
    (t, some (if str_eq name "" then name_required else invalid_settings))
set_worker_max_active_jobs name (pos n) t =
    if str_eq name "" then (t, some name_required) else (upsert name n none none t, none)

-- The two forms of settings, behind the tests.
abbrev pub write_limits :
    String → Option ℤ → Option ℤ → Option ℤ → Option ℕ → LimitTable → LimitTable × Option LimitError
write_limits name max (some (pos c)) (some (pos g)) (some n) t =
    (upsert name n (some c) (some g) t, none)
write_limits name (some max) none none n t = set_worker_max_active_jobs name max t
write_limits name max c g n t = (t, some invalid_settings)

unfoldable pub set_worker_settings :
    String → WorkerSettings → LimitTable → LimitTable × Option LimitError
unfolding set_worker_max_active_jobs
set_worker_settings name s t =
    if str_eq name ""
    then (t, some name_required)
    else if not (validate_write s)
    then (t, some invalid_settings)
    else write_limits name s.max_active_jobs s.cpu_jobs s.gpu_jobs (total s) t
