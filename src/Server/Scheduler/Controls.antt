-- ===== src/Server/Scheduler/Controls.antt =====
-- server/scheduler/workerControls.go and scheduler.go: how an operator's command to a worker is
-- checked and stored, and the settings of a worker. Times are in nanoseconds. `canonical` is what
-- `uuid.Parse` and `String` make of a text, none where it is no UUID; the new UUID is an argument.
pub mod Issued
pub mod Managed
use transcoderd.Prelude.{
  ℕ, ◌+◌, ◌-◌, Bool, true, false, not, ◌&&◌, ◌||◌, Option, none, some, List, [], ◌∷◌, String,
  str_eq, ltb, leb, if◌then◌else◌, any, ◌⊎◌, inl, inr,
}
use transcoderd.Prelude.Int.{ℤ, pos, negsuc}
use transcoderd.Model.Settings.{
  WorkerControl, WorkerSettings, is_some, max_int, independent, total, validate_write,
  validate_worker_action, settings,
}
use transcoderd.Server.Repository.Limits.{LimitTable, LimitError, get_worker_resume_settings}
use transcoderd.Server.Repository.Limits as Limits
use transcoderd.Server.Repository.Controls.{
  ControlTable, ControlError, get_worker_control, set_worker_control, is_individual,
}

pub record WorkerJobRuntime : Type 0 where
  pub id : String
  pub phase : String
  pub state : String
  pub can_pause : Bool

-- The fields of what a worker reports of itself that are read here.
pub record WorkerRuntime : Type 0 where
  pub control_version : ℤ
  pub finishing : Bool
  pub draining : Bool
  pub managed_profile : Bool
  pub encoder : String
  pub cpu_jobs : ℤ
  pub gpu_jobs : ℤ
  pub jobs : List WorkerJobRuntime

pub record WorkerRow : Type 0 where
  pub last_seen : ℕ
  pub runtime : Option WorkerRuntime

-- The tables workers, worker_settings and worker_controls.
pub record WorkerTables : Type 0 where
  pub workers : String → Option WorkerRow
  pub limits : LimitTable
  pub controls : ControlTable

pub data ControlRefusal : Type 0 where
  invalid_worker_settings : ControlRefusal
  worker_control_unavailable : ControlRefusal
  not_stored : ControlError → ControlRefusal

abbrev pub below : ℤ → ℕ → Bool
below (negsuc n) k = true
below (pos n) k = ltb n k

abbrev pub is_unusable : String → WorkerRuntime → Bool
is_unusable action rt =
    below rt.control_version 1 || rt.draining || rt.finishing && not (str_eq action "resume-queue")

abbrev pub usable : ℕ → String → ℕ → Option WorkerRuntime → Option WorkerRuntime
usable now action seen none = none
usable now action seen (some rt) =
    if ltb 30000000000 (now - seen) || is_unusable action rt then none else some rt

abbrev pub reachable : ℕ → String → Option WorkerRow → Option WorkerRuntime
reachable now action none = none
reachable now action (some worker) = usable now action worker.last_seen worker.runtime

-- An encode that this worker can pause or resume now.
unfoldable pub owns : String → WorkerJobRuntime → Bool
owns id j =
    str_eq j.id id
    && str_eq j.phase "FFMPEG"
    && j.can_pause
    && (str_eq j.state "running" || str_eq j.state "paused")

abbrev pub owned_job : Option String → WorkerRuntime → ControlRefusal ⊎ String
owned_job none rt = inl invalid_worker_settings
owned_job (some id) rt =
    if below rt.control_version 2
    then inl worker_control_unavailable
    else if any (owns id) rt.jobs
    then inr id
    else inl worker_control_unavailable

abbrev pub target_job :
    (String → Option String) → String → String → WorkerRuntime → ControlRefusal ⊎ String
target_job canonical action job rt =
    if is_individual action
    then owned_job (canonical job) rt
    else if not (str_eq job "")
    then inl invalid_worker_settings
    else inr job

-- `jobIDs` is an optional argument.
abbrev pub checked_job :
    (String → Option String) → String → List String → WorkerRuntime → ControlRefusal ⊎ String
checked_job canonical action [] rt = target_job canonical action "" rt
checked_job canonical action (job ∷ []) rt = target_job canonical action job rt
checked_job canonical action (job ∷ next ∷ jobs) rt = inl invalid_worker_settings

-- Whether the sum of two `int`s, which wraps, is positive.
abbrev pub positive_sum : ℤ → ℤ → Bool
positive_sum (pos c) (pos g) = ltb 0 (c + g) && leb (c + g) max_int
positive_sum (pos c) (negsuc g) = ltb (g + 1) c
positive_sum (negsuc c) (pos g) = ltb (c + 1) g
positive_sum (negsuc c) (negsuc g) =
    ltb (max_int + 1) (c + g + 2) && ltb (c + g + 2) (max_int + max_int + 2)

abbrev pub no_limit : WorkerSettings → Bool
no_limit s = not (is_some s.max_active_jobs) && not (independent s)

abbrev pub or_previous : Option WorkerControl → WorkerSettings → WorkerSettings
or_previous none s = s
or_previous (some c) s = if no_limit s then settings c else s

abbrev pub without_sum : WorkerSettings → WorkerSettings
without_sum s = if independent s then record s { max_active_jobs = none } else s

abbrev pub or_reported : WorkerRuntime → WorkerSettings → WorkerSettings
or_reported rt s =
    if no_limit s && positive_sum rt.cpu_jobs rt.gpu_jobs
    then record {
      control = none;
      max_active_jobs = none;
      cpu_jobs = some rt.cpu_jobs;
      gpu_jobs = some rt.gpu_jobs;
    }
    else s

-- The limits that a command carries to resume the queue with.
unfoldable pub restored : String → WorkerRuntime → WorkerTables → WorkerSettings
unfolding get_worker_resume_settings get_worker_control independent settings
restored name rt w = or_reported rt (
    without_sum
      (or_previous (get_worker_control name w.controls) (get_worker_resume_settings name w.limits)))

abbrev pub new_control : String → String → String → WorkerSettings → WorkerControl
new_control id job action s = record {
  id = id;
  job_id = job;
  action = action;
  state = "pending";
  error = "";
  cpu_jobs = s.cpu_jobs;
  gpu_jobs = s.gpu_jobs;
  max_active_jobs = s.max_active_jobs;
}

abbrev pub Issue : Type 0
Issue = WorkerTables × (ControlRefusal ⊎ WorkerControl)

abbrev pub stored : WorkerControl → WorkerTables → ControlTable × Option ControlError → Issue
stored c w (t, none) = (record w { controls = t }, inr c)
stored c w (t, some e) = (record w { controls = t }, inl (not_stored e))

abbrev pub issue :
    (String → Option String)
    → String
    → String
    → String
    → WorkerSettings
    → WorkerTables
    → ControlRefusal ⊎ String
    → Issue
issue cast id name action restore w (inl refusal) = (w, inl refusal)
issue cast id name action restore w (inr job) =
    if str_eq action "resume-queue" && not (validate_write restore)
    then (w, inl worker_control_unavailable)
    else let c = new_control id job action restore in
      stored c w (set_worker_control cast name c w.controls)

abbrev pub to_worker :
    (String → Option String)
    → (String → Option String)
    → String
    → String
    → String
    → List String
    → WorkerTables
    → Option WorkerRuntime
    → Issue
to_worker canonical cast id name action jobs w none = (w, inl worker_control_unavailable)
to_worker canonical cast id name action jobs w (some rt) =
    issue cast id name action (restored name rt w) w (checked_job canonical action jobs rt)

unfoldable pub control_worker :
    (String → Option String)
    → (String → Option String)
    → ℕ
    → String
    → String
    → String
    → List String
    → WorkerTables
    → Issue
unfolding validate_worker_action is_individual owns restored set_worker_control validate_write
control_worker canonical cast now id name action jobs w =
    if not (validate_worker_action action)
    then (w, inl invalid_worker_settings)
    else to_worker canonical cast id name action jobs w (reachable now action (w.workers name))

pub data SettingsRefusal : Type 0 where
  invalid : SettingsRefusal
  not_written : LimitError → SettingsRefusal

abbrev pub exceeds : Option ℤ → ℕ → Bool
exceeds (some (pos n)) k = ltb k n
exceeds _ k = false

-- `Total`, which is 0 where it fails.
abbrev pub sum_or_zero : Option ℕ → ℕ
sum_or_zero none = 0
sum_or_zero (some n) = n

abbrev pub over_profile : WorkerSettings → Bool
over_profile s =
    if independent s then ltb 64 (sum_or_zero (total s)) else exceeds s.max_active_jobs 64

-- A profile has one class of encoders.
abbrev pub other_class : String → Option ℤ → Option ℤ → Bool
other_class encoder cpu gpu =
    str_eq encoder "av1_nvenc" && exceeds cpu 0 || not (str_eq encoder "av1_nvenc") && exceeds gpu 0

abbrev pub is_incompatible : WorkerRuntime → WorkerSettings → Bool
is_incompatible rt s =
    rt.managed_profile
    && (over_profile s || independent s && other_class rt.encoder s.cpu_jobs s.gpu_jobs)

abbrev pub report_of : Option WorkerRow → Option WorkerRuntime
report_of none = none
report_of (some worker) = worker.runtime

abbrev pub refuses_settings : Option WorkerRuntime → WorkerSettings → Bool
refuses_settings none s = false
refuses_settings (some rt) s = is_incompatible rt s

abbrev pub written :
    WorkerTables → LimitTable × Option LimitError → WorkerTables × Option SettingsRefusal
written w (t, none) = (record w { limits = t }, none)
written w (t, some e) = (record w { limits = t }, some (not_written e))

unfoldable pub set_worker_settings :
    String → WorkerSettings → WorkerTables → WorkerTables × Option SettingsRefusal
unfolding validate_write independent total
set_worker_settings name s w =
    if not (validate_write s)
    then (w, some invalid)
    else if refuses_settings (report_of (w.workers name)) s
    then (w, some invalid)
    else written w (Limits.set_worker_settings name s w.limits)
