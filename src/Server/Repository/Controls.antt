-- ===== src/Server/Repository/Controls.antt =====
-- server/repository/workerControls.go: the last command to each worker, as the SQL statements keep
-- it in the table worker_controls, with the checks of that table. `cast` is the database's conversion
-- of a text to a UUID, none where it fails.
pub mod Agreement
use transcoderd.Prelude.{
  ℕ, Bool, true, false, not, ◌&&◌, ◌||◌, Option, none, some, String, str_eq, if◌then◌else◌,
}
use transcoderd.Prelude.Int.{ℤ}
use transcoderd.Model.Settings.{WorkerControl, validate_worker_action}

pub record ControlRow : Type 0 where
  pub id : String
  pub action : String
  pub state : String
  pub error : String
  pub cpu_jobs : Option ℤ
  pub gpu_jobs : Option ℤ
  pub max_active_jobs : Option ℤ
  pub job_id : Option String

abbrev pub ControlTable : Type 0
ControlTable = String → Option ControlRow

pub record WorkerControlAck : Type 0 where
  pub id : String
  pub error : String

pub data ControlError : Type 0 where
  invalid_uuid : ControlError
  violates_check : ControlError
  element_not_found : ControlError

-- COALESCE(job_id::text, '').
abbrev pub job_text : Option String → String
job_text none = ""
job_text (some id) = id

abbrev pub control_of : Option ControlRow → Option WorkerControl
control_of none = none
control_of (some r) = some record {
  id = r.id;
  job_id = job_text r.job_id;
  action = r.action;
  state = r.state;
  error = r.error;
  cpu_jobs = r.cpu_jobs;
  gpu_jobs = r.gpu_jobs;
  max_active_jobs = r.max_active_jobs;
}

unfoldable pub get_worker_control : String → ControlTable → Option WorkerControl
get_worker_control name t = control_of (t name)

unfoldable pub is_individual : String → Bool
is_individual action = str_eq action "pause-job" || str_eq action "resume-job"

abbrev pub pending_row : String → Option String → WorkerControl → ControlRow
pending_row id job c = record {
  id = id;
  action = c.action;
  state = "pending";
  error = "";
  cpu_jobs = c.cpu_jobs;
  gpu_jobs = c.gpu_jobs;
  max_active_jobs = c.max_active_jobs;
  job_id = job;
}

abbrev pub put {ℓ} : {A : Type ℓ} → String → A → (String → Option A) → String → Option A
put name a t other = if str_eq other name then some a else t other

-- The row with its two UUIDs, if it passes the checks of the table.
abbrev pub insert_row :
    String
    → Option String
    → Option (Option String)
    → WorkerControl
    → ControlTable
    → ControlTable × Option ControlError
insert_row name none job c t = (t, some invalid_uuid)
insert_row name (some id) none c t = (t, some invalid_uuid)
insert_row name (some id) (some none) c t =
    if not (validate_worker_action c.action) || is_individual c.action
    then (t, some violates_check)
    else (put name (pending_row id none c) t, none)
insert_row name (some id) (some (some job)) c t =
    if not (validate_worker_action c.action)
    then (t, some violates_check)
    else (put name (pending_row id (some job) c) t, none)

abbrev pub cast_some : Option String → Option (Option String)
cast_some none = none
cast_some (some id) = some (some id)

-- NULLIF(job_id, '')::uuid.
abbrev pub cast_job : (String → Option String) → String → Option (Option String)
cast_job cast job = if str_eq job "" then some none else cast_some (cast job)

unfoldable pub set_worker_control :
    (String → Option String)
    → String
    → WorkerControl
    → ControlTable
    → ControlTable × Option ControlError
unfolding is_individual
set_worker_control cast name c t = insert_row name (cast c.id) (cast_job cast c.job_id) c t

abbrev pub ack_state : WorkerControlAck → String
ack_state ack = if str_eq ack.error "" then "applied" else "failed"

abbrev pub update_row :
    String
    → WorkerControlAck
    → Option String
    → Option ControlRow
    → ControlTable
    → ControlTable × Option ControlError
update_row name ack none row t = (t, some invalid_uuid)
update_row name ack (some id) none t = (t, some element_not_found)
update_row name ack (some id) (some r) t =
    if str_eq r.id id
    then (put name (record r { state = ack_state ack; error = ack.error }) t, none)
    else (t, some element_not_found)

unfoldable pub ack_worker_control :
    (String → Option String)
    → String
    → WorkerControlAck
    → ControlTable
    → ControlTable × Option ControlError
ack_worker_control cast name ack t = update_row name ack (cast ack.id) (t name) t
