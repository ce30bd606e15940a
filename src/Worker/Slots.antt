-- ===== src/Worker/Slots.antt =====
-- worker/worker/executor.go: the slots of accepted jobs. Whether the schedule admits jobs now, and
-- whether a job's directory and encoder profile could be prepared, are arguments.
pub mod Reserved
pub mod Drained
pub mod Closed
use transcoderd.Prelude.{
  ℕ, ◌+◌, ◌-◌, ◌%◌, Bool, true, false, not, ◌&&◌, ◌||◌, Option, none, some, ltb, ◌==◌,
  if◌then◌else◌,
}
use transcoderd.Model.Settings.{max_int}
use transcoderd.Worker.Admission.{
  JobExecutor, Answer, AdmissionError, not_accepting, not_prepared, count32,
}

unfoldable pub max_accepted_jobs : ℕ → ℕ
max_accepted_jobs encode_target =
    if encode_target == 0
    then 0
    else if ltb (max_int - 1) encode_target
    then max_int
    else encode_target + 1

unfoldable pub can_reserve_job_slot : Bool → JobExecutor → Bool
unfolding max_accepted_jobs
can_reserve_job_slot allowed e =
    if e.admission_held
      || e.finishing
      || e.settings_pending
      || e.ram_paused
      || e.max_active_jobs == 0
      || not allowed
    then false
    else ltb (e.active_jobs + e.reserved_jobs) (max_accepted_jobs e.pool.target)

unfoldable pub reserve_job_slot : Bool → JobExecutor → JobExecutor × Bool
unfolding can_reserve_job_slot
reserve_job_slot allowed e =
    if can_reserve_job_slot allowed e
    then (record e { reserved_jobs = e.reserved_jobs + 1 }, true)
    else (e, false)

unfoldable pub release_job_slot : JobExecutor → JobExecutor
release_job_slot e =
    if ltb 0 e.reserved_jobs then record e { reserved_jobs = e.reserved_jobs - 1 } else e

unfoldable pub execute_reserved_job : Bool → JobExecutor → Answer
unfolding release_job_slot
execute_reserved_job prepared e =
    let released = release_job_slot e in
    if prepared
    then (record released { active_jobs = count32 (e.active_jobs + 1) }, none)
    else (released, some not_prepared)

abbrev pub executed : Bool → JobExecutor × Bool → Answer
executed prepared (e, true) = execute_reserved_job prepared e
executed prepared (e, false) = (e, some not_accepting)

unfoldable pub execute_job : Bool → Bool → JobExecutor → Answer
unfolding reserve_job_slot execute_reserved_job
execute_job allowed prepared e = executed prepared (reserve_job_slot allowed e)

-- Adding the largest `uint32` takes one away.
unfoldable pub clean_job : JobExecutor → JobExecutor
clean_job e = record e { active_jobs = count32 (e.active_jobs + 4294967295) }
