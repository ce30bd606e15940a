-- ===== src/Worker/Requests.antt =====
-- worker/worker/coordinator.go: one round of the loop that requests jobs. What the schedule, the check
-- for updates and the server answer, and whether the job could be prepared, are arguments. The worker
-- ends where it waits for an update.
pub mod Slotted
use transcoderd.Prelude.{ℕ, ◌+◌, Bool, true, false, not, Option, none, some, if◌then◌else◌}
use transcoderd.Model.Settings.{WorkerSettings}
use transcoderd.Worker.Admission.{JobExecutor, Answer, drain_accepted_jobs}
use transcoderd.Worker.Slots.{reserve_job_slot, release_job_slot, execute_reserved_job}
use transcoderd.Worker.Remote.{
  Surroundings, Coordinator, Round, synced, Reported, sync_worker_settings,
}

-- `update` is none where the check fails, and else whether an update is required.
pub record Answers : Type 0 where
  pub allowed : Bool
  pub update : Option Bool
  pub still_allowed : Bool
  pub has_job : Bool
  pub prepared : Bool

pub data RequestRound : Type 0 where
  not_synced : RequestRound
  no_slot : RequestRound
  check_fails : RequestRound
  drain_fails : RequestRound
  waits_for_update : RequestRound
  outside_schedule : RequestRound
  no_job : RequestRound
  not_executed : RequestRound
  executes : RequestRound

abbrev pub drained : Answer → JobExecutor × RequestRound
drained (e, none) = (e, waits_for_update)
drained (e, some x) = (e, drain_fails)

abbrev pub ran : Answer → JobExecutor × RequestRound
ran (e, none) = (e, executes)
ran (e, some x) = (e, not_executed)

abbrev pub update_checked :
    (ℕ → Bool → Bool) → Answers → Option Bool → JobExecutor → JobExecutor × RequestRound
update_checked signal a none e = (release_job_slot e, check_fails)
update_checked signal a (some true) e = drained (drain_accepted_jobs signal (release_job_slot e))
update_checked signal a (some false) e =
    if not a.still_allowed
    then (release_job_slot e, outside_schedule)
    else if not a.has_job
    then (release_job_slot e, no_job)
    else ran (execute_reserved_job a.prepared e)

abbrev pub with_slot : (ℕ → Bool → Bool) → Answers → JobExecutor × Bool → JobExecutor × RequestRound
with_slot signal a (e, false) = (e, no_slot)
with_slot signal a (e, true) = update_checked signal a a.update e

abbrev pub when_synced :
    (ℕ → Bool → Bool) → Answers → Round → JobExecutor → JobExecutor × RequestRound
when_synced signal a synced e = with_slot signal a (reserve_job_slot a.allowed e)
when_synced signal a _ e = (e, not_synced)

unfoldable pub request_task :
    Surroundings → Option WorkerSettings → Answers → Coordinator → Coordinator × RequestRound
unfolding reserve_job_slot release_job_slot execute_reserved_job drain_accepted_jobs
request_task v reply a q =
    let y = sync_worker_settings v reply q in
    let (e, attempt) = when_synced v.signal a y.round y.coordinator.worker in
    (record y.coordinator { worker = e }, attempt)
