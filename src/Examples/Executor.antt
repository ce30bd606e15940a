-- ===== src/Examples/Executor.antt =====
-- A concrete executor: its limits, its slots, and how it drains.
use transcoderd.Prelude.{
  ℕ, ◌+◌, ◌≤◌, ◌<◌, ◌≡◌, ◌⊎◌, refl, arith, Bool, true, false, not, ◌||◌, none, some, [], ◌∷◌,
}
use transcoderd.Prelude.Int.{pos}
use transcoderd.Model.Settings.{WorkerSettings, validate_write, independent, total}
use transcoderd.Worker.Pause.{suspended, running}
use transcoderd.Worker.EncodePool.{gpu, new_encode_concurrency}
use transcoderd.Worker.EncodePool as EncodePool
use transcoderd.Worker.Pause as Pause
use transcoderd.Worker.Pause.Transition.{CanRollBack}
use transcoderd.Worker.Admission.{JobExecutor, finish_mode, new_encode_worker, hold_admission}
use transcoderd.Worker.Admission.Holds.{IsCoherent}
use transcoderd.Worker.Admission.Commands.{new_encode_worker-IsCoherent}
use transcoderd.Worker.Slots.{reserve_job_slot, can_reserve_job_slot, max_accepted_jobs}
use transcoderd.Worker.Slots.Reserved.{accepted, IsAccepting, reserve_job_slot-cases}
use transcoderd.Worker.Slots.Drained.{perform, perform-IsCoherent, hold, limit_jobs}
use transcoderd.Worker.Slots.Closed.{run, run-closed}

abbrev two_encodes : JobExecutor
two_encodes = new_encode_worker 2 2 finish_mode false gpu

abbrev refuses : ℕ → Bool → Bool
refuses pid b = not b

can_roll_back : CanRollBack refuses two_encodes.processes.processes
unfolding new_encode_worker
can_roll_back = tt

perform-IsCoherent_example : IsCoherent (perform refuses two_encodes hold)
perform-IsCoherent_example =
    perform-IsCoherent refuses two_encodes hold can_roll_back
      (new_encode_worker-IsCoherent 2 2 finish_mode false gpu)

abbrev held_worker : JobExecutor
held_worker = perform refuses two_encodes hold

held_worker-IsCoherent : IsCoherent held_worker
held_worker-IsCoherent =
    perform-IsCoherent refuses two_encodes hold can_roll_back
      (new_encode_worker-IsCoherent 2 2 finish_mode false gpu)

is_held : held_worker.admission_held ≡ true
unfolding perform hold_admission new_encode_worker Pause.resume_all Pause.transition
is_held = refl

is_draining : held_worker.admission_held || held_worker.finishing ≡ true
is_draining = rw is_held refl

run-closed_example :
    reserve_job_slot true (run refuses held_worker (limit_jobs (pos 4) ∷ []))
    ≡ (run refuses held_worker (limit_jobs (pos 4) ∷ []), false)
run-closed_example = run-closed refuses held_worker (limit_jobs (pos 4) ∷ []) true is_held

reserve_job_slot-cases_example :
    let (d, given) = reserve_job_slot true two_encodes in
    ((given ≡ false) × (d ≡ two_encodes))
    ⊎ ((given ≡ true)
        × IsAccepting true two_encodes
        × (accepted d ≡ accepted two_encodes + 1)
        × (accepted d ≤ two_encodes.pool.target + 1))
reserve_job_slot-cases_example = reserve_job_slot-cases true two_encodes

abbrev one_reserved : JobExecutor
one_reserved = (reserve_job_slot true two_encodes).0

has_reserved : 1 ≤ one_reserved.reserved_jobs
unfolding reserve_job_slot can_reserve_job_slot max_accepted_jobs new_encode_worker
    new_encode_concurrency EncodePool.set_primary EncodePool.set_paused EncodePool.pause
has_reserved = omega arith

few_active : one_reserved.active_jobs + 1 < 4294967296
unfolding reserve_job_slot can_reserve_job_slot max_accepted_jobs new_encode_worker
    new_encode_concurrency EncodePool.set_primary EncodePool.set_paused EncodePool.pause
few_active = omega arith

abbrev pair : WorkerSettings
pair = record {
  control = none;
  max_active_jobs = none;
  cpu_jobs = some (pos 1);
  gpu_jobs = some (pos 2);
}

pair_is_valid : validate_write pair ≡ true
unfolding validate_write independent total
pair_is_valid = refl
