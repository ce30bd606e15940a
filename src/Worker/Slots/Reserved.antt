-- ===== src/Worker/Slots/Reserved.antt =====
-- How many jobs worker/worker/executor.go accepts.
use transcoderd.Prelude.{
  ℕ, ◌+◌, ◌-◌, ◌≤◌, ◌<◌, ◌≡◌, ◌⊎◌, inl, inr, refl, Bool, true, false, none, some, arith,
  if◌then◌else◌, Bool-cases,
}
use transcoderd.Worker.Admission.{JobExecutor, not_prepared}
use transcoderd.Worker.Slots.{
  max_accepted_jobs, can_reserve_job_slot, reserve_job_slot, release_job_slot, execute_reserved_job,
  clean_job,
}

-- The jobs that hold a slot.
abbrev pub accepted : JobExecutor → ℕ
accepted e = e.active_jobs + e.reserved_jobs

-- The worker takes new jobs.
pub record IsAccepting (allowed : Bool) (e : JobExecutor) : Type 0 where
  pub not_held : e.admission_held ≡ false
  pub not_finishing : e.finishing ≡ false
  pub settings_known : e.settings_pending ≡ false
  pub not_paused : e.ram_paused ≡ false
  pub has_limit : 1 ≤ e.max_active_jobs
  pub in_schedule : allowed ≡ true

-- A slot is reserved only while the worker takes new jobs, and the accepted jobs are then one more
-- and at most one more than the target of the encode pool; a refusal changes nothing.
pub reserve_job_slot-cases :
    (allowed : Bool) (e : JobExecutor)
    → let (d, given) = reserve_job_slot allowed e in
      ((given ≡ false) × (d ≡ e))
      ⊎ ((given ≡ true)
          × IsAccepting allowed e
          × (accepted d ≡ accepted e + 1)
          × (accepted d ≤ e.pool.target + 1))
unfolding reserve_job_slot can_reserve_job_slot max_accepted_jobs
reserve_job_slot-cases allowed e = elim (Bool-cases (can_reserve_job_slot allowed e)) [
  | inl granted ↦ rw granted (
      inr (
        refl,
        record {
          not_held = ground (arith, granted);
          not_finishing = ground (arith, granted);
          settings_known = ground (arith, granted);
          not_paused = ground (arith, granted);
          has_limit = ground (arith, granted);
          in_schedule = ground (arith, granted);
        },
        ground arith,
        ground (arith, granted),
      ))
  | inr refused ↦ rw refused (inl (refl, refl))
]

-- With a slot reserved and fewer active jobs than a uint32 counts, the slot becomes an active job,
-- or is free again where the job cannot be prepared, and cleaning the job up frees it.
pub execute_reserved_job-accepted :
    (prepared : Bool) (e : JobExecutor)
    → 1 ≤ e.reserved_jobs
    → e.active_jobs + 1 < 4294967296
    → let (d, error) = execute_reserved_job prepared e in
      (accepted d ≡ (if prepared then accepted e else accepted e - 1))
      × (error ≡ (if prepared then none else some not_prepared))
      × (prepared ≡ true → accepted (clean_job d) ≡ accepted e - 1)
unfolding execute_reserved_job release_job_slot clean_job
execute_reserved_job-accepted true e r a = (ground arith, refl, λ q. ground arith)
execute_reserved_job-accepted false e r a = (ground arith, refl, λ q. absurd (ground arith))
