-- ===== src/Worker/Requests/Slotted.antt =====
-- worker/worker/coordinator.go: slots and jobs around a round of the loop that requests jobs.
use transcoderd.Prelude.{
  ℕ, ◌+◌, ◌≡◌, refl, Bool, true, false, not, Option, none, some, if◌then◌else◌, ltb, Bool-cases,
  inl, inr, arith,
}
use transcoderd.Model.Settings.{WorkerSettings}
use transcoderd.Worker.Pause as Pause
use transcoderd.Worker.Admission.{
  JobExecutor, when_done, drain_applied, drain_accepted_jobs, count32,
}
use transcoderd.Worker.Slots.{
  can_reserve_job_slot, reserve_job_slot, release_job_slot, execute_reserved_job,
}
use transcoderd.Worker.Remote.{Surroundings, Coordinator, Round, synced, sync_worker_settings}
use transcoderd.Worker.Requests.{
  Answers, RequestRound, outside_schedule, no_job, executes, drained, ran, update_checked,
  when_synced, request_task,
}

-- The accepted jobs before and after: one more where a job is executed, for which there was a slot.
abbrev pub Jobs : Bool → JobExecutor → JobExecutor → RequestRound → Type 0
Jobs allowed e d executes =
    (d.active_jobs ≡ count32 (e.active_jobs + 1)) × (can_reserve_job_slot allowed e ≡ true)
Jobs allowed e d _ = d.active_jobs ≡ e.active_jobs

abbrev pub Slotted : Bool → JobExecutor → JobExecutor × RequestRound → Type 0
Slotted allowed e (d, attempt) = (d.reserved_jobs ≡ e.reserved_jobs) × Jobs allowed e d attempt

drained-Slotted :
    (allowed : Bool) (e f : JobExecutor) (o : Pause.Controller × Pause.Outcome)
    → f.reserved_jobs ≡ e.reserved_jobs
    → f.active_jobs ≡ e.active_jobs
    → Slotted allowed e (drained (when_done drain_applied f o))
drained-Slotted allowed e f (p, Pause.done) r a = (r, a)
drained-Slotted allowed e f (p, _) r a = (r, a)

released :
    (e d : JobExecutor)
    → d.reserved_jobs ≡ e.reserved_jobs + 1
    → d.active_jobs ≡ e.active_jobs
    → ((release_job_slot d).reserved_jobs ≡ e.reserved_jobs)
      × ((release_job_slot d).active_jobs ≡ e.active_jobs)
unfolding release_job_slot
released e d r a =
    let some_slot : ltb 0 d.reserved_jobs ≡ true = ground (arith, r) in
    rw some_slot (omega (arith, r), a)

ran-Slotted :
    (allowed prepared : Bool) (e d : JobExecutor)
    → can_reserve_job_slot allowed e ≡ true
    → d.reserved_jobs ≡ e.reserved_jobs + 1
    → d.active_jobs ≡ e.active_jobs
    → Slotted allowed e (ran (execute_reserved_job prepared d))
unfolding execute_reserved_job
ran-Slotted allowed true e d c r a = let (back, same) = released e d r a in (back, (rw a refl, c))
ran-Slotted allowed false e d c r a = released e d r a

update_checked-Slotted :
    (signal : ℕ → Bool → Bool) (a : Answers) (update : Option Bool) (e d : JobExecutor)
    → can_reserve_job_slot a.allowed e ≡ true
    → d.reserved_jobs ≡ e.reserved_jobs + 1
    → d.active_jobs ≡ e.active_jobs
    → Slotted a.allowed e (update_checked signal a update d)
unfolding drain_accepted_jobs
update_checked-Slotted signal a none e d c r s = released e d r s
update_checked-Slotted signal a (some true) e d c r s =
    let (back, same) = released e d r s in
    drained-Slotted a.allowed e (release_job_slot d) _ back same
update_checked-Slotted signal a (some false) e d c r s = by_tests a.still_allowed a.has_job
  where
    by_tests :
        (still has : Bool)
        → Slotted a.allowed e (
            if not still
            then (release_job_slot d, outside_schedule)
            else if not has
            then (release_job_slot d, no_job)
            else ran (execute_reserved_job a.prepared d))
    by_tests false has = released e d r s
    by_tests true false = released e d r s
    by_tests true true = ran-Slotted a.allowed a.prepared e d c r s

when_synced-Slotted :
    (signal : ℕ → Bool → Bool) (a : Answers) (round : Round) (e : JobExecutor)
    → Slotted a.allowed e (when_synced signal a round e)
unfolding reserve_job_slot
when_synced-Slotted signal a synced e = elim (Bool-cases (can_reserve_job_slot a.allowed e)) [
  | inr full ↦ rw full (refl, refl)
  | inl free ↦ rw free (update_checked-Slotted signal a a.update e _ free refl refl)
]
when_synced-Slotted signal a _ e = (refl, refl)

-- A round of the loop that requests jobs keeps no slot, whatever is answered in it: as many are
-- reserved after it as after its synchronisation, and one more job is active exactly where it
-- executes one, for which a slot could be reserved then.
pub request_task-Slotted :
    (v : Surroundings) (reply : Option WorkerSettings) (a : Answers) (q : Coordinator)
    → let e = (sync_worker_settings v reply q).coordinator.worker in
      let (p, attempt) = request_task v reply a q in Slotted a.allowed e (p.worker, attempt)
unfolding request_task
request_task-Slotted v reply a q =
    let y = sync_worker_settings v reply q in
    when_synced-Slotted v.signal a y.round y.coordinator.worker
