-- ===== src/Worker/Slots/Closed.antt =====
-- What a drained worker (worker/worker/executor.go) does and no longer does.
use transcoderd.Prelude.{
  ℕ, ◌≡◌, refl, Bool, true, false, not, ◌&&◌, ◌||◌, Option, none, some, List, [], ◌∷◌, arith, ◌==◌,
}
use transcoderd.Prelude.Int.{pos, negsuc}
use transcoderd.Model.Settings.{checked_sum}
use transcoderd.Worker.Pause.{Process, Controller, Outcome, done, not_running, suspended}
use transcoderd.Worker.Pause as Pause
use transcoderd.Worker.Pause.Held.{IsHeld}
use transcoderd.Worker.Pause.Holds.{IsFree}
use transcoderd.Worker.Admission.{
  JobExecutor, Answer, PauseMode, is_ram, when_done, limit_applied, apply_limit,
  set_max_active_jobs, set_checked_limits, limits_applied, set_encoder_limits, ram_applied,
  set_ram_paused, finish_applied, finish_accepted_jobs, drain_applied, drain_accepted_jobs,
  hold_applied, hold_admission, require_worker_settings, mark_worker_settings_resolved,
  once_checked, once_saved, persist_encoder_limits, kept_pause, persist_limit, set_resolved_mode,
  resolve_pause_mode, set_pause_mode, job_answer, set_job_paused, finish_mode, nat_of,
}
use transcoderd.Worker.Admission.Holds.{IsCoherent}
use transcoderd.Worker.Slots.{
  can_reserve_job_slot, reserve_job_slot, release_job_slot, execute_reserved_job, clean_job,
}
use transcoderd.Worker.Slots.Drained.{
  Command, perform, limit_jobs, limit_encoders, pause_ram, finish_accepted, drain_accepted, hold,
  require_settings, settings_resolved, save_encoders, save_limit, choose_mode, pause_one,
  reserve_slot, release_slot, execute, clean, start_encode, end_encode, attach_process,
  detach_process,
}

suspended-IsFree : (ps : List Process) → IsHeld false ps → IsFree ps → suspended ps ≡ 0
unfolding suspended
suspended-IsFree [] h f = refl
suspended-IsFree (p ∷ ps) h f = ground (arith, h.0, f.0, suspended-IsFree ps h.1 f.1)

-- With coherent holds, while accepted work drains no encoding process is suspended, nor is the
-- encode pool paused unless a finishing worker awaits settings.
pub IsCoherent-drains :
    (e : JobExecutor)
    → IsCoherent e
    → e.admission_held || e.finishing ≡ true
    → (suspended e.processes.processes ≡ 0)
      × (e.settings_pending && e.finishing && not e.admission_held ≡ false → e.pool.paused ≡ false)
IsCoherent-drains e h d =
    let (open_gate, free) = h.drains d in
    (
      suspended-IsFree e.processes.processes (rw open_gate at h.held) free,
      λ q. ground (arith, h.pool_paused q, d),
    )

when_done-held :
    (f : JobExecutor → JobExecutor) (e : JobExecutor) (r : Controller × Outcome)
    → e.admission_held ≡ true
    → ((p : Controller) → (f (record e { processes = p })).admission_held ≡ true)
    → (when_done f e r).0.admission_held ≡ true
when_done-held f e (p, done) h k = k p
when_done-held f e (p, _) h k = h

apply_limit-held :
    (set : ℕ → Bool → Bool) (max : ℕ) (mode : PauseMode) (ram : Bool) (e : JobExecutor)
    → e.admission_held ≡ true
    → (apply_limit set max mode ram e).0.admission_held ≡ true
unfolding apply_limit limit_applied
apply_limit-held set max mode ram e h =
    when_done-held (limit_applied max mode ram) e
      (Pause.set_paused set ((ram || max == 0 && is_ram mode) && not e.admission_held) e.processes)
      h (λ p. ground (arith, h))

set_checked_limits-held :
    (set : ℕ → Bool → Bool) (c g : ℕ) (total : Option ℕ) (e : JobExecutor)
    → e.admission_held ≡ true
    → (set_checked_limits set c g total e).0.admission_held ≡ true
unfolding limits_applied
set_checked_limits-held set c g none e h = h
set_checked_limits-held set c g (some total) e h =
    when_done-held (limits_applied c g total) e
      (Pause.set_paused set
        ((e.ram_paused || total == 0 && is_ram e.pause_mode) && not e.admission_held) e.processes)
      h (λ p. h)

set_resolved_mode-held :
    (set : ℕ → Bool → Bool) (mode : Option PauseMode) (e : JobExecutor)
    → e.admission_held ≡ true
    → (set_resolved_mode set mode e).0.admission_held ≡ true
set_resolved_mode-held set none e h = h
set_resolved_mode-held set (some mode) e h =
    when_done-held (λ e'. record e' { pause_mode = mode }) e _ h (λ p. h)

once_saved-held :
    (reply : Option Bool) (e : JobExecutor) (a : Answer)
    → e.admission_held ≡ true
    → a.0.admission_held ≡ true
    → (once_saved reply e a).0.admission_held ≡ true
unfolding mark_worker_settings_resolved
once_saved-held none e a h k = h
once_saved-held (some false) e a h k = h
once_saved-held (some true) e (d, none) h k = k
once_saved-held (some true) e (d, some x) h k = k

once_checked-held :
    (total : Option ℕ) (e : JobExecutor) (a : Answer)
    → e.admission_held ≡ true
    → a.0.admission_held ≡ true
    → (once_checked total e a).0.admission_held ≡ true
once_checked-held none e a h k = h
once_checked-held (some total) e a h k = k

job_answer-held :
    (e : JobExecutor) (r : Controller × Outcome)
    → e.admission_held ≡ true
    → (job_answer e r).0.admission_held ≡ true
job_answer-held e (p, done) h = h
job_answer-held e (p, not_running) h = h
job_answer-held e (p, _) h = h

perform-held :
    (set : ℕ → Bool → Bool) (e : JobExecutor) (c : Command)
    → e.admission_held ≡ true
    → (perform set e c).admission_held ≡ true
unfolding perform set_max_active_jobs set_encoder_limits set_ram_paused ram_applied
    finish_accepted_jobs drain_accepted_jobs hold_admission require_worker_settings
    mark_worker_settings_resolved persist_encoder_limits persist_limit set_pause_mode set_job_paused
    reserve_job_slot release_job_slot execute_reserved_job clean_job
perform-held set e (limit_jobs (pos n)) h = apply_limit-held set n e.pause_mode e.ram_paused e h
perform-held set e (limit_jobs (negsuc n)) h = h
perform-held set e (limit_encoders c g) h =
    set_checked_limits-held set (nat_of c) (nat_of g) (checked_sum (some c) (some g)) e h
perform-held set e (pause_ram supported paused) h = ground (arith, h)
perform-held set e finish_accepted h =
    when_done-held finish_applied e (Pause.resume_all set e.processes) h (λ p. h)
perform-held set e drain_accepted h =
    when_done-held drain_applied e (Pause.resume_all set e.processes) h (λ p. refl)
perform-held set e hold h =
    when_done-held hold_applied e (Pause.resume_all set e.processes) h (λ p. refl)
perform-held set e require_settings h = ground (arith, h)
perform-held set e settings_resolved h = h
perform-held set e (save_encoders reply c g) h =
    once_checked-held (checked_sum (some c) (some g)) e _ h (
      once_saved-held reply e _ h
        (set_checked_limits-held set (nat_of c) (nat_of g) (checked_sum (some c) (some g)) e h))
perform-held set e (save_limit reply (negsuc n) admission_only) h = h
perform-held set e (save_limit reply (pos n) true) h =
    once_saved-held reply e _ h (apply_limit-held set n finish_mode (kept_pause e) e h)
perform-held set e (save_limit reply (pos n) false) h =
    once_saved-held reply e _ h (apply_limit-held set n e.pause_mode e.ram_paused e h)
perform-held set e (choose_mode supported mode) h =
    set_resolved_mode-held set (resolve_pause_mode supported mode) e h
perform-held set e (pause_one supported none paused) h = h
perform-held set e (pause_one supported (some key) paused) h = ground (arith, h)
perform-held set e (reserve_slot allowed) h = ground (arith, h)
perform-held set e release_slot h = ground (arith, h)
perform-held set e (execute prepared) h = ground (arith, h)
perform-held set e clean h = h
perform-held set e (start_encode pinned) h = h
perform-held set e (end_encode kind) h = h
perform-held set e (attach_process pid key active) h = h
perform-held set e (detach_process pid) h = h

pub run : (ℕ → Bool → Bool) → JobExecutor → List Command → JobExecutor
run set e [] = e
run set e (c ∷ cs) = run set (perform set e c) cs

run-held :
    (set : ℕ → Bool → Bool) (e : JobExecutor) (cs : List Command)
    → e.admission_held ≡ true
    → (run set e cs).admission_held ≡ true
unfolding run
run-held set e [] h = h
run-held set e (c ∷ cs) h = run-held set (perform set e c) cs (perform-held set e c h)

-- After admission was held, no sequence of commands gets the executor to accept a job again.
pub run-closed :
    (set : ℕ → Bool → Bool) (e : JobExecutor) (cs : List Command) (allowed : Bool)
    → e.admission_held ≡ true
    → reserve_job_slot allowed (run set e cs) ≡ (run set e cs, false)
unfolding reserve_job_slot can_reserve_job_slot
run-closed set e cs allowed h = rw (run-held set e cs h)
