-- ===== src/Worker/Admission/Commands.antt =====
-- Every command to the executor of worker/worker/executor.go keeps its holds coherent.
use transcoderd.Prelude.{
  ℕ, ◌≡◌, inl, inr, Bool, true, false, not, ◌&&◌, ◌||◌, Option, none, some, String, arith, ◌==◌,
  if◌then◌else◌, Bool-cases,
}
use transcoderd.Prelude.Int.{ℤ, pos, negsuc}
use transcoderd.Model.Settings.{checked_sum}
use transcoderd.Worker.Pause.{Controller, Outcome, Activity, done, not_running, start, detach}
use transcoderd.Worker.Pause as Pause
use transcoderd.Worker.EncodePool as EncodePool
use transcoderd.Worker.Pause.Held.{IsHeld, set_job_paused-IsHeld}
use transcoderd.Worker.Admission.{
  JobExecutor, Answer, PauseMode, new_encode_worker, no_processes, finish_mode, is_ram,
  set_max_active_jobs, limits_applied, set_encoder_limits, ram_applied, set_ram_paused,
  finish_accepted_jobs, drain_accepted_jobs, hold_admission, require_worker_settings,
  mark_worker_settings_resolved, once_saved, persist_encoder_limits, kept_pause, persist_limit,
  resolve_pause_mode, set_pause_mode, job_answer, set_job_paused, nat_of, set_checked_limits,
  once_checked, set_resolved_mode, finish_applied, drain_applied, hold_applied,
}
use transcoderd.Worker.Admission.Holds.{
  IsCoherent, Pausing, suspend-IsCoherent, resume-IsCoherent, apply_limit-IsCoherent,
}

pub set_checked_limits-IsCoherent :
    (set : ℕ → Bool → Bool) (cpu gpu : ℕ) (total : Option ℕ) (e : JobExecutor)
    → Pausing set e
    → IsCoherent e
    → IsCoherent (set_checked_limits set cpu gpu total e).0
unfolding limits_applied EncodePool.set_paused EncodePool.set_limits
set_checked_limits-IsCoherent set cpu gpu none e b h = h
set_checked_limits-IsCoherent set cpu gpu (some total) e b h =
    suspend-IsCoherent set _ (limits_applied cpu gpu total) e b h (λ p c. record {
      pool_paused = λ q. ground arith;
      drains = λ d. (ground (arith, c.paused), c.free (h.drains (ground arith)).1);
      held = c.held;
    })

pub set_encoder_limits-IsCoherent :
    (set : ℕ → Bool → Bool) (cpu gpu : ℤ) (e : JobExecutor)
    → Pausing set e
    → IsCoherent e
    → IsCoherent (set_encoder_limits set cpu gpu e).0
unfolding set_encoder_limits
set_encoder_limits-IsCoherent set cpu gpu e b h =
    set_checked_limits-IsCoherent set (nat_of cpu) (nat_of gpu) (checked_sum (some cpu) (some gpu))
      e b h

pub set_ram_paused-IsCoherent :
    (supported : Bool) (set : ℕ → Bool → Bool) (paused : Bool) (e : JobExecutor)
    → Pausing set e
    → IsCoherent e
    → IsCoherent (set_ram_paused supported set paused e).0
unfolding set_ram_paused ram_applied EncodePool.set_paused
set_ram_paused-IsCoherent supported set paused e b h = elim (Bool-cases (paused && not supported)) [
  | inl refused ↦ rw refused h
  | inr possible ↦ elim (Bool-cases (e.admission_held || e.finishing)) [
    | inl draining ↦ rw (possible, draining) h
    | inr accepting ↦
        rw (possible, accepting)
          (suspend-IsCoherent set paused (ram_applied paused) e b h (λ p c. record {
            pool_paused = λ q. ground arith;
            drains = λ d. absurd (ground arith);
            held = c.held;
          }))
  ]
]

pub finish_accepted_jobs-IsCoherent :
    (set : ℕ → Bool → Bool) (e : JobExecutor)
    → Pausing set e
    → IsCoherent e
    → IsCoherent (finish_accepted_jobs set e).0
unfolding finish_accepted_jobs EncodePool.set_paused
finish_accepted_jobs-IsCoherent set e b h = resume-IsCoherent set finish_applied e b h (λ p c f.
    record { pool_paused = λ q. ground arith; drains = λ d. (c.paused, f); held = c.held })

pub drain_accepted_jobs-IsCoherent :
    (set : ℕ → Bool → Bool) (e : JobExecutor)
    → Pausing set e
    → IsCoherent e
    → IsCoherent (drain_accepted_jobs set e).0
unfolding drain_accepted_jobs EncodePool.set_paused
drain_accepted_jobs-IsCoherent set e b h = resume-IsCoherent set drain_applied e b h (λ p c f.
    record { pool_paused = λ q. ground arith; drains = λ d. (c.paused, f); held = c.held })

pub hold_admission-IsCoherent :
    (set : ℕ → Bool → Bool) (e : JobExecutor)
    → Pausing set e
    → IsCoherent e
    → IsCoherent (hold_admission set e).0
unfolding hold_admission EncodePool.set_paused
hold_admission-IsCoherent set e b h = resume-IsCoherent set hold_applied e b h (λ p c f. record {
  pool_paused = λ q. ground arith;
  drains = λ d. (c.paused, f);
  held = c.held;
})

pub require_worker_settings-IsCoherent :
    (e : JobExecutor) → IsCoherent e → IsCoherent (require_worker_settings e)
unfolding require_worker_settings EncodePool.set_paused
require_worker_settings-IsCoherent e h = elim (Bool-cases e.admission_held) [
  | inl closed ↦ rw closed (record {
    pool_paused = λ q. ground (arith, h.pool_paused);
    drains = λ d. h.drains (ground (arith, d));
    held = h.held;
  })
  | inr not_held ↦ rw not_held (record {
    pool_paused = λ q. ground arith;
    drains = λ d. h.drains (ground (arith, d));
    held = h.held;
  })
]

pub mark_worker_settings_resolved-IsCoherent :
    (e : JobExecutor) → IsCoherent e → IsCoherent (mark_worker_settings_resolved e)
unfolding mark_worker_settings_resolved EncodePool.set_paused
mark_worker_settings_resolved-IsCoherent e h = record {
  pool_paused = λ q. ground arith;
  drains = h.drains;
  held = h.held;
}

pub once_saved-IsCoherent :
    (reply : Option Bool) (e : JobExecutor) (a : Answer)
    → IsCoherent e
    → IsCoherent a.0
    → IsCoherent (once_saved reply e a).0
once_saved-IsCoherent none e a h k = h
once_saved-IsCoherent (some false) e a h k = h
once_saved-IsCoherent (some true) e (d, none) h k = mark_worker_settings_resolved-IsCoherent d k
once_saved-IsCoherent (some true) e (d, some x) h k = k

pub once_checked-IsCoherent :
    (total : Option ℕ) (e : JobExecutor) (a : Answer)
    → IsCoherent e
    → IsCoherent a.0
    → IsCoherent (once_checked total e a).0
once_checked-IsCoherent none e a h k = h
once_checked-IsCoherent (some total) e a h k = k

pub persist_encoder_limits-IsCoherent :
    (reply : Option Bool) (set : ℕ → Bool → Bool) (cpu gpu : ℤ) (e : JobExecutor)
    → Pausing set e
    → IsCoherent e
    → IsCoherent (persist_encoder_limits reply set cpu gpu e).0
unfolding persist_encoder_limits
persist_encoder_limits-IsCoherent reply set cpu gpu e b h =
    once_checked-IsCoherent (checked_sum (some cpu) (some gpu)) e _ h
      (once_saved-IsCoherent reply e _ h (set_encoder_limits-IsCoherent set cpu gpu e b h))

pub persist_limit-IsCoherent :
    (reply : Option Bool) (set : ℕ → Bool → Bool) (max : ℤ) (admission_only : Bool)
    (e : JobExecutor)
    → Pausing set e
    → IsCoherent e
    → IsCoherent (persist_limit reply set max admission_only e).0
unfolding persist_limit
persist_limit-IsCoherent reply set (negsuc n) admission_only e b h = h
persist_limit-IsCoherent reply set (pos n) true e b h =
    once_saved-IsCoherent reply e _ h
      (apply_limit-IsCoherent set n finish_mode (kept_pause e) e b h)
persist_limit-IsCoherent reply set (pos n) false e b h =
    once_saved-IsCoherent reply e _ h (apply_limit-IsCoherent set n e.pause_mode e.ram_paused e b h)

pub set_resolved_mode-IsCoherent :
    (set : ℕ → Bool → Bool) (mode : Option PauseMode) (e : JobExecutor)
    → Pausing set e
    → IsCoherent e
    → IsCoherent (set_resolved_mode set mode e).0
set_resolved_mode-IsCoherent set none e b h = h
set_resolved_mode-IsCoherent set (some mode) e b h =
    suspend-IsCoherent set _ (λ e'. record e' { pause_mode = mode }) e b h
      (λ p c. record {
        pool_paused = h.pool_paused;
        drains = λ d. (ground (arith, c.paused), c.free (h.drains d).1);
        held = c.held;
      })

pub set_pause_mode-IsCoherent :
    (supported : Bool) (set : ℕ → Bool → Bool) (value : String) (e : JobExecutor)
    → Pausing set e
    → IsCoherent e
    → IsCoherent (set_pause_mode supported set value e).0
unfolding set_pause_mode
set_pause_mode-IsCoherent supported set value e b h =
    set_resolved_mode-IsCoherent set (resolve_pause_mode supported value) e b h

pub job_answer-IsCoherent :
    (e : JobExecutor) (r : Controller × Outcome)
    → IsCoherent e
    → e.admission_held || e.finishing ≡ false
    → IsHeld r.0.paused r.0.processes
    → IsCoherent (job_answer e r).0
job_answer-IsCoherent e (p, done) h o k = record {
  pool_paused = h.pool_paused;
  drains = λ d. absurd (ground (arith, d, o));
  held = k;
}
job_answer-IsCoherent e (p, not_running) h o k = record {
  pool_paused = h.pool_paused;
  drains = λ d. absurd (ground (arith, d, o));
  held = k;
}
job_answer-IsCoherent e (p, _) h o k = record {
  pool_paused = h.pool_paused;
  drains = λ d. absurd (ground (arith, d, o));
  held = k;
}

pub set_job_paused-IsCoherent :
    (supported : Bool) (set : ℕ → Bool → Bool) (key : Option String) (paused : Bool)
    (e : JobExecutor)
    → Pausing set e
    → IsCoherent e
    → IsCoherent (set_job_paused supported set key paused e).0
unfolding set_job_paused
set_job_paused-IsCoherent supported set none paused e b h = h
set_job_paused-IsCoherent false set (some key) paused e b h = h
set_job_paused-IsCoherent true set (some key) paused e b h =
    elim (Bool-cases (e.admission_held || e.finishing)) [
      | inl draining ↦ rw draining h
      | inr accepting ↦ rw accepting (
          job_answer-IsCoherent e (Pause.set_job_paused set key paused e.processes) h accepting
            (set_job_paused-IsHeld set key paused e.processes b h.held))
    ]

pub set_max_active_jobs-IsCoherent :
    (set : ℕ → Bool → Bool) (max : ℤ) (e : JobExecutor)
    → Pausing set e
    → IsCoherent e
    → IsCoherent (set_max_active_jobs set max e).0
unfolding set_max_active_jobs
set_max_active_jobs-IsCoherent set (negsuc n) e b h = h
set_max_active_jobs-IsCoherent set (pos n) e b h =
    apply_limit-IsCoherent set n e.pause_mode e.ram_paused e b h

fresh-IsHeld :
    (b : Bool)
    → let c = if b then (Pause.set_paused (λ pid b. true) true no_processes).0 else no_processes in
      IsHeld c.paused c.processes
unfolding Pause.set_paused Pause.transition
fresh-IsHeld true = tt
fresh-IsHeld false = tt

-- A new executor has coherent holds.
pub new_encode_worker-IsCoherent :
    (max parallel : ℕ) (mode : PauseMode) (ram : Bool) (primary : EncodePool.EncoderKind)
    → IsCoherent (new_encode_worker max parallel mode ram primary)
unfolding new_encode_worker EncodePool.set_paused EncodePool.set_primary EncodePool.pause
new_encode_worker-IsCoherent max parallel mode ram EncodePool.cpu = record {
  pool_paused = λ q. ground arith;
  drains = λ d. absurd (ground arith);
  held = fresh-IsHeld (ram || max == 0 && is_ram mode);
}
new_encode_worker-IsCoherent max parallel mode ram EncodePool.gpu = record {
  pool_paused = λ q. ground arith;
  drains = λ d. absurd (ground arith);
  held = fresh-IsHeld (ram || max == 0 && is_ram mode);
}
