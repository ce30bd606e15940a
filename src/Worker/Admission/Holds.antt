-- ===== src/Worker/Admission/Holds.antt =====
-- How the holds of worker/worker/executor.go agree: the flags of the executor with the pause of the
-- encode pool and with the suspended processes.
use transcoderd.Prelude.{
  ℕ, ◌≡◌, inl, inr, Bool, true, false, not, ◌&&◌, ◌||◌, arith, ◌==◌, Bool-cases,
}
use transcoderd.Worker.Pause.{Controller, Outcome, Activity, done}
use transcoderd.Worker.Pause as Pause
use transcoderd.Worker.EncodePool as EncodePool
use transcoderd.Worker.Pause.Transition.{CanRollBack}
use transcoderd.Worker.Pause.Held.{IsHeld}
use transcoderd.Worker.Pause.Holds.{
  IsFree, Changed, Suspended, Resumed, set_paused-Suspended, resume_all-Resumed,
}
use transcoderd.Worker.Admission.{
  JobExecutor, PauseMode, is_ram, when_done, suspend, resume, limit_applied, apply_limit,
}

-- The pool is paused exactly by a zero limit, the RAM pause or settings that are awaited, unless
-- accepted work drains; while it drains no process is suspended. Nothing is said of the pool while
-- settings are awaited by a worker that finishes its accepted jobs and is not held: settings that are
-- required while it finishes pause the pool.
pub record IsCoherent (e : JobExecutor) : Type 0 where
  pub pool_paused :
      e.settings_pending && e.finishing && not e.admission_held ≡ false
      → e.pool.paused
        ≡ (e.max_active_jobs == 0 || e.ram_paused || e.settings_pending)
          && not e.admission_held
          && not e.finishing
  pub drains :
      e.admission_held || e.finishing ≡ true
      → (e.processes.paused ≡ false) × IsFree e.processes.processes
  pub held : IsHeld e.processes.paused e.processes.processes

pub moved :
    (e : JobExecutor) (p : Controller)
    → IsCoherent e
    → Changed e.processes p e.processes.paused
    → IsCoherent (record e { processes = p })
moved e p h c = record {
  pool_paused = h.pool_paused;
  drains = λ d. let (q, f) = h.drains d in (ground (arith, q, c.paused), c.free f);
  held = c.held;
}

when_done-IsCoherent :
    (general : Bool) (f : JobExecutor → JobExecutor) (e : JobExecutor) (r : Controller × Outcome)
    → IsCoherent e
    → ((p : Controller)
        → Changed e.processes p general
        → IsCoherent (f (record e { processes = p })))
    → Suspended general e.processes r
    → IsCoherent (when_done f e r).0
when_done-IsCoherent general f e (p, done) h k s = k p s
when_done-IsCoherent general f e (p, _) h k s = moved e p h s

when_done_all-IsCoherent :
    (f : JobExecutor → JobExecutor) (e : JobExecutor) (r : Controller × Outcome)
    → IsCoherent e
    → ((p : Controller)
        → Changed e.processes p false
        → IsFree p.processes
        → IsCoherent (f (record e { processes = p })))
    → Resumed e.processes r
    → IsCoherent (when_done f e r).0
when_done_all-IsCoherent f e (p, done) h k s = k p s.0 s.1
when_done_all-IsCoherent f e (p, _) h k s = moved e p h s

abbrev pub Pausing : (ℕ → Bool → Bool) → JobExecutor → Type 0
Pausing set e = CanRollBack set e.processes.processes

pub suspend-IsCoherent :
    (set : ℕ → Bool → Bool) (general : Bool) (f : JobExecutor → JobExecutor) (e : JobExecutor)
    → Pausing set e
    → IsCoherent e
    → ((p : Controller)
        → Changed e.processes p general
        → IsCoherent (f (record e { processes = p })))
    → IsCoherent (suspend set general f e).0
suspend-IsCoherent set general f e b h k =
    when_done-IsCoherent general f e (Pause.set_paused set general e.processes) h k
      (set_paused-Suspended set general e.processes b h.held)

pub resume-IsCoherent :
    (set : ℕ → Bool → Bool) (f : JobExecutor → JobExecutor) (e : JobExecutor)
    → Pausing set e
    → IsCoherent e
    → ((p : Controller)
        → Changed e.processes p false
        → IsFree p.processes
        → IsCoherent (f (record e { processes = p })))
    → IsCoherent (resume set f e).0
resume-IsCoherent set f e b h k =
    when_done_all-IsCoherent f e (Pause.resume_all set e.processes) h k
      (resume_all-Resumed set e.processes b h.held)

limit_applied-IsCoherent :
    (max : ℕ) (mode : PauseMode) (ram : Bool) (e : JobExecutor) (p : Controller)
    → IsCoherent e
    → Changed e.processes p ((ram || max == 0 && is_ram mode) && not e.admission_held)
    → IsCoherent (limit_applied max mode ram (record e { processes = p }))
unfolding limit_applied EncodePool.set_paused EncodePool.pause
limit_applied-IsCoherent max mode ram e p h c = elim (Bool-cases (max == 0)) [
  | inl zero_limit ↦ rw zero_limit (record {
    pool_paused = λ q. ground arith;
    drains = λ d. (ground (arith, c.paused), c.free (h.drains (ground arith)).1);
    held = c.held;
  })
  | inr open_limit ↦ rw open_limit (record {
    pool_paused = λ q. ground arith;
    drains = λ d. (ground (arith, c.paused), c.free (h.drains (ground arith)).1);
    held = c.held;
  })
]

pub apply_limit-IsCoherent :
    (set : ℕ → Bool → Bool) (max : ℕ) (mode : PauseMode) (ram : Bool) (e : JobExecutor)
    → Pausing set e
    → IsCoherent e
    → IsCoherent (apply_limit set max mode ram e).0
unfolding apply_limit
apply_limit-IsCoherent set max mode ram e b h =
    suspend-IsCoherent set _ (limit_applied max mode ram) e b h
      (λ p c. limit_applied-IsCoherent max mode ram e p h c)
