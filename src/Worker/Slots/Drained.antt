-- ===== src/Worker/Slots/Drained.antt =====
-- Sequences of commands to the executor of worker/worker/executor.go, and what they keep.
use transcoderd.Prelude.{
  ℕ, ◌+◌, ◌-◌, ◌≡◌, inl, inr, refl, ◌∙◌, Bool, true, false, not, Option, List, [], ◌∷◌, arith, ltb,
  ◌==◌, Bool-cases, String, keep,
}
use transcoderd.Prelude.Int.{ℤ}
use transcoderd.Worker.Pause.{Process, Controller, Activity, start, detach}
use transcoderd.Worker.Pause.Held.{IsHeld, waits, Request, serve, serve-IsHeld, attach, finished}
use transcoderd.Worker.Pause.Transition.{CanRollBack}
use transcoderd.Worker.Pause.Holds.{IsFree, Changed}
use transcoderd.Worker.EncodePool.{EncoderKind, cpu, gpu, try_start_encoder, finish_encoder}
use transcoderd.Worker.EncodePool.Starts.{try_start_encoder-paused}
use transcoderd.Worker.Admission.{
  JobExecutor, set_max_active_jobs, set_encoder_limits, set_ram_paused, finish_accepted_jobs,
  drain_accepted_jobs, hold_admission, require_worker_settings, mark_worker_settings_resolved,
  persist_encoder_limits, persist_limit, set_pause_mode, set_job_paused,
}
use transcoderd.Worker.Admission.Holds.{IsCoherent, moved}
use transcoderd.Worker.Admission.Commands.{
  set_encoder_limits-IsCoherent, set_ram_paused-IsCoherent, finish_accepted_jobs-IsCoherent,
  drain_accepted_jobs-IsCoherent, hold_admission-IsCoherent, require_worker_settings-IsCoherent,
  mark_worker_settings_resolved-IsCoherent, persist_encoder_limits-IsCoherent,
  persist_limit-IsCoherent, set_pause_mode-IsCoherent, set_job_paused-IsCoherent,
  set_max_active_jobs-IsCoherent,
}
use transcoderd.Worker.Slots.{
  can_reserve_job_slot, reserve_job_slot, release_job_slot, execute_reserved_job, clean_job,
}

-- What the operator, the server, the updater and the pipeline ask of the executor.
pub data Command : Type 0 where
  limit_jobs : ℤ → Command
  limit_encoders : ℤ → ℤ → Command
  pause_ram : Bool → Bool → Command
  finish_accepted : Command
  drain_accepted : Command
  hold : Command
  require_settings : Command
  settings_resolved : Command
  save_encoders : Option Bool → ℤ → ℤ → Command
  save_limit : Option Bool → ℤ → Bool → Command
  choose_mode : Bool → String → Command
  pause_one : Bool → Option String → Bool → Command
  reserve_slot : Bool → Command
  release_slot : Command
  execute : Bool → Command
  clean : Command
  start_encode : Option EncoderKind → Command
  end_encode : EncoderKind → Command
  attach_process : ℕ → String → Activity → Command
  detach_process : ℕ → Command

abbrev with_request : (ℕ → Bool → Bool) → Request → JobExecutor → JobExecutor
with_request set r e = record e { processes = serve set e.processes r }

unfoldable pub perform : (ℕ → Bool → Bool) → JobExecutor → Command → JobExecutor
perform set e (limit_jobs max) = (set_max_active_jobs set max e).0
perform set e (limit_encoders c g) = (set_encoder_limits set c g e).0
perform set e (pause_ram supported paused) = (set_ram_paused supported set paused e).0
perform set e finish_accepted = (finish_accepted_jobs set e).0
perform set e drain_accepted = (drain_accepted_jobs set e).0
perform set e hold = (hold_admission set e).0
perform set e require_settings = require_worker_settings e
perform set e settings_resolved = mark_worker_settings_resolved e
perform set e (save_encoders reply c g) = (persist_encoder_limits reply set c g e).0
perform set e (save_limit reply max admission_only) =
    (persist_limit reply set max admission_only e).0
perform set e (choose_mode supported mode) = (set_pause_mode supported set mode e).0
perform set e (pause_one supported key paused) = (set_job_paused supported set key paused e).0
perform set e (reserve_slot allowed) = (reserve_job_slot allowed e).0
perform set e release_slot = release_job_slot e
perform set e (execute prepared) = (execute_reserved_job prepared e).0
perform set e clean = clean_job e
perform set e (start_encode pinned) = record e { pool = (try_start_encoder pinned e.pool).0 }
perform set e (end_encode kind) = record e { pool = finish_encoder kind e.pool }
perform set e (attach_process pid key active) = with_request set (attach pid key active) e
perform set e (detach_process pid) = with_request set (finished pid) e

keep-IsFree : (f : Process → Bool) (ps : List Process) → IsFree ps → IsFree (keep f ps)
keep-IsFree f [] h = tt
keep-IsFree f (p ∷ ps) h = elim (Bool-cases (f p)) [
  | inl kept ↦ rw kept (h.0, keep-IsFree f ps h.1)
  | inr gone ↦ rw gone (keep-IsFree f ps h.1)
]

-- The counters are not among the holds.
record SameHolds (e d : JobExecutor) : Type 0 where
  pending_same : d.settings_pending ≡ e.settings_pending
  held_same : d.admission_held ≡ e.admission_held
  finishing_same : d.finishing ≡ e.finishing
  limit_same : d.max_active_jobs ≡ e.max_active_jobs
  ram_same : d.ram_paused ≡ e.ram_paused
  pool_same : d.pool.paused ≡ e.pool.paused
  processes_same : d.processes ≡ e.processes

SameHolds-IsCoherent : (e d : JobExecutor) → SameHolds e d → IsCoherent e → IsCoherent d
SameHolds-IsCoherent e d s h = record {
  pool_paused = λ q. ground (
    arith, s.pending_same, s.held_same, s.finishing_same, s.limit_same, s.ram_same, s.pool_same,
    h.pool_paused,
  );
  drains = λ q. rw s.processes_same (h.drains (ground (arith, s.held_same, s.finishing_same)));
  held = rw s.processes_same h.held;
}

attached-IsFree :
    (c : Controller) (pid : ℕ) (key : String) (active : Activity)
    → let d = waits c (start c pid key active) in
      (d.paused ≡ c.paused) × (IsFree c.processes → IsFree d.processes)
unfolding start
attached-IsFree c pid key active = elim (Bool-cases c.paused) [
  | inl paused ↦ rw paused (refl, λ f. f)
  | inr running ↦ rw running (refl, λ f. (refl, f))
]

attach-Changed :
    (set : ℕ → Bool → Bool) (c : Controller) (pid : ℕ) (key : String) (active : Activity)
    → IsHeld
        (serve set c (attach pid key active)).paused
        (serve set c (attach pid key active)).processes
    → Changed c (serve set c (attach pid key active)) c.paused
unfolding serve
attach-Changed set c pid key active h =
    let (same, free) = attached-IsFree c pid key active in
    record { paused = same; held = h; free = free }

finished-Changed :
    (set : ℕ → Bool → Bool) (c : Controller) (pid : ℕ)
    → IsHeld (serve set c (finished pid)).paused (serve set c (finished pid)).processes
    → Changed c (serve set c (finished pid)) c.paused
unfolding serve detach
finished-Changed set c pid h = record {
  paused = refl;
  held = h;
  free = keep-IsFree (λ p. not (p.pid == pid)) c.processes;
}

with_counts :
    (e : JobExecutor) (reserved active : ℕ)
    → SameHolds e (record e { reserved_jobs = reserved; active_jobs = active })
with_counts e reserved active = record {
  pending_same = refl;
  held_same = refl;
  finishing_same = refl;
  limit_same = refl;
  ram_same = refl;
  pool_same = refl;
  processes_same = refl;
}

reserve_job_slot-SameHolds :
    (allowed : Bool) (e : JobExecutor) → SameHolds e (reserve_job_slot allowed e).0
unfolding reserve_job_slot
reserve_job_slot-SameHolds allowed e = elim (Bool-cases (can_reserve_job_slot allowed e)) [
  | inl granted ↦ rw granted (with_counts e (e.reserved_jobs + 1) e.active_jobs)
  | inr refused ↦ rw refused (with_counts e e.reserved_jobs e.active_jobs)
]

release_job_slot-SameHolds : (e : JobExecutor) → SameHolds e (release_job_slot e)
unfolding release_job_slot
release_job_slot-SameHolds e = elim (Bool-cases (ltb 0 e.reserved_jobs)) [
  | inl some_reserved ↦ rw some_reserved (with_counts e (e.reserved_jobs - 1) e.active_jobs)
  | inr none_reserved ↦ rw none_reserved (with_counts e e.reserved_jobs e.active_jobs)
]

execute_reserved_job-SameHolds :
    (prepared : Bool) (e : JobExecutor) → SameHolds e (execute_reserved_job prepared e).0
unfolding execute_reserved_job
execute_reserved_job-SameHolds false e = release_job_slot-SameHolds e
execute_reserved_job-SameHolds true e =
    let s = release_job_slot-SameHolds e in
    record {
      pending_same = s.pending_same;
      held_same = s.held_same;
      finishing_same = s.finishing_same;
      limit_same = s.limit_same;
      ram_same = s.ram_same;
      pool_same = s.pool_same;
      processes_same = s.processes_same;
    }

-- Where the calls that take changes back succeed, every command keeps the holds of the executor
-- coherent: its flags agree with the pause of the encode pool, except while settings are awaited
-- by a worker that finishes its accepted jobs and is not held, where nothing is said of the pool;
-- and while accepted work drains no process is held.
pub perform-IsCoherent :
    (set : ℕ → Bool → Bool) (e : JobExecutor) (c : Command)
    → CanRollBack set e.processes.processes
    → IsCoherent e
    → IsCoherent (perform set e c)
unfolding perform clean_job finish_encoder
perform-IsCoherent set e (limit_jobs max) b h = set_max_active_jobs-IsCoherent set max e b h
perform-IsCoherent set e (limit_encoders c g) b h = set_encoder_limits-IsCoherent set c g e b h
perform-IsCoherent set e (pause_ram supported paused) b h =
    set_ram_paused-IsCoherent supported set paused e b h
perform-IsCoherent set e finish_accepted b h = finish_accepted_jobs-IsCoherent set e b h
perform-IsCoherent set e drain_accepted b h = drain_accepted_jobs-IsCoherent set e b h
perform-IsCoherent set e hold b h = hold_admission-IsCoherent set e b h
perform-IsCoherent set e require_settings b h = require_worker_settings-IsCoherent e h
perform-IsCoherent set e settings_resolved b h = mark_worker_settings_resolved-IsCoherent e h
perform-IsCoherent set e (save_encoders reply c g) b h =
    persist_encoder_limits-IsCoherent reply set c g e b h
perform-IsCoherent set e (save_limit reply max admission_only) b h =
    persist_limit-IsCoherent reply set max admission_only e b h
perform-IsCoherent set e (choose_mode supported mode) b h =
    set_pause_mode-IsCoherent supported set mode e b h
perform-IsCoherent set e (pause_one supported key paused) b h =
    set_job_paused-IsCoherent supported set key paused e b h
perform-IsCoherent set e (reserve_slot allowed) b h =
    SameHolds-IsCoherent e _ (reserve_job_slot-SameHolds allowed e) h
perform-IsCoherent set e release_slot b h =
    SameHolds-IsCoherent e _ (release_job_slot-SameHolds e) h
perform-IsCoherent set e (execute prepared) b h =
    SameHolds-IsCoherent e _ (execute_reserved_job-SameHolds prepared e) h
perform-IsCoherent set e clean b h =
    SameHolds-IsCoherent e _ (with_counts e e.reserved_jobs (clean_job e).active_jobs) h
perform-IsCoherent set e (start_encode pinned) b h = record {
  pool_paused = λ q. try_start_encoder-paused pinned e.pool ∙ h.pool_paused q;
  drains = h.drains;
  held = h.held;
}
perform-IsCoherent set e (end_encode cpu) b h = record {
  pool_paused = h.pool_paused;
  drains = h.drains;
  held = h.held;
}
perform-IsCoherent set e (end_encode gpu) b h = record {
  pool_paused = h.pool_paused;
  drains = h.drains;
  held = h.held;
}
perform-IsCoherent set e (attach_process pid key active) b h = moved e _ h (
    attach-Changed set e.processes pid key active
      (serve-IsHeld set e.processes (attach pid key active) b h.held))
perform-IsCoherent set e (detach_process pid) b h =
    moved e _ h
      (finished-Changed set e.processes pid (serve-IsHeld set e.processes (finished pid) b h.held))
