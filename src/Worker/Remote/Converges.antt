-- ===== src/Worker/Remote/Converges.antt =====
-- worker/worker/coordinator.go: a round without a command gives the worker the server's limits.
use transcoderd.Prelude.{
  ℕ, ◌≤◌, ◌≡◌, refl, ap, Bool, true, false, ◌||◌, Option, none, some, ltb, ◌==◌, if◌then◌else◌, inl,
  inr, Bool-cases, arith,
}
use transcoderd.Prelude.Int.{ℤ, pos, negsuc}
use transcoderd.Model.Settings.{WorkerControl, WorkerSettings, checked_sum}
use transcoderd.Worker.Pause as Pause
use transcoderd.Worker.EncodePool as EncodePool
use transcoderd.Worker.Admission.{
  JobExecutor, Answer, PauseMode, when_done, limit_applied, limits_applied, apply_limit,
  set_checked_limits, set_encoder_limits, set_max_active_jobs, mark_worker_settings_resolved,
}
use transcoderd.Worker.Remote.{
  same_int, Surroundings, Coordinator, synced, has_classes, has_limit, align, aligned, converge,
  obey, resolve, sync_worker_settings,
}

-- The worker has the limits of the server, if the server has any: those of the classes, or one limit
-- with a pool of that size, which stays what it was where the queue stops.
abbrev pub HasLimits : Option ℤ → Option ℤ → Option ℤ → JobExecutor → Type 0
HasLimits (some c) (some g) max e =
    (e.pool.independent ≡ true) × (c ≡ pos e.pool.cpu_jobs) × (g ≡ pos e.pool.gpu_jobs)
HasLimits _ _ (some max) e =
    (max ≡ pos e.max_active_jobs)
    × (1 ≤ e.max_active_jobs → (e.pool.target ≡ e.max_active_jobs) × (e.pool.independent ≡ false))
HasLimits _ _ none e = Unit

-- The same by the tests of the code.
abbrev pub Passes : Option ℤ → Option ℤ → Option ℤ → JobExecutor → Type 0
Passes (some c) (some g) max e = has_classes c g e ≡ true
Passes _ _ (some max) e = has_limit max e ≡ true
Passes _ _ none e = Unit

same_int-pos : (n : ℕ) (m : ℤ) → same_int n m ≡ true → m ≡ pos n
same_int-pos n (pos m) h = ap pos (ground (arith, h))
same_int-pos n (negsuc m) h = absurd (ground (arith, h))

one_limit :
    (max : ℤ) (e : JobExecutor)
    → has_limit max e ≡ true
    → (max ≡ pos e.max_active_jobs)
      × (1 ≤ e.max_active_jobs → (e.pool.target ≡ e.max_active_jobs) × (e.pool.independent ≡ false))
one_limit (pos n) e h = (
  same_int-pos e.max_active_jobs (pos n) (ground (arith, h)),
  λ l. (ground (arith, h, l), ground (arith, h, l)),
)
one_limit (negsuc n) e h = absurd (ground (arith, h))

pub Passes-HasLimits :
    (c g max : Option ℤ) (e : JobExecutor) → Passes c g max e → HasLimits c g max e
Passes-HasLimits (some c) (some g) max e h = (
  ground (arith, h),
  same_int-pos e.pool.cpu_jobs c (ground (arith, h)),
  same_int-pos e.pool.gpu_jobs g (ground (arith, h)),
)
Passes-HasLimits none g (some max) e h = one_limit max e h
Passes-HasLimits (some c) none (some max) e h = one_limit max e h
Passes-HasLimits none g none e h = tt
Passes-HasLimits (some c) none none e h = tt

-- What an operation does where it succeeds.
pub when_done-succeeds :
    (f : JobExecutor → JobExecutor) (e : JobExecutor) (o : Pause.Controller × Pause.Outcome)
    (P : JobExecutor → Type 0)
    → ((p : Pause.Controller) → P (f (record e { processes = p })))
    → (when_done f e o).1 ≡ none
    → P (when_done f e o).0
when_done-succeeds f e (p, Pause.done) P k h = k p
when_done-succeeds f e (p, _) P k h = absurd (ground (arith, h))

set_checked_limits-classes :
    (signal : ℕ → Bool → Bool) (c g : ℕ) (total : Option ℕ) (e : JobExecutor)
    → (set_checked_limits signal c g total e).1 ≡ none
    → has_classes (pos c) (pos g) (set_checked_limits signal c g total e).0 ≡ true
unfolding limits_applied EncodePool.set_limits EncodePool.set_paused
set_checked_limits-classes signal c g none e h = absurd (ground (arith, h))
set_checked_limits-classes signal c g (some total) e h =
    when_done-succeeds (limits_applied c g total) e _ (λ d. has_classes (pos c) (pos g) d ≡ true)
      (λ p. ground arith) h

pub set_encoder_limits-classes :
    (signal : ℕ → Bool → Bool) (c g : ℤ) (e : JobExecutor)
    → (set_encoder_limits signal c g e).1 ≡ none
    → has_classes c g (set_encoder_limits signal c g e).0 ≡ true
unfolding set_encoder_limits
set_encoder_limits-classes signal (pos c) (pos g) e h =
    set_checked_limits-classes signal c g (checked_sum (some (pos c)) (some (pos g))) e h
set_encoder_limits-classes signal _ _ e h = absurd (ground (arith, h))

pool_limit :
    (n : ℕ) (c : EncodePool.EncodeConcurrency)
    → ltb n 1 ≡ false
    → ((EncodePool.set_target n c).target ≡ n) × ((EncodePool.set_target n c).independent ≡ false)
unfolding EncodePool.set_target
pool_limit n c h = rw h (by_primary c.primary)
  where
    by_primary :
        (k : EncodePool.EncoderKind)
        → let d = EncodePool.target_of_primary k n (record c { target = n; independent = false }) in
          (d.target ≡ n) × (d.independent ≡ false)
    by_primary EncodePool.cpu = (refl, refl)
    by_primary EncodePool.gpu = (refl, refl)

limit_applied-limit :
    (n : ℕ) (mode : PauseMode) (ram : Bool) (e : JobExecutor)
    → has_limit (pos n) (limit_applied n mode ram e) ≡ true
unfolding limit_applied EncodePool.set_paused EncodePool.pause
limit_applied-limit n mode ram e = elim (Bool-cases (ltb 0 n)) [
  | inl some_jobs ↦
      let least : ltb n 1 ≡ false = ground (arith, some_jobs) in
      let not_none : n == 0 ≡ false = ground (arith, some_jobs) in
      let (target, dependent) = pool_limit n e.pool least in
      rw (some_jobs, not_none) (ground (arith, target, dependent))
  | inr none_left ↦
      let is_none : n == 0 ≡ true = ground (arith, none_left) in
      rw (none_left, is_none) (ground arith)
]

pub set_max_active_jobs-limit :
    (signal : ℕ → Bool → Bool) (max : ℤ) (e : JobExecutor)
    → (set_max_active_jobs signal max e).1 ≡ none
    → has_limit max (set_max_active_jobs signal max e).0 ≡ true
unfolding set_max_active_jobs apply_limit
set_max_active_jobs-limit signal (negsuc n) e h = absurd (ground (arith, h))
set_max_active_jobs-limit signal (pos n) e h =
    when_done-succeeds (limit_applied n e.pause_mode e.ram_paused) e _
      (λ d. has_limit (pos n) d ≡ true)
      (λ p. limit_applied-limit n e.pause_mode e.ram_paused (record e { processes = p })) h

align_one-limit :
    (signal : ℕ → Bool → Bool) (max : ℤ) (e : JobExecutor)
    → let r = if has_limit max e then (e, none) else set_max_active_jobs signal max e in
      r.1 ≡ none → has_limit max r.0 ≡ true
align_one-limit signal max e = elim (Bool-cases (has_limit max e)) [
  | inl there ↦ rw (there, there) (λ h. refl)
  | inr other ↦ rw other (λ h. set_max_active_jobs-limit signal max e h)
]

align-Passes :
    (signal : ℕ → Bool → Bool) (c g max : Option ℤ) (e : JobExecutor)
    → (align signal c g max e).1 ≡ none
    → Passes c g max (align signal c g max e).0
align-Passes signal (some c) (some g) max e h = elim (Bool-cases (has_classes c g e)) [
  | inl there ↦ rw (there, there) refl
  | inr other ↦ rw other (set_encoder_limits-classes signal c g e (rw other at h))
]
align-Passes signal none g (some max) e h = align_one-limit signal max e h
align-Passes signal (some c) none (some max) e h = align_one-limit signal max e h
align-Passes signal none g none e h = tt
align-Passes signal (some c) none none e h = tt

resolve-Passes :
    (c g max : Option ℤ) (e : JobExecutor)
    → Passes c g max e
    → Passes c g max (mark_worker_settings_resolved e)
unfolding mark_worker_settings_resolved EncodePool.set_paused
resolve-Passes (some c) (some g) max e h = h
resolve-Passes none g (some max) e h = h
resolve-Passes (some c) none (some max) e h = h
resolve-Passes none g none e h = tt
resolve-Passes (some c) none none e h = tt

resolve_twice :
    (e : JobExecutor)
    → mark_worker_settings_resolved (mark_worker_settings_resolved e)
      ≡ mark_worker_settings_resolved e
unfolding mark_worker_settings_resolved EncodePool.set_paused
resolve_twice e = refl

align_nothing :
    (signal : ℕ → Bool → Bool) (c g max : Option ℤ) (e : JobExecutor)
    → Passes c g max e
    → align signal c g max e ≡ (e, none)
align_nothing signal (some c) (some g) max e h = rw h refl
align_nothing signal none g (some max) e h = rw h refl
align_nothing signal (some c) none (some max) e h = rw h refl
align_nothing signal none g none e h = refl
align_nothing signal (some c) none none e h = refl

-- A worker that has the server's limits and waits for none.
pub record Converged (s : WorkerSettings) (q : Coordinator) : Type 0 where
  pub limits : HasLimits s.cpu_jobs s.gpu_jobs s.max_active_jobs q.worker
  pub resolved : q.worker.settings_pending ≡ false
  pub stable : (w : Surroundings) → (sync_worker_settings w (some s) q).coordinator ≡ q

align_resolved :
    (signal : ℕ → Bool → Bool) (s : WorkerSettings) (e : JobExecutor)
    → Passes s.cpu_jobs s.gpu_jobs s.max_active_jobs e
    → align signal s.cpu_jobs s.gpu_jobs s.max_active_jobs (mark_worker_settings_resolved e)
      ≡ (mark_worker_settings_resolved e, none)
align_resolved signal s e h =
    align_nothing signal s.cpu_jobs s.gpu_jobs s.max_active_jobs (mark_worker_settings_resolved e)
      (resolve-Passes s.cpu_jobs s.gpu_jobs s.max_active_jobs e h)

stays :
    (w : Surroundings) (s : WorkerSettings) (q : Coordinator)
    → Passes s.cpu_jobs s.gpu_jobs s.max_active_jobs q.worker
    → (converge w s (resolve q)).coordinator ≡ resolve q
stays w s q h = by_test _
  where
    again : resolve (resolve q) ≡ resolve q
    again = ap (λ e. record q { worker = e }) (resolve_twice q.worker)

    by_test :
        (b : Bool)
        → (if b
            then record { coordinator = resolve (resolve q); ack = none; round = synced }
            else aligned (resolve q) (
                align w.signal s.cpu_jobs s.gpu_jobs s.max_active_jobs
                  (mark_worker_settings_resolved q.worker))).coordinator
          ≡ resolve q
    by_test true = again
    by_test false = rw (align_resolved w.signal s q.worker h) again

obey_nothing :
    (v : Surroundings) (s : WorkerSettings) (o : Option WorkerControl) (q : Coordinator)
    → o ≡ none
    → obey v s o q ≡ converge v s q
obey_nothing v s none q e = refl
obey_nothing v s (some c) q e = absurd (ground (arith, e))

loaded-stays :
    (w : Surroundings) (s : WorkerSettings) (q : Coordinator)
    → s.control ≡ none
    → Passes s.cpu_jobs s.gpu_jobs s.max_active_jobs q.worker
    → (sync_worker_settings w (some s) (resolve q)).coordinator ≡ resolve q
unfolding sync_worker_settings
loaded-stays w s q e h = rw (obey_nothing w s s.control (resolve q) e) (stays w s q h)

converge-Converged :
    (v : Surroundings) (s : WorkerSettings) (q : Coordinator)
    → s.control ≡ none
    → q.worker.finishing || q.worker.admission_held ≡ false
    → (converge v s q).round ≡ synced
    → Converged s (converge v s q).coordinator
unfolding mark_worker_settings_resolved
converge-Converged v s q e free = rw free (
    by_answer (align v.signal s.cpu_jobs s.gpu_jobs s.max_active_jobs q.worker)
      (align-Passes v.signal s.cpu_jobs s.gpu_jobs s.max_active_jobs q.worker))
  where
    by_answer :
        (a : Answer)
        → (a.1 ≡ none → Passes s.cpu_jobs s.gpu_jobs s.max_active_jobs a.0)
        → (aligned q a).round ≡ synced
        → Converged s (aligned q a).coordinator
    by_answer (d, some x) h r = absurd (ground (arith, r))
    by_answer (d, none) h r = record {
      limits =
          Passes-HasLimits s.cpu_jobs s.gpu_jobs s.max_active_jobs (mark_worker_settings_resolved d)
            (resolve-Passes s.cpu_jobs s.gpu_jobs s.max_active_jobs d (h refl));
      resolved = refl;
      stable = λ w. loaded-stays w s (record q { worker = d }) e (h refl);
    }

-- A round that ends well without a command, outside maintenance, leaves the worker with the limits
-- that the server answered, no longer waiting for its settings; another such round with the same
-- answer changes nothing, whatever the system or the server says.
pub sync_worker_settings-Converged :
    (v : Surroundings) (s : WorkerSettings) (q : Coordinator)
    → s.control ≡ none
    → q.worker.finishing || q.worker.admission_held ≡ false
    → (sync_worker_settings v (some s) q).round ≡ synced
    → Converged s (sync_worker_settings v (some s) q).coordinator
unfolding sync_worker_settings
sync_worker_settings-Converged v s q e free =
    rw (obey_nothing v s s.control q e) (converge-Converged v s q e free)
