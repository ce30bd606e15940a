-- ===== src/Model/Settings.antt =====
-- model/workerSettings.go and model/workerControl.go: the limits of a worker and the commands to
-- it. Go's `int` is an integer here where a negative value is tested for.
pub mod Totals
use transcoderd.Prelude.{
  ℕ, ◌+◌, ◌-◌, Bool, true, false, not, ◌&&◌, ◌||◌, Option, none, some, List, [], ◌∷◌, String,
  str_eq, ltb, if◌then◌else◌,
}
use transcoderd.Prelude.Int.{ℤ, pos, negsuc}

-- The three limits are those to resume the queue with.
pub record WorkerControl : Type 0 where
  pub id : String
  pub job_id : String
  pub action : String
  pub state : String
  pub error : String
  pub cpu_jobs : Option ℤ
  pub gpu_jobs : Option ℤ
  pub max_active_jobs : Option ℤ

pub record WorkerSettings : Type 0 where
  pub control : Option WorkerControl
  pub max_active_jobs : Option ℤ
  pub cpu_jobs : Option ℤ
  pub gpu_jobs : Option ℤ

abbrev pub is_some {ℓ} : {A : Type ℓ} → Option A → Bool
is_some none = false
is_some (some a) = true

unfoldable pub independent : WorkerSettings → Bool
independent s = is_some s.cpu_jobs && is_some s.gpu_jobs

-- The largest `int`.
abbrev pub max_int : ℕ
max_int = 9223372036854775807

-- The limits of an independent pair, none where the code answers with an error.
abbrev pub checked_sum : Option ℤ → Option ℤ → Option ℕ
checked_sum (some (pos c)) (some (pos g)) = if ltb (max_int - g) c then none else some (c + g)
checked_sum _ _ = none

unfoldable pub total : WorkerSettings → Option ℕ
total s = checked_sum s.cpu_jobs s.gpu_jobs

abbrev pub is_nonnegative : Option ℤ → Bool
is_nonnegative (some (pos n)) = true
is_nonnegative _ = false

-- Whether the settings may be written.
unfoldable pub validate_write : WorkerSettings → Bool
unfolding independent total
validate_write s =
    not (is_some s.control)
    && (if is_some s.cpu_jobs || is_some s.gpu_jobs
        then independent s && not (is_some s.max_active_jobs) && is_some (total s)
        else is_nonnegative s.max_active_jobs)

abbrev pub actions : List String
actions =
    "pause-encodes" ∷ "resume-encodes" ∷ "stop-after-current" ∷ "resume-queue" ∷ "pause-job"
    ∷ "resume-job" ∷ []

abbrev pub is_one_of : List String → String → Bool
is_one_of [] s = false
is_one_of (x ∷ xs) s = str_eq s x || is_one_of xs s

unfoldable pub validate_worker_action : String → Bool
validate_worker_action action = is_one_of actions action

unfoldable pub settings : WorkerControl → WorkerSettings
settings c = record {
  control = none;
  max_active_jobs = c.max_active_jobs;
  cpu_jobs = c.cpu_jobs;
  gpu_jobs = c.gpu_jobs;
}
