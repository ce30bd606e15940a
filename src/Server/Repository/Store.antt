-- ===== src/Server/Repository/Store.antt =====
-- The tables, the errors, and the monad of statements on the tables: a statement that fails keeps
-- what was written before it, unless a transaction rolls it back.
use transcoderd.Prelude.{ℕ, Option, List, String}
use transcoderd.Model.Events.{NotificationType, TaskEvent}

pub record JobRow : Type 0 where
  pub id : ℕ
  pub source_path : String
  pub target_path : String
  pub source_size : ℕ
  pub target_size : ℕ
  pub source_probe : Option String
  pub target_probe : Option String

-- `percent` and `eta` are SQL reals, carried as whole numbers.
pub record TaskProgress : Type 0 where
  pub progress_id : String
  pub notification_type : NotificationType
  pub job_id : ℕ
  pub worker_name : String
  pub percent : ℕ
  pub eta : ℕ
  pub event_time : ℕ

-- A row of `job_status` has the columns of the event that it was last set by.
pub record Store : Type 0 where
  pub jobs : List JobRow
  pub job_events : List TaskEvent
  pub job_status : List TaskEvent
  pub job_progress : List TaskProgress

pub data Error : Type 0 where
  element_not_found : Error
  event_id_mismatch : ℕ → Error
  foreign_key_violation : Error
  duplicate_key : Error
  no_jobs_available : Error
  already_completed : Error
  is_failed : Error
  already_canceled : Error
  unknown_state : Error
  nil_dereference : Error
  no_recorded_status : Error
  can_not_be_rescheduled : Error
  context_canceled : Error
  stream_not_allowed : Error

pub data Result (A : Type 0) : Type 0 where
  ok : A → Result A
  err : Error → Result A

abbrev pub M : Type 0 → Type 0
M A = Store → Store × Result A

abbrev pub bind_result : {A B : Type 0} → Store × Result A → (A → M B) → Store × Result B
bind_result (s, ok a) f = f a s
bind_result (s, err e) f = (s, err e)

abbrev pub pure : {A : Type 0} → A → M A
pure a s = (s, ok a)

abbrev pub fail : {A : Type 0} → Error → M A
fail e s = (s, err e)

-- A query leaves the tables as they are.
abbrev pub query : {A : Type 0} → (Store → Result A) → M A
query f s = (s, f s)

infixl 5 ◌>>=◌ ◌>>◌
abbrev pub ◌>>=◌ : {A B : Type 0} → M A → (A → M B) → M B
◌>>=◌ m f s = bind_result (m s) f

abbrev pub ◌>>◌ : {B : Type 0} → M (Unit {0}) → M B → M B
m >> k = m >>= λ _. k

abbrev pub roll_back : {A : Type 0} → Store → Store × Result A → Store × Result A
roll_back before (s, ok a) = (s, ok a)
roll_back before (s, err e) = (before, err e)

-- `WithTransaction`: an error of the function rolls its statements back.
unfoldable pub with_transaction : {A : Type 0} → M A → M A
with_transaction m s = roll_back s (m s)
