-- ===== src/Update/Manager.antt =====
-- update/managed/manager.go, state.go and transaction.go: one step of the update manager, from what is
-- saved on disk to what is saved, with the calls that it makes. Times are in seconds. From outside come
-- what the releases say, signatures and versions, whether a state can be saved, and the hooks.

use transcoderd.Prelude.{
  ℕ, ◌+◌, ◌*◌, Bool, ◌||◌, Option, none, some, String, str_eq, ltb, leb, ◌==◌, if◌then◌else◌,
}
use transcoderd.Prelude.Int.{ℤ}
use transcoderd.Update.Manifest.{Candidate, Manifest, Reply, reply, refusal, Keys}

pub record State : Type 0 where
  pub pending : Bool
  pub phase : String
  pub target_version : String
  pub installed_version : String
  pub downloaded : ℤ
  pub total : ℤ
  pub next_retry : Option ℕ
  pub last_check : Option ℕ
  pub message : String
  pub attempts : ℕ
  pub candidate : Option Candidate

pub record Transaction : Type 0 where
  pub phase : String
  pub candidate : Candidate
  pub error : String

-- What a file of the update directory is read as.
pub data Loaded (A : Type 0) : Type 0 where
  absent : Loaded A
  loaded : A → Loaded A
  unreadable : String → Loaded A

pub record Machine : Type 0 where
  pub memory : State
  pub saved : Loaded State
  pub transaction : Loaded Transaction

pub record Host : Type 0 where
  pub version : String
  pub interval : ℕ
  pub fixture : Bool
  pub keys : Keys
  pub parse_error : String → Option String
  pub newer : String → String → Bool
  pub same_version : String → String → Bool
  pub check : Reply (Option (Candidate × Manifest))
  pub save_error : State → Option String
  pub list_error : Option String
  pub is_staged : Bool
  pub stage : ℤ × Reply String
  pub staged_path : String
  pub drain : Option (ℕ → Reply (ℕ × ℕ))
  pub install : Option (Candidate → Manifest → String → Option String)
  pub recover : Option (Transaction → Option String)

pub data Call : Type 0 where
  install_call : Candidate → Manifest → String → Call
  recover_call : Transaction → Call

-- The machine after a step, the error that it returns, and the installer or the recovery it calls.
pub record Outcome : Type 0 where
  pub machine : Machine
  pub error : Option String
  pub call : Option Call

unfoldable pub retry_delay : Bool → ℕ → ℕ
retry_delay fixture attempt =
    if fixture
    then 10
    else if leb attempt 1
    then 15 * 60
    else if attempt == 2
    then 60 * 60
    else 6 * (60 * 60)

-- `State.Fail`.
unfoldable pub fail : Host → String → ℕ → State → State
unfolding retry_delay
fail h error now s = record s {
  attempts = s.attempts + 1;
  phase = "retrying";
  message = error;
  next_retry = some (now + retry_delay h.fixture (s.attempts + 1));
}

unfoldable pub active : Transaction → Bool
active t =
    str_eq t.phase "prepared"
    || str_eq t.phase "installing"
    || str_eq t.phase "verifying"
    || str_eq t.phase "recovering"
    || str_eq t.phase "restart-required"

abbrev pub after_save : Machine → State → Option String → Machine
after_save m s none = record m { memory = s; saved = loaded s }
after_save m s (some error) = record m { memory = s }

-- `set`, and the error of `Save`.
unfoldable pub set : Host → State → Machine → Machine
set h s m = after_save m s (h.save_error s)

abbrev pub ended : Machine → Option String → Outcome
ended m error = record { machine = m; error = error; call = none }

unfoldable pub failure : Host → State → String → ℕ → Machine → Outcome
unfolding fail set
failure h s error now m = ended (set h (fail h error now s) m) (some error)

-- `if err = m.set(s); err != nil { return m.failure(…) }`, and what goes on else.
abbrev pub once_set : Host → ℕ → State → Machine → (Machine → Outcome) → Option String → Outcome
once_set h now s m go (some error) = failure h s error now (set h s m)
once_set h now s m go none = go (set h s m)

unfoldable pub set_then : Host → ℕ → State → Machine → (Machine → Outcome) → Outcome
unfolding set failure
set_then h now s m go = once_set h now s m go (h.save_error s)

-- The end of the step: the installer.
unfoldable pub call_install :
    Host
    → ℕ
    → State
    → Candidate
    → Manifest
    → String
    → Machine
    → Option (Candidate → Manifest → String → Option String)
    → Outcome
unfolding failure
call_install h now s c manifest path m none =
    failure h s "windows installer helper is unavailable" now m
call_install h now s c manifest path m (some install) =
    record (elim (install c manifest path) [
      | none ↦ ended m none
      | some error ↦ failure h s error now m
    ]) { call = some (install_call c manifest path) }

abbrev pub installing : State → State
installing s = record s {
  phase = "installing";
  message = "Installing the mandatory update. Configuration remains locked.";
  next_retry = none;
}

abbrev pub draining : State → State
draining s = record s {
  phase = "draining";
  message = "Waiting for all accepted jobs and uploads to finish.";
}

-- The second call of `Drain`: the installer runs only when no accepted work is left.
unfoldable pub when_drained :
    Host → ℕ → State → Candidate → Manifest → String → Machine → Reply (ℕ × ℕ) → Outcome
unfolding failure set_then call_install set
when_drained h now s c manifest path m (refusal error) = failure h s error now m
when_drained h now s c manifest path m (reply (active_jobs, reserved)) =
    if ltb 0 active_jobs || ltb 0 reserved
    then ended (set h (draining s) m) (h.save_error (draining s))
    else set_then h now (installing s) m
        (λ m'. call_install h now (installing s) c manifest path m' h.install)
