-- ===== src/Protocol/Once.antt =====
-- What holds on every run of commands to a worker: each is executed once at most, and is said to be
-- applied only where that is so.
use transcoderd.Prelude.{◌≡◌, true, false, Option, none, some, List, [], String, str_eq}
use transcoderd.Model.Settings.{WorkerControl}
use transcoderd.Protocol.{System, Execution}
use transcoderd.Protocol.Invariant.{has_run, Invariant}

-- No command to this worker yet, and a worker process that has just begun.
pub record Start (name : String) (s : System) : Type 0 where
  pub table : s.table name ≡ none
  pub fetched : s.fetched ≡ none
  pub coordinator : s.coordinator.applied_control_id ≡ ""
  pub sent : s.sent ≡ []
  pub log : s.log ≡ []

-- What the table says of the last command.
pub data Verdict (log : List Execution) : Option WorkerControl → Type 0 where
  nothing : Verdict log none
  waiting : (c : WorkerControl) → c.state ≡ "pending" → Verdict log (some c)
  succeeded :
      (c : WorkerControl)
      → c.state ≡ "applied"
      → c.error ≡ ""
      → has_run c.id "" log ≡ true
      → Verdict log (some c)
  failed :
      (c : WorkerControl)
      → c.state ≡ "failed"
      → str_eq c.error "" ≡ false
      → has_run c.id c.error log ≡ true
      → Verdict log (some c)
