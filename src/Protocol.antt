-- ===== src/Protocol.antt =====
-- server/repository/workerControls.go, server/web/web.go and worker/worker/remoteControl.go together:
-- an operator's commands to one worker, on their way over a network that loses, delays and repeats
-- acknowledgements. Commands are issued under new IDs, as `uuid.NewString` makes them; the worker
-- process is not restarted.
pub mod Applied
pub mod Invariant
pub mod Worked
pub mod Once
pub mod Settled
use Prim.Native.String.{len}
use transcoderd.Prelude.{
  ◌≡◌, ◌⊎◌, Bool, true, false, not, ◌&&◌, ◌||◌, Option, none, some, List, [], ◌∷◌, String, str_eq,
  if◌then◌else◌, any, ltb,
}
use mathlib.Core.List.{Memᴰ}
use transcoderd.Model.Settings.{WorkerControl}
use transcoderd.Server.Repository.Controls.{
  ControlTable, WorkerControlAck, get_worker_control, set_worker_control, ack_worker_control,
  is_individual,
}
use transcoderd.Server.Repository.Controls.Agreement.{Storable}
use transcoderd.Worker.Remote.{
  Surroundings, Coordinator, RemoteError, Reported, execute_remote_control, apply_remote_control,
}

-- Which command `getWorkerSettings` of server/web/web.go delivers to a worker with this version of
-- the commands.
abbrev pub pending_for : String → Option WorkerControl → Option WorkerControl
pending_for version none = none
pending_for version (some c) =
    if str_eq c.state "pending" && (not (is_individual c.action) || str_eq version "2")
    then some c
    else none

unfoldable pub delivered : String → Option WorkerControl → Option WorkerControl
unfolding is_individual
delivered version o =
    if str_eq version "1" || str_eq version "2" then pending_for version o else none

-- One execution of a command: its ID, and the error's text or none.
pub record Execution : Type 0 where
  pub id : String
  pub error : String

-- `fetched` is the command that the worker has received and not dealt with; `sent` are the
-- acknowledgements that may still arrive. `issued` and `log` say what has happened, the last first.
pub record System : Type 0 where
  pub table : ControlTable
  pub fetched : Option WorkerControl
  pub coordinator : Coordinator
  pub sent : List WorkerControlAck
  pub issued : List String
  pub log : List Execution

abbrev pub with_ack : Option WorkerControlAck → List WorkerControlAck → List WorkerControlAck
with_ack none sent = sent
with_ack (some ack) sent = ack ∷ sent

-- A command that is not the one that was applied last is executed.
abbrev pub logged : WorkerControl → Coordinator → Coordinator → List Execution → List Execution
logged c q r log =
    if str_eq q.applied_control_id c.id
    then log
    else record { id = c.id; error = r.applied_control_error } ∷ log

-- The worker has dealt with what it received.
abbrev pub after : Reported → List Execution → System → System
after r log s = record s {
  fetched = none;
  coordinator = r.coordinator;
  sent = with_ack r.ack s.sent;
  log = log;
}

unfoldable pub worked : Surroundings → WorkerControl → System → System
worked v c s =
    let r = apply_remote_control v c s.coordinator in
    after r (logged c s.coordinator r.coordinator s.log) s

unfoldable pub is_issued : String → List String → Bool
is_issued id ids = any (str_eq id) ids

module _ (cast : String → Option String) (name version : String) where
  unfoldable pub given : WorkerControl → System → System
  unfolding set_worker_control
  given c s = record s {
    table = (set_worker_control cast name c s.table).0;
    issued = c.id ∷ s.issued;
  }

  unfoldable pub polled : System → System
  unfolding get_worker_control delivered
  polled s = record s { fetched = delivered version (get_worker_control name s.table) }

  -- `ackWorkerControl` of server/web/web.go refuses a text of more than 512 bytes. The IDs are those
  -- of commands of the table, which `uuid.Parse` takes.
  unfoldable pub arrived : WorkerControlAck → System → System
  unfolding ack_worker_control
  arrived ack s =
      if ltb 512 (len ack.error)
      then s
      else record s { table = (ack_worker_control cast name ack s.table).0 }

  -- What may happen next.
  pub data Step : System → System → Type 0 where
    issues :
        (c : WorkerControl) (s : System)
        → Storable cast c
        → str_eq c.id "" ≡ false
        → is_issued c.id s.issued ≡ false
        → Step s (given c s)
    polls : (s : System) → s.fetched ≡ none → Step s (polled s)
    works :
        (v : Surroundings) (c : WorkerControl) (s : System)
        → s.fetched ≡ some c
        → Step s (worked v c s)
    arrives : (ack : WorkerControlAck) (s : System) → Memᴰ ack s.sent → Step s (arrived ack s)

  pub data Reach (s : System) : System → Type 0 where
    here : Reach s s
    next : {t u : System} → Reach s t → Step t u → Reach s u
