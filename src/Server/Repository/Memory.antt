-- ===== src/Server/Repository/Memory.antt =====
-- server/repository/workerControls.go: the commands to workers in the in-memory repository, which is
-- a map from the worker's name to the command.
use transcoderd.Prelude.{not, Option, none, some, String, str_eq, if◌then◌else◌}
use transcoderd.Model.Settings.{WorkerControl}
use transcoderd.Server.Repository.Controls.{
  WorkerControlAck, ControlError, element_not_found, put, ack_state,
}

abbrev pub Commands : Type 0
Commands = String → Option WorkerControl

unfoldable pub get_worker_control : String → Commands → Option WorkerControl
get_worker_control name m = m name

unfoldable pub set_worker_control : String → WorkerControl → Commands → Commands
set_worker_control name c m = put name (record c { state = "pending"; error = "" }) m

abbrev pub acknowledged :
    String → WorkerControlAck → Option WorkerControl → Commands → Commands × Option ControlError
acknowledged name ack none m = (m, some element_not_found)
acknowledged name ack (some c) m =
    if not (str_eq c.id ack.id)
    then (m, some element_not_found)
    else (put name (record c { state = ack_state ack; error = ack.error }) m, none)

unfoldable pub ack_worker_control :
    String → WorkerControlAck → Commands → Commands × Option ControlError
ack_worker_control name ack m = acknowledged name ack (m name) m
