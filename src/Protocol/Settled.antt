-- ===== src/Protocol/Settled.antt =====
-- A command that the worker receives is dealt with, where the network carries the round.
use transcoderd.Prelude.{Option, none, some, String}
use transcoderd.Model.Settings.{WorkerControl}
use transcoderd.Server.Repository.Controls.{WorkerControlAck}
use transcoderd.Protocol.Invariant.{outcome}

-- The command with the outcome that is acknowledged.
abbrev pub ended : WorkerControlAck → WorkerControl → WorkerControl
ended ack c = record c { state = outcome ack.error; error = ack.error }

ended_option : WorkerControlAck → Option WorkerControl → Option WorkerControl
ended_option ack none = none
ended_option ack (some c) = some (ended ack c)

id_of : Option WorkerControl → String
id_of none = ""
id_of (some c) = c.id
