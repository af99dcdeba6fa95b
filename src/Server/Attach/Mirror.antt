-- ===== src/Server/Attach/Mirror.antt =====
-- `mirror` of `_run_job` (src/gpuq/daemon/server.py), which publishes what the pumps append, one line
-- after another and some time later: its queue stands between the logs and the bus.
use gpuq.Common.{◌>>=◌, List, [], ◌∷◌, ◌++◌, Option, some}
use gpuq.Common.Text.{Text}
use gpuq.Logs.{Entry, JobLogs, append}
use gpuq.Server.{Server}
use gpuq.Server.Run.{mirror_line}

-- The output of a running job: its logs, the lines in the mirror's queue, and the server.
pub record Feed : Type 0 where
  pub logs : JobLogs
  pub pending : List Entry
  pub server : Server

-- A pump appends a line, or the mirror takes its turn.
pub data Turn : Type 0 where
  pumped : Entry → Turn
  mirrored_next : Turn

-- A line goes to the files and the mirror's queue; `none` is the exception of closed logs.
unfoldable pub pump_line : Entry → Feed → Option Feed
pump_line (stream, line) f = do
  l ← append stream line f.logs
  some (record f { logs = l; pending = f.pending ++ (stream, line) ∷ [] })

-- `item = await q.get()` and the publication of the item; on an empty queue the mirror waits.
abbrev pub publish_next : Text → List Entry → Feed → Feed
publish_next jid [] f = f
publish_next jid ((stream, line) ∷ rest) f = record f {
  pending = rest;
  server = mirror_line stream line jid f.server;
}

unfoldable pub take_turn : Text → Turn → Feed → Option Feed
take_turn jid (pumped e) f = pump_line e f
take_turn jid mirrored_next f = some (publish_next jid f.pending f)

unfoldable pub take_turns : Text → List Turn → Feed → Option Feed
take_turns jid [] f = some f
take_turns jid (t ∷ turns) f = do f' ← take_turn jid t f; take_turns jid turns f'

-- The lines that are appended in some turns.
abbrev pub pumped_in : List Turn → List Entry
pumped_in [] = []
pumped_in (pumped e ∷ turns) = e ∷ pumped_in turns
pumped_in (mirrored_next ∷ turns) = pumped_in turns
