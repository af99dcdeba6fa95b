-- ===== src/Server/Attach.antt =====
-- `_handle_attach` of src/gpuq/daemon/server.py, up to its stream. The job's logs are an argument:
-- `none` where its directory does not exist.
pub mod Mirror
pub mod Complete
pub mod Silent
pub mod Ran
pub mod Waits
use gpuq.Common.{ℕ, List, [], ◌∷◌, map, Option, none, some, false, if◌then◌else◌}
use gpuq.Common.Text.{Text}
use gpuq.Logs.{Entry, JobLogs, read_all, tail}
use gpuq.Bus.{subscribe, unsubscribe}
use gpuq.Protocol.{Attach, From, Event}
use gpuq.Server.{Server, Outcome}

abbrev pub log_event : Text → Entry → Event
log_event jid (stream, line) = Event.log jid stream line

-- The lines sent before the stream.
unfoldable pub history : Option JobLogs → Attach → List Entry
history none req = []
history (some l) req = elim req.from_ [
  | From.start ↦ read_all l
  | From.tail ↦ tail req.tail l
  | From.elsewhere other ↦ []
]

-- The subscription precedes the reading of the logs.
unfoldable pub handle_attach : Option JobLogs → Attach → Server → Outcome
handle_attach logs req s =
    let (key, bus) = subscribe req.id s.bus in
    record {
      sent = map (log_event req.id) (history logs req);
      after = record s { bus = if req.follow then bus else unsubscribe req.id key bus };
      raised = false;
    }
