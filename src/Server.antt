-- ===== src/Server.antt =====
-- The state of `class Server` of src/gpuq/daemon/server.py. What the objects that it calls keep
-- outside the repository (log directories) is a list of the jobs that have one.
pub mod Eta
pub mod Exclusive
pub mod Inspect
pub mod Submit
pub mod Stream
pub mod Cancel
pub mod Repair
pub mod Lease
pub mod Run
pub mod Reconcile
pub mod Schedule
pub mod Owned
pub mod Current
pub mod Sound
pub mod Drained
pub mod Serial
pub mod Overlap
pub mod Restart
pub mod Awake
pub mod Attach
pub mod Connection
use gpuq.Common.{Bool, false, List, [], ◌∷◌, Option, none, some}
use gpuq.Common.Text.{Text}
use gpuq.Common.Int.{negsuc}
use gpuq.State.{failed, JobRecord, LeaseRecord, Table}
use gpuq.State.Jobs.{update_state, Change, to_state, running_jobs}
use gpuq.Queue.{Queue, new_queue}
use gpuq.Bus.{Bus, new_bus}
use gpuq.Protocol.{Event, JobDict}

pub record Server : Type 0 where
  pub queue : Queue
  pub leases : List LeaseRecord
  pub bus : Bus
  pub current_job_id : Option Text
  pub lease_held : Bool
  pub lease_id : Option Text
  pub stopping : Bool
  pub log_dirs : List Text

-- The jobs of a server.
abbrev pub jobs : Server → Table
jobs s = s.queue.jobs

-- The server with another table; the flag `notify` is as it was.
abbrev pub with_jobs : Server → Table → Server
with_jobs s t = record s { queue = record { jobs = t; notify = s.queue.notify } }

-- What a handler did: the events that it sent to its client, the state that it left, and whether an
-- exception left it. `_handle` then sends the exception's text as an error event.
pub record Outcome : Type 0 where
  pub sent : List Event
  pub after : Server
  pub raised : Bool

abbrev pub answers : Server → Event → Outcome
answers s ev = record { sent = ev ∷ []; after = s; raised = false }

-- `_job_dict`
abbrev pub job_dict : JobRecord → JobDict
job_dict j = record {
  id = j.id;
  cmd = j.cmd;
  cwd = j.cwd;
  tag = j.tag;
  priority = j.priority;
  state = j.state;
  pid = j.pid;
  exit_code = j.exit_code;
  submitted_at = j.submitted_at;
  started_at = j.started_at;
  finished_at = j.finished_at;
  parent_id = j.parent_id;
  description = j.description;
}

abbrev pub job_dict_or_none : Option JobRecord → Option JobDict
job_dict_or_none none = none
job_dict_or_none (some j) = some (job_dict j)

-- The change that ends a job which was lost: state failed, exit code -1.
abbrev pub lost_change : Text → Change
lost_change now = record (to_state failed) { exit_code = some (negsuc 0); finished_at = some now }

-- The loop of `_reconcile_on_startup` over the rows that it read. `clock jid` is the reading of
-- `_now()` at that row's update.
unfoldable pub fail_all : (clock : Text → Text) → Table → Table → Table
fail_all clock [] t = t
fail_all clock (j ∷ rows) t = fail_all clock rows (update_state j.id (lost_change (clock j.id)) t)

unfoldable pub reconcile_on_startup : (clock : Text → Text) → Table → Table
reconcile_on_startup clock t = fail_all clock (running_jobs t) t

-- `__init__` and `start` on a database with these rows: a new queue, whose Event is clear.
unfoldable pub start : (clock : Text → Text) → Table → List LeaseRecord → List Text → Server
start clock t leases dirs = record {
  queue = new_queue (reconcile_on_startup clock t);
  leases = leases;
  bus = new_bus;
  current_job_id = none;
  lease_held = false;
  lease_id = none;
  stopping = false;
  log_dirs = dirs;
}
