-- ===== src/Daemon.antt =====
-- src/gpuq/daemon/main.py, with `start` and `stop` of `class Server` (src/gpuq/daemon/server.py):
-- what a run of the daemon finds, and what it leaves behind.
pub mod Lives
use gpuq.Common.{◌≡◌, Bool, true, false, List, Option, none, some, if◌then◌else◌}
use gpuq.Common.Text.{Text}
use gpuq.State.{Table, LeaseRecord}
use gpuq.Server.{Server, jobs}
use gpuq.Server.Run.{finish_run, crashed}
use gpuq.Server.Schedule.{
  Pc, waiting, lease_wait, evicting, running, stopped, System, Reach, init, stop_flags,
}

-- What outlives the process: the rows of the database, the log directories, and whether there is a
-- file at the socket's path.
pub record Host : Type 0 where
  pub rows : Table
  pub leases : List LeaseRecord
  pub log_dirs : List Text
  pub socket : Bool

-- A daemon: its tasks, whether it listens, whether its database is open, and the socket's file.
pub record Daemon : Type 0 where
  pub system : System
  pub listening : Bool
  pub store_open : Bool
  pub socket : Bool

-- `start`: the file that a dead daemon left is removed, and `start_unix_server` makes a new one.
unfoldable pub start_daemon : (clock : Text → Text) → Host → Daemon
start_daemon clock h = record {
  system = init clock h.rows h.leases h.log_dirs;
  listening = true;
  store_open = true;
  socket = true;
}

-- `self._scheduler_task.cancel()` and the wait for the task, by what the task awaits. `now` is the
-- reading of `_now()` at the end of a job that it runs, `mirroring` whether that job's run has ended
-- and its mirror is awaited: then the rest of the `finally` block is left out.
unfoldable pub cancel_task : (now : Text) (mirroring : Bool) → Pc → System → System
cancel_task now mirroring waiting w = record w { pc = stopped none }
cancel_task now mirroring lease_wait w = record w { pc = stopped none }
cancel_task now mirroring (evicting jid) w = record w { pc = stopped (some jid) }
cancel_task now true (running jid) w = record w { pc = stopped (some jid) }
cancel_task now false (running jid) w = record w {
  server = finish_run crashed now jid w.server;
  pc = stopped none;
}
cancel_task now mirroring (stopped left) w = w

-- `stop` up to the end of `await self._scheduler_task`.
unfoldable pub stop_scheduler : (now : Text) (mirroring : Bool) → System → System
stop_scheduler now mirroring w =
    cancel_task now mirroring w.pc (record w { server = stop_flags w.server })

-- The rest of `stop`. Between the two the handlers of clients that are still connected may run.
-- The socket's file is removed if it is there: `found` says whether the listening
-- socket's `close()` has left it.
abbrev pub unlink_socket : (exists : Bool) → Bool
unlink_socket exists = if exists then false else exists

unfoldable pub shut_down : (found : Bool) → System → Daemon
shut_down found v = record {
  system = v;
  listening = false;
  store_open = false;
  socket = unlink_socket found;
}

-- What a daemon leaves when its process ends.
abbrev pub left_by : Daemon → Host
left_by d = record {
  rows = jobs d.system.server;
  leases = d.system.server.leases;
  log_dirs = d.system.server.log_dirs;
  socket = d.socket;
}

-- `_run`: the daemon starts, works until a signal, and stops. A process that is killed leaves what
-- is there.
pub data Run (h : Host) (g : Host) : Type 0 where
  signalled :
      (clock : Text → Text) (now : Text) (mirroring found : Bool) {w v : System}
      → Reach (start_daemon clock h).system w
      → Reach (stop_scheduler now mirroring w) v
      → g ≡ left_by (shut_down found v)
      → Run h g
  killed :
      (clock : Text → Text) {w : System}
      → Reach (start_daemon clock h).system w
      → g ≡ left_by (record (start_daemon clock h) { system = w })
      → Run h g
