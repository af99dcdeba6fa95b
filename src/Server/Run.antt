-- ===== src/Server/Run.antt =====
-- `_run_job` and the body of `_scheduler` of src/gpuq/daemon/server.py, cut where they await.
pub mod Final
pub mod Aborted
use gpuq.Common.{ℕ, List, [], ◌∷◌, ◌++◌, none, some, if◌then◌else◌, any}
use gpuq.Common.Text.{Text, text, text_eq}
use gpuq.Common.Int.{ℤ, pos, negsuc, eqb_ℤ}
use gpuq.State.{JobState, running, done, failed}
use gpuq.State.Jobs.{update_state, Change, to_state}
use gpuq.Bus
use gpuq.Bus.{Bus}
use gpuq.Logs.{Entry}
use gpuq.Protocol.{Event, Stream, Micros}
use gpuq.Server.{Server, jobs, with_jobs, lost_change}
use gpuq.Server.Submit.{state_event}

abbrev pub publishes : Text → Event → Server → Server
publishes jid ev s = record s { bus = Bus.publish jid ev s.bus }

-- `if evicted: publish`
unfoldable pub report_evicted : Text → List Text → Server → Server
report_evicted jid [] s = s
report_evicted jid (m ∷ models) s = publishes jid (Event.ollama (text "evicted") (m ∷ models)) s

-- `mkdir(exist_ok=True)`
unfoldable pub open_logs : Text → Server → Server
open_logs jid s = record s {
  log_dirs = if any (text_eq jid) s.log_dirs then s.log_dirs else s.log_dirs ++ jid ∷ [];
}

-- The change at the start of a run.
abbrev pub run_change : Text → Change
run_change now = record (to_state running) { started_at = some now }

-- From the return of `evict()` to the start of the runner. `shown` is the second reading of `_now()`.
unfoldable pub begin_run : (evicted : List Text) (now shown : Text) → Text → Server → Server
begin_run evicted now shown jid s =
    let s1 = open_logs jid (report_evicted jid evicted s) in
    let s2 = record (with_jobs s1 (update_state jid (run_change now) (jobs s1))) {
      current_job_id = some jid;
    } in
    publishes jid (Event.state (record (state_event jid running) { started_at = some shown })) s2

-- `JobLogs.open` raises an OSError, or `evict()` an exception (`evicted` is then empty), before
-- `_current_job_id` is set, and `_scheduler` catches it.
unfoldable pub abort_run : (evicted : List Text) (now : Text) → Text → Server → Server
abort_run evicted now jid s =
    let s1 = report_evicted jid evicted s in
    with_jobs s1 (update_state jid (lost_change now) (jobs s1))

-- The runner has a process: its pid is written.
abbrev pub pid_change : ℕ → Change
pid_change pid = record (to_state running) { pid = some pid }

unfoldable pub note_pid : ℕ → Text → Server → Server
note_pid pid jid s = with_jobs s (update_state jid (pid_change pid) (jobs s))

-- `mirror` publishes a line of output.
unfoldable pub mirror_line : Stream → (line : Text) → Text → Server → Server
mirror_line stream line jid s = publishes jid (Event.log jid stream line) s

-- The lines of a job's output, as `mirror` publishes them one after the other.
unfoldable pub mirror_all : Text → List Entry → Server → Server
mirror_all jid [] s = s
mirror_all jid ((stream, line) ∷ entries) s = mirror_all jid entries (mirror_line stream line jid s)

-- How `runner.run` ended: with an exit code and a duration, or with an exception, which leaves
-- `rc` at -1 and `dur` at 0.
pub data RunResult : Type 0 where
  exited : (rc : ℤ) → (dur : Micros) → RunResult
  crashed : RunResult

abbrev pub exit_code : RunResult → ℤ
exit_code (exited rc dur) = rc
exit_code crashed = negsuc 0

abbrev pub duration : RunResult → Micros
duration (exited rc dur) = dur
duration crashed = pos 0

unfoldable pub final_state : RunResult → JobState
final_state (exited rc dur) = if eqb_ℤ rc (pos 0) then done else failed
final_state crashed = failed

abbrev pub final_change : RunResult → Text → Change
final_change r now = record (to_state (final_state r)) {
  exit_code = some (exit_code r);
  finished_at = some now;
}

abbrev pub final_event : RunResult → Text → Event
final_event r jid = Event.state (record (state_event jid (final_state r)) {
  exit_code = some (exit_code r);
  duration_s = some (duration r);
})

-- The `finally` block. `restore` does nothing.
unfoldable pub finish_run : RunResult → (now : Text) → Text → Server → Server
finish_run r now jid s =
    let s1 = record (with_jobs s (update_state jid (final_change r now) (jobs s))) {
      current_job_id = none;
    } in
    let s2 = publishes jid (final_event r jid) s1 in record s2 { bus = Bus.close jid s2.bus }
