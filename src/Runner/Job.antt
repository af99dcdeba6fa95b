-- ===== src/Runner/Job.antt =====
-- `_run_job` of src/gpuq/daemon/server.py from the return of `evict()` to its end, with the runner's
-- child, as the clients of the job see it.
pub mod Handed
pub mod Followed
use gpuq.Common.{ℕ, List, [], none, some, if◌then◌else◌}
use gpuq.Common.Text.{Text}
use gpuq.Logs.{Entry, JobLogs, append_all}
use gpuq.Runner.{Child, run}
use gpuq.Server.{Server}
use gpuq.Server.Run.{RunResult, exited, crashed, begin_run, note_pid, mirror_all, finish_run}

-- What a run meets: the models that were evicted, the clock's readings, and the child with its pid.
pub record Course : Type 0 where
  pub evicted : List Text
  pub started : Text
  pub shown : Text
  pub ended : Text
  pub pid : ℕ
  pub child : Child

-- What `mirror`, which follows the logs until the end of file, is handed: what was appended. On logs
-- that are not open the first `append` raises.
abbrev pub mirrored : Child → JobLogs → List Entry
mirrored c logs =
    if c.starts then elim (append_all c.output logs) [ none ↦ [] | some logs' ↦ c.output ] else []

unfoldable pub run_job : Course → Text → JobLogs → Server → Server
run_job c jid logs s =
    let r = (run c.child logs).0 in
    let s1 = begin_run c.evicted c.started c.shown jid s in
    let s2 = if c.child.starts then note_pid c.pid jid s1 else s1 in
    finish_run r c.ended jid (mirror_all jid (mirrored c.child logs) s2)
