-- ===== src/Server/Awake.antt =====
-- No wakeup is lost: a scheduler that waits for `notify` misses no queued job, whatever its clients
-- do and in whatever order (src/gpuq/daemon/server.py and src/gpuq/daemon/queue.py).
pub mod Handlers
use gpuq.State.{state_name}
use gpuq.Common.{
  ℕ, List, ◌≡◌, refl, Bool, true, false, [], ◌∷◌, ◌++◌, Option-cases, none, some, arith, Bool-cases,
  inl, inr, if◌then◌else◌,
}
use gpuq.Common.Text.{Text, text}
use gpuq.State.{JobState, state_eq, JobRecord, Table}
use gpuq.State.Jobs.{get}
use gpuq.Queue.{Queue, enqueue}
use gpuq.Queue.Runtime.{Parser}
use gpuq.Queue.Wakeup.{
  is_awake, is_awake-true, is_awake-IsAwake, IsAwake, enqueue-IsAwake, pop-IsAwake, cancel-IsAwake,
  update_state-IsIdle, delete-IsIdle, bump-IsIdle,
}
use gpuq.Protocol.{Lease, Micros, Event, Payload, Submit, Retry, Doctor, Prune}
use gpuq.Server.{Server, jobs, with_jobs, lost_change, answers}
use gpuq.Server.Inspect.{handle_bump}
use gpuq.Server.Submit.{
  handle_submit, submit_record, handle_retry, retry_enqueue, retry_record, retry_allowed,
}
use gpuq.Server.Cancel.{cancel_queued}
use gpuq.Server.Repair.{
  Surroundings, handle_doctor, treat, examine, candidates, signature_of, handle_prune, sweep,
  delete_job, is_pruned, is_current, prune_candidates,
}
use gpuq.Server.Lease.{holds, grant, handle_release}
use gpuq.Server.Run.{
  begin_run, abort_run, note_pid, mirror_line, finish_run, report_evicted, open_logs, run_change,
  pid_change, final_change, final_state, RunResult, exited, crashed,
}
use gpuq.Server.Schedule.{Client, System, Step, Reach, here, next}
use gpuq.Server.Awake.Handlers.{Awake, Client-Awake, queue-grant}

queue-report_evicted :
    (jid : Text) (models : List Text) (s : Server) → (report_evicted jid models s).queue ≡ s.queue
unfolding report_evicted
queue-report_evicted jid [] s = refl
queue-report_evicted jid (m ∷ models) s = refl

begin_run-Awake :
    (models : List Text) (now shown jid : Text) (s : Server)
    → Awake s
    → Awake (begin_run models now shown jid s)
unfolding begin_run open_logs state_eq
begin_run-Awake models now shown jid s a =
    rw (queue-report_evicted jid models s)
      (λ clear. update_state-IsIdle jid (run_change now) (jobs s) refl (a clear))

abort_run-Awake :
    (models : List Text) (now jid : Text) (s : Server)
    → Awake s
    → Awake (abort_run models now jid s)
unfolding abort_run state_eq
abort_run-Awake models now jid s a =
    rw (queue-report_evicted jid models s)
      (λ clear. update_state-IsIdle jid (lost_change now) (jobs s) refl (a clear))

final_state-unqueued : (r : RunResult) → state_eq (final_state r) JobState.queued ≡ false
unfolding final_state state_eq
final_state-unqueued (exited rc dur) = ground arith
final_state-unqueued crashed = refl

finish_run-Awake :
    (r : RunResult) (now jid : Text) (s : Server) → Awake s → Awake (finish_run r now jid s)
unfolding finish_run
finish_run-Awake r now jid s a clear =
    update_state-IsIdle jid (final_change r now) (jobs s) (final_state-unqueued r) (a clear)

note_pid-Awake : (n : ℕ) (jid : Text) (s : Server) → Awake s → Awake (note_pid n jid s)
unfolding note_pid state_eq
note_pid-Awake n jid s a clear = update_state-IsIdle jid (pid_change n) (jobs s) refl (a clear)

Step-Awake : {w v : System} → Step w v → Awake w.server → Awake v.server
Step-Awake (Step.client c e) a = rw e (Client-Awake c a)
Step-Awake (Step.see_lease p n s l e) a = rw e a
Step-Awake (Step.lease_over p l e) a = rw e a
Step-Awake {w} (Step.pop now p m e) a = rw e (pop-IsAwake now w.server.queue a)
Step-Awake {w} (Step.begin jid models now shown p e) a =
    rw e (begin_run-Awake models now shown jid w.server a)
Step-Awake {w} (Step.abort jid models now p e) a = rw e (abort_run-Awake models now jid w.server a)
Step-Awake {w} (Step.pid jid n p e) a = rw e (note_pid-Awake n jid w.server a)
Step-Awake (Step.line jid stream line p e) a = rw e (unfold mirror_line in a)
Step-Awake {w} (Step.finish jid r now p e) a = rw e (finish_run-Awake r now jid w.server a)
Step-Awake (Step.lease_pass req m e) a = rw e a
Step-Awake {w} (Step.lease_grant before rest req lid now g e) a =
    rw e (rw (queue-grant lid now req w.server) a)
Step-Awake (Step.stop_idle p e) a = rw e (λ clear. cc)
Step-Awake (Step.stop_evicting jid p e) a = rw e (λ clear. cc)
Step-Awake (Step.stop_mirroring jid p e) a = rw e (λ clear. cc)
Step-Awake (Step.stop_running jid now p e) a = rw e (unfold finish_run in λ clear. cc)

Reach-Awake : {w v : System} → Reach w v → Awake w.server → Awake v.server
Reach-Awake here a = a
Reach-Awake (next r st) a = Step-Awake st (Reach-Awake r a)

-- If the flag `notify` is set or no job is queued, then so it is after any steps of the scheduler and
-- of the clients in any order.
pub no_lost_wakeup :
    {w v : System} → Reach w v → is_awake w.server.queue ≡ true → is_awake v.server.queue ≡ true
no_lost_wakeup {w} {v} r h =
    is_awake-true v.server.queue (Reach-Awake r (is_awake-IsAwake w.server.queue h))
