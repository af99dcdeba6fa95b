-- ===== src/Tests/Ends.antt =====
-- The properties of whole cancellations and of runs of the daemon, applied at the samples.
use gpuq.Runner.{process, signal}
use mathlib.Core.Option
use gpuq.Common.{
  ◌≡◌, ◌≤◌, ◌⊎◌, ◌+◌, ◌*◌, refl, true, false, [], ◌∷◌, ◌++◌, none, some, arith, length, leb,
  if◌then◌else◌, ℕ,
}
use gpuq.Common.Text.{Text, text}
use gpuq.Common.Int.{pos}
use gpuq.State.{JobRecord}
use gpuq.State.Jobs.{get, is_active, running_jobs}
use gpuq.Protocol.{Cancel, Signal, Attach, From}
use gpuq.Server.Run.{finish_run, crashed}
use gpuq.Server.Owned.{IsOwned}
use gpuq.Server.Schedule.{Pc, System, Reach, here, Step, popped, after_pop}
use gpuq.Bus.Queues.{queue_of}
use gpuq.Server.Stream.{stream_until_terminal}
use gpuq.Server.Attach.{handle_attach}
use gpuq.Server.Attach.Waits.{Spared, at_first, then_step, attach_waits}
use gpuq.Server.Cancel.{Wait, sent_to, handle_cancel}
use gpuq.Server.Cancel.Killed.{IsAt, kill_running}
use gpuq.Server.Cancel.Timed.{World, handle_cancel_timed}
use gpuq.Server.Cancel.Timed.Ends.{seen, handle_cancel_ends}
use gpuq.Daemon.{Host, start_daemon, stop_scheduler, shut_down, left_by}
use gpuq.Daemon.Lives.{left_over, run_ends}
use gpuq.Tests.Samples.{program, jobs, d, e, now, server}
use gpuq.Tests.Witnesses.{crowd-IsKeyed}
use gpuq.Tests.Runs.{begun, begun-Reach}

abbrev request : Cancel
request = record { id = text "j_z"; signal = Signal.term; timeout = pos 100000 }

-- The job ends during the second sleep. Each sleep takes 50 milliseconds.
abbrev passing : World
passing = record {
  server_at =
      λ n. if leb n 1 then begun.server else finish_run crashed now (text "j_z") begun.server;
  runner_at = λ n. process none;
  clock = λ n. n * 50000;
  set_at = λ n. n * 50000;
}

handle_cancel_ends_example :
    (n m : ℕ) × (n ≤ 2)
    × (m ≤ n + 2)
    × (handle_cancel_timed 3 now request passing
        ≡ some
            (handle_cancel now request (seen passing 0 n) (seen passing n m) (passing.server_at 0)))
handle_cancel_ends_example =
    handle_cancel_ends passing 50000 2 now request (λ n. omega arith) (λ n. omega arith)
      (omega arith)

abbrev at_deadline : Wait
at_deadline = record { runner = process none; polls = []; last = begun.server }

kill_running_example :
    let sent = (handle_cancel now request at_deadline at_deadline begun.server).signals in
    let asked = sent_to request.id (signal at_deadline.runner request.signal) in
    (sent ≡ [])
    ⊎ (IsAt request.id begun.pc
        × ((sent ≡ asked)
            ⊎ ((c : Text) × (sent ≡ asked ++ sent_to c (signal at_deadline.runner Signal.kill))
                × IsAt c begun.pc
                × ((r : JobRecord)
                    → get request.id begun.server.queue.jobs ≡ some r
                    → is_active r ≡ true
                    → c ≡ request.id))))
kill_running_example =
    kill_running (λ jid. now) (e ∷ jobs) [] [] now request at_deadline at_deadline crowd-IsKeyed
      begun-Reach begun-Reach refl

abbrev host : Host
host = record { rows = e ∷ jobs; leases = []; log_dirs = []; socket = true }

begun-run : Reach (start_daemon (λ jid. now) host).system begun
unfolding start_daemon
begun-run = begun-Reach

run_ends_example :
    let g = left_by (shut_down true (stop_scheduler now false begun)) in
    IsOwned (left_over false begun.pc) g.rows
    × (length (running_jobs g.rows) ≤ 1)
    × (left_over false begun.pc ≡ none → running_jobs g.rows ≡ [])
run_ends_example = run_ends (λ jid. now) host now false true crowd-IsKeyed begun-run here

abbrev idle : System
idle = record { server = server; pc = Pc.waiting; granting = [] }

abbrev follow_done : Attach
follow_done = record { id = text "j_d"; follow = true; from_ = From.start; tail = pos 200 }

abbrev attached : System
attached = record idle { server = (handle_attach none follow_done server).after }

-- The next job is popped while the client waits.
abbrev moved_on : System
moved_on = record {
  server = (popped now attached.server).1;
  pc = after_pop (popped now attached.server).0;
  granting = [];
}

moved_on-Spared : Spared (text "j_d") 0 attached moved_on
unfolding program handle_attach
moved_on-Spared = then_step at_first (Step.pop now refl refl refl) refl

attach_waits_example :
    Option.map stream_until_terminal (queue_of (text "j_d") 0 moved_on.server.bus.subs)
    ≡ some ([], false)
unfolding program queue_of
attach_waits_example =
    attach_waits none follow_done d idle crowd-IsKeyed refl refl refl refl refl moved_on-Spared
