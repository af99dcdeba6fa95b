-- ===== src/Tests/Runs.antt =====
-- The properties of whole runs of the daemon, applied at the samples.
use gpuq.Common.{◌≡◌, refl, [], ◌∷◌, none, some, true, false, length, ◌≤◌}
use gpuq.Common.Text.{Text, text, text_eq}
use gpuq.Common.Int.{pos}
use gpuq.State.Jobs.{running_jobs}
use gpuq.State.Leases.{get_lease, insert_lease}
use gpuq.State.Keys.{IsKeyed}
use gpuq.Protocol.{Lease, Event, Payload}
use gpuq.Server.{answers}
use gpuq.Server.Submit.{handle_submit}
use gpuq.Server.Run.{begin_run, RunResult, exited}
use gpuq.Server.Drained.{drained}
use gpuq.Server.Drained.Round.{ran}
use gpuq.State.Jobs.{has_id}
use gpuq.Common.{All, any, ◌⊎◌}
use gpuq.Queue.View.{view}
use gpuq.Common.{if◌then◌else◌}
use gpuq.Server.Lease.{grant, handle_release}
use gpuq.Server.Exclusive.{kept, more, lease_excludes}
use gpuq.Server.Owned.{IsOwned}
use gpuq.Server.Serial.{serial_jobs}
use gpuq.Server.Overlap.{lease_overlaps_job, leases_overlap, new_lease}
use gpuq.Server.Restart.{unmoved, moved, restart_sleeps}
use gpuq.Server.Schedule.{
  Pc, waiting, lease_wait, evicting, System, Reach, Alone, here, next, init, Step, Client, popped,
  after_pop,
}
use gpuq.Server.Awake.{no_lost_wakeup}
use gpuq.Queue.Wakeup.{is_awake}
use gpuq.Tests.Witnesses.{crowd-IsKeyed}
use mathlib.Core.Option
use gpuq.Server.Run.{abort_run}
use gpuq.Server.Run.Aborted.{abort_run_lem, AllWait}
use gpuq.State.Jobs.{get, apply_change}
use gpuq.Server.{Server, lost_change}
use gpuq.Server.Stream.{stream_until_terminal}
use gpuq.Bus.{subscribe}
use gpuq.Common.Text.{text}
use gpuq.Server.Inspect.{handle_bump}
use gpuq.Tests.Samples.{program, run_program, jobs, e, now, server, plain}

abbrev pub started : System
started = init (λ jid. now) (e ∷ jobs) [] []

abbrev submitted : System
submitted = record started {
  server = (handle_submit (λ s. none) (pos 0) (text "j_z") now plain started.server).after;
}

abbrev taken : System
taken = record {
  server = (popped now submitted.server).1;
  pc = after_pop (popped now submitted.server).0;
  granting = [];
}

abbrev pub begun : System
begun = record {
  server = begin_run [] now now (text "j_z") taken.server;
  pc = Pc.running (text "j_z");
  granting = [];
}

-- A submission, and the start of the job that was submitted.
pub begun-Reach : Reach started begun
unfolding run_program
begun-Reach =
    next
      (next
        (next here
          (Step.client (Client.submit (λ s. none) (pos 0) (text "j_z") now plain refl) refl))
        (Step.pop now refl refl refl))
      (Step.begin (text "j_z") [] now now refl refl)

-- The same, from the submission on.
rest-Reach : Reach submitted begun
unfolding run_program
rest-Reach =
    next (next here (Step.pop now refl refl refl)) (Step.begin (text "j_z") [] now now refl refl)

no_lost_wakeup_example : is_awake begun.server.queue ≡ true
unfolding run_program
no_lost_wakeup_example = no_lost_wakeup rest-Reach refl

serial_jobs_example :
    (length (running_jobs begun.server.queue.jobs) ≤ 1)
    × IsOwned (some (text "j_z")) begun.server.queue.jobs
    × IsKeyed begun.server.queue.jobs
serial_jobs_example = serial_jobs (λ jid. now) (e ∷ jobs) [] [] crowd-IsKeyed begun-Reach

abbrev bumped : System
bumped = record started { server = (handle_bump (text "j_a") started.server).after }

restart_sleeps_example : (bumped.pc ≡ waiting) × (running_jobs bumped.server.queue.jobs ≡ [])
restart_sleeps_example =
    restart_sleeps (λ jid. now) (e ∷ jobs) [] [] crowd-IsKeyed
      (moved unmoved (Step.client (Client.bump (text "j_a") refl) refl) refl)

abbrev starting_b : System
starting_b = record { server = server; pc = evicting (text "j_b"); granting = [] }

abbrev hold : Lease
hold = record { duration = []; reason = text "train"; priority = pos 0 }

lease_overlaps_job_example :
    (v : System) × Reach starting_b v
    × (v.pc ≡ Pc.running (text "j_b"))
    × (v.server.lease_held ≡ true)
unfolding program
lease_overlaps_job_example =
    lease_overlaps_job starting_b (text "j_b") (text "l_1") hold refl refl refl

leases_overlap_example :
    (v : System) × Reach starting_b v
    × (get_lease (text "l_1") v.server.leases ≡ some (new_lease (text "l_1") now hold))
    × (get_lease (text "l_2") v.server.leases ≡ some (new_lease (text "l_2") now hold))
    × (v.server.lease_id ≡ some (text "l_2"))
    × (handle_release (text "l_1") now v.server
        ≡ answers v.server (Event.result (Payload.ok false)))
unfolding program
leases_overlap_example =
    leases_overlap starting_b (text "l_1") (text "l_2") now hold refl refl refl refl

abbrev lent : System
lent = record started { server = (grant (text "l_1") now hold started.server).after }

lent-Reach : Reach started lent
unfolding run_program
lent-Reach =
    next (next here (Step.lease_pass hold refl refl))
      (Step.lease_grant [] [] hold (text "l_1") now refl refl)

-- A job is submitted while the lease is held, and wakes the scheduler.
abbrev crowded : System
crowded = record lent {
  pc = lease_wait;
  server = (handle_submit (λ s. none) (pos 0) (text "j_z") now plain lent.server).after;
}

lease_excludes_example :
    (running_jobs crowded.server.queue.jobs ≡ [])
    × (crowded.server.lease_held ≡ true)
    × (crowded.server.lease_id ≡ some (text "l_1"))
unfolding run_program grant insert_lease
lease_excludes_example =
    lease_excludes (λ jid. now) (e ∷ jobs) [] [] (text "l_1") crowd-IsKeyed lent-Reach refl refl
      refl refl
      (more
        (more kept
          (Step.client (Client.submit (λ s. none) (pos 0) (text "j_z") now plain refl) refl) refl)
        (Step.see_lease refl refl refl refl refl) refl)

abbrev followed : Server
followed = record server { bus = (subscribe (text "j_b") server.bus).1 }

abort_run_lem_example :
    (get (text "j_b") (abort_run (text "llama" ∷ []) now (text "j_b") followed).queue.jobs
      ≡ Option.map (apply_change (lost_change now)) (get (text "j_b") followed.queue.jobs))
    × AllWait (abort_run (text "llama" ∷ []) now (text "j_b") followed).bus.subs
unfolding program subscribe stream_until_terminal
abort_run_lem_example = abort_run_lem (text "llama" ∷ []) now (text "j_b") followed (refl, tt)

-- Three jobs are queued, and b exits with 3.
abbrev results : Text → RunResult
results jid = if text_eq jid (text "j_b") then exited (pos 3) (pos 1) else exited (pos 0) (pos 1)

abbrev idle : System
idle = record { server = server; pc = waiting; granting = [] }

drained_example :
    (v : System) × Alone idle v
    × (v.pc ≡ waiting)
    × (v.server.queue.notify ≡ false)
    × (view v.server.queue.jobs ≡ [])
    × All
        (λ j. get j.id v.server.queue.jobs ≡ some (ran results now j))
        (view idle.server.queue.jobs)
    × ((k : Text)
        → (any (has_id k) (view idle.server.queue.jobs) ≡ true)
          ⊎ (get k v.server.queue.jobs ≡ get k idle.server.queue.jobs))
drained_example = drained results now idle refl refl crowd-IsKeyed
