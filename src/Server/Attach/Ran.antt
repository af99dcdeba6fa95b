-- ===== src/Server/Attach/Ran.antt =====
-- A job that has ended and a queue to which nothing was put, under the scheduler's steps on other
-- jobs (src/gpuq/daemon/server.py).
use gpuq.Common.{ℕ, ◌≡◌, false, List, [], ◌∷◌, Option-cases, some, inl, inr}
use gpuq.Common.Text.{Text, text_eq}
use gpuq.State.Over.{update_other-IsOver}
use gpuq.Bus
use gpuq.Bus.{Bus, subscribe}
use gpuq.Bus.Queues.{queue_of}
use gpuq.Protocol.{Lease}
use gpuq.Server.{Server, jobs, lost_change}
use gpuq.Server.Lease.{grant}
use gpuq.Server.Overlap.{new_lease}
use gpuq.State.Leases.{insert_lease}
use gpuq.Server.Run.{
  begin_run, abort_run, finish_run, open_logs, report_evicted, run_change, final_change,
  final_event, RunResult,
}
use gpuq.Server.Run.Aborted.{jobs-report_evicted}
use gpuq.Server.Schedule.{stop_flags}
use gpuq.Server.Attach.Silent.{IsSilent, publish-silent, close-silent}

module _ (j : Text) (key : ℕ) where
  report_evicted-silent :
      (jid : Text) (models : List Text) (s : Server)
      → text_eq jid j ≡ false
      → queue_of j key s.bus.subs ≡ some []
      → queue_of j key (report_evicted jid models s).bus.subs ≡ some []
  unfolding report_evicted Bus.publish
  report_evicted-silent jid [] s h v = v
  report_evicted-silent jid (m ∷ models) s h v = publish-silent j key jid _ s.bus h v

  -- A step of the scheduler on another job.
  pub begin_run-IsSilent :
      (models : List Text) (now shown jid : Text) (s : Server)
      → text_eq jid j ≡ false
      → IsSilent j key s
      → IsSilent j key (begin_run models now shown jid s)
  unfolding begin_run open_logs Bus.publish
  begin_run-IsSilent models now shown jid s h v = record {
    over =
        update_other-IsOver j jid (run_change now) _ h
          (rw (jobs-report_evicted jid models s) v.over);
    silent =
        publish-silent j key jid _ (report_evicted jid models s).bus h
          (report_evicted-silent jid models s h v.silent);
  }

  pub abort_run-IsSilent :
      (models : List Text) (now jid : Text) (s : Server)
      → text_eq jid j ≡ false
      → IsSilent j key s
      → IsSilent j key (abort_run models now jid s)
  unfolding abort_run
  abort_run-IsSilent models now jid s h v = record {
    over =
        update_other-IsOver j jid (lost_change now) _ h
          (rw (jobs-report_evicted jid models s) v.over);
    silent = report_evicted-silent jid models s h v.silent;
  }

  pub finish_run-IsSilent :
      (r : RunResult) (now jid : Text) (s : Server)
      → text_eq jid j ≡ false
      → IsSilent j key s
      → IsSilent j key (finish_run r now jid s)
  unfolding finish_run
  finish_run-IsSilent r now jid s h v = record {
    over = update_other-IsOver j jid (final_change r now) (jobs s) h v.over;
    silent = close-silent j key jid (final_event r jid) s.bus h v.silent;
  }

  pub grant-IsSilent :
      (lid now : Text) (req : Lease) (s : Server)
      → IsSilent j key s
      → IsSilent j key (grant lid now req s).after
  unfolding grant
  grant-IsSilent lid now req s v =
      elim (Option-cases (insert_lease (new_lease lid now req) s.leases)) [
        | inl duplicate ↦ rw (duplicate, grant) v
        | inr (leases, e) ↦ rw (e, grant) (record { over = v.over; silent = v.silent })
      ]

  pub stop_flags-IsSilent : (s : Server) → IsSilent j key s → IsSilent j key (stop_flags s)
  stop_flags-IsSilent s v = record { over = v.over; silent = v.silent }
