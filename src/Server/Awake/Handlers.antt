-- ===== src/Server/Awake/Handlers.antt =====
-- What each handler of src/gpuq/daemon/server.py does to the flag `notify` and to the queued jobs.
use gpuq.Common.{◌≡◌, refl, true, arith, Bool-cases, inl, inr, some}
use gpuq.Common.Text.{Text}
use gpuq.State.{state_eq, JobRecord}
use gpuq.State.Jobs.{is_queued, update_state}
use gpuq.Queue.{Queue, enqueue}
use gpuq.Queue.Wakeup.{
  IsAwake, enqueue-IsAwake, cancel-IsAwake, update_state-IsIdle, delete-IsIdle, bump-IsIdle,
}
use gpuq.Protocol.{Lease}
use gpuq.Server.{Server, jobs, lost_change, with_jobs}
use gpuq.Server.Inspect.{handle_bump}
use gpuq.Server.Cancel.{cancel_queued}
use gpuq.Server.Repair.{delete_job}
use gpuq.Server.Lease.{holds, grant, handle_release}
use gpuq.Server.Repair.Kept.{handle_doctor-keeps, handle_prune-keeps}
use gpuq.Server.Submit.Kept.{handle_submit-keeps, handle_retry-keeps}
use gpuq.Server.Schedule.{Client}

abbrev pub Awake : Server → Type 0
Awake s = IsAwake s.queue

joined :
    (jid : Text) (r : JobRecord) (s : Server) (q : Queue)
    → r.id ≡ jid
    → is_queued r ≡ true
    → enqueue r s.queue ≡ some q
    → Awake s
    → IsAwake q
joined jid r s q named waiting e a = enqueue-IsAwake r s.queue q e

fail-Awake :
    (jid now : Text) (s : Server)
    → Awake s
    → Awake (with_jobs s (update_state jid (lost_change now) (jobs s)))
unfolding state_eq
fail-Awake jid now s a clear = update_state-IsIdle jid (lost_change now) (jobs s) refl (a clear)

delete_job-Awake : (jid : Text) (s : Server) → Awake s → Awake (delete_job jid s)
unfolding delete_job
delete_job-Awake jid s a clear = delete-IsIdle jid (jobs s) (a clear)

handle_release-Awake :
    (lid now : Text) (s : Server) → Awake s → Awake (handle_release lid now s).after
unfolding handle_release
handle_release-Awake lid now s a = elim (Bool-cases (holds lid s.lease_id)) [
  | inl mine ↦ rw mine (λ clear. cc)
  | inr other ↦ rw other a
]

pub queue-grant :
    (lid now : Text) (req : Lease) (s : Server) → (grant lid now req s).after.queue ≡ s.queue
unfolding grant
queue-grant lid now req s = ground arith

pub Client-Awake : {s t : Server} → Client s t → Awake s → Awake t
Client-Awake {s} (Client.submit parse now jid stamp req e) a =
    rw e
      (handle_submit-keeps Awake jid (joined jid) (λ s h. h) (λ key s h. h) parse now stamp req s a)
Client-Awake {s} (Client.retry jid now req e) a =
    rw e (handle_retry-keeps Awake jid (joined jid) now req s a)
Client-Awake {s} (Client.bump jid e) a =
    rw e (unfold handle_bump in λ clear. bump-IsIdle jid (jobs s) (a clear))
Client-Awake {s} (Client.cancel now jid h e) a =
    rw e (unfold cancel_queued in cancel-IsAwake jid now s.queue a)
Client-Awake {s} (Client.doctor w req e) a = rw e (handle_doctor-keeps Awake fail-Awake w req s a)
Client-Awake {s} (Client.prune cutoff req e) a =
    rw e (handle_prune-keeps Awake delete_job-Awake cutoff req s a)
Client-Awake {s} (Client.release lid now e) a = rw e (handle_release-Awake lid now s a)
Client-Awake {s} (Client.subscribe jid e) a = rw e a
Client-Awake {s} (Client.unsubscribe jid key e) a = rw e a
