-- ===== src/Server/Sound.antt =====
-- What every handler keeps: the primary key, and the owner of the active rows.
use gpuq.Common.{
  ◌≡◌, refl, true, false, Option, Option-cases, none, some, arith, Bool-cases, inl, inr,
}
use gpuq.Common.Text.{Text}
use gpuq.State.{JobState, state_eq, JobRecord, Table}
use gpuq.State.Jobs.{get, is_active, is_queued, insert_job, delete, update_state}
use gpuq.State.Keys.{
  IsKeyed, insert_job-IsKeyed, update_state-IsKeyed, bump-IsKeyed, delete-IsKeyed,
}
use gpuq.Queue
use gpuq.Queue.{Queue, enqueue, start_change, cancel_change}
use gpuq.State.{LeaseRecord}
use gpuq.State.Leases.{insert_lease}
use gpuq.Server.Submit.{text_or_none}
use gpuq.Protocol.{Lease}
use gpuq.Server.{Server, jobs, lost_change}
use gpuq.Server.Inspect.{handle_bump}
use gpuq.Server.Cancel.{cancel_queued}
use gpuq.Server.Repair.{delete_job}
use gpuq.Server.Lease.{holds, grant, handle_release}
use gpuq.Server.Owned.{
  IsOwned, active_state, filter-IsOwned, insert_job-IsOwned, deactivate-IsOwned, bump-IsOwned,
}
use gpuq.Server.Repair.Kept.{handle_doctor-keeps, handle_prune-keeps}
use gpuq.Server.Submit.Kept.{handle_submit-keeps, handle_retry-keeps}
use gpuq.Server.Schedule.{Client}

-- A keyed table whose active rows are the owner's.
pub record IsSound (o : Option Text) (t : Table) : Type 0 where
  pub keyed : IsKeyed t
  pub owned : IsOwned o t

deactivate-IsSound :
    (o : Option Text) (jid now : Text) (t : Table)
    → IsSound o t
    → IsSound o (update_state jid (lost_change now) t)
unfolding state_eq
deactivate-IsSound o jid now t v = record {
  keyed = update_state-IsKeyed jid _ t v.keyed;
  owned = deactivate-IsOwned o jid (lost_change now) t refl v.owned;
}

pub enqueue-jobs :
    (j : JobRecord) (q q' : Queue) → enqueue j q ≡ some q' → insert_job j q.jobs ≡ some q'.jobs
unfolding enqueue
enqueue-jobs j q q' e = ground arith

enqueue-IsSound :
    (o : Option Text) (j : JobRecord) (q q' : Queue)
    → is_active j ≡ false
    → enqueue j q ≡ some q'
    → IsSound o q.jobs
    → IsSound o q'.jobs
enqueue-IsSound o j q q' h e v =
    let inserted = enqueue-jobs j q q' e in
    record {
      keyed = insert_job-IsKeyed j q.jobs v.keyed inserted;
      owned = insert_job-IsOwned o j q.jobs q'.jobs h inserted v.owned;
    }

delete-IsSound :
    (o : Option Text) (jid : Text) (t : Table) → IsSound o t → IsSound o (delete jid t).1
delete-IsSound o jid t v = record {
  keyed = delete-IsKeyed jid t v.keyed;
  owned = unfold delete in filter-IsOwned o _ t v.owned;
}

cancel-IsSound :
    (o : Option Text) (jid now : Text) (q : Queue)
    → IsSound o q.jobs
    → IsSound o (Queue.cancel jid now q).1.jobs
unfolding Queue.cancel state_eq
cancel-IsSound o jid now q v =
    let after : IsSound o (update_state jid (cancel_change now) q.jobs) = record {
      keyed = update_state-IsKeyed jid _ q.jobs v.keyed;
      owned = deactivate-IsOwned o jid (cancel_change now) q.jobs refl v.owned;
    } in
    elim (Option-cases (get jid q.jobs)) [
      | inl absent ↦ rw (absent, Queue.cancel) v
      | inr (r, e) ↦ elim (Bool-cases (is_queued r)) [
        | inl waiting ↦ rw (e, Queue.cancel) (rw waiting after)
        | inr other ↦ rw (e, Queue.cancel) (rw other v)
      ]
    ]

queued-inactive : (s : JobState) → state_eq s JobState.queued ≡ true → active_state s ≡ false
unfolding state_eq
queued-inactive s = ground arith

module _ (o : Option Text) where
  abbrev Kept : Server → Type 0
  Kept s = IsSound o (jobs s)

  joined :
      (jid : Text) (r : JobRecord) (s : Server) (q : Queue)
      → r.id ≡ jid
      → is_queued r ≡ true
      → enqueue r s.queue ≡ some q
      → Kept s
      → IsSound o q.jobs
  joined jid r s q named waiting e v =
      enqueue-IsSound o r s.queue q (queued-inactive r.state waiting) e v

  handle_bump-IsSound :
      (jid : Text) (s : Server) → IsSound o (jobs s) → IsSound o (jobs (handle_bump jid s).after)
  unfolding handle_bump
  handle_bump-IsSound jid s v = record {
    keyed = bump-IsKeyed jid (jobs s) v.keyed;
    owned = bump-IsOwned o jid (jobs s) v.owned;
  }

  cancel_queued-IsSound :
      (now jid : Text) (s : Server)
      → IsSound o (jobs s)
      → IsSound o (jobs (cancel_queued now jid s).after)
  unfolding cancel_queued
  cancel_queued-IsSound now jid s v = cancel-IsSound o jid now s.queue v

  delete_job-IsSound :
      (jid : Text) (s : Server) → IsSound o (jobs s) → IsSound o (jobs (delete_job jid s))
  unfolding delete_job
  delete_job-IsSound jid s v = delete-IsSound o jid (jobs s) v

  handle_release-IsSound :
      (lid now : Text) (s : Server)
      → IsSound o (jobs s)
      → IsSound o (jobs (handle_release lid now s).after)
  unfolding handle_release
  handle_release-IsSound lid now s v = elim (Bool-cases (holds lid s.lease_id)) [
    | inl mine ↦ rw mine v
    | inr other ↦ rw other v
  ]

  pub grant-IsSound :
      (lid now : Text) (req : Lease) (s : Server)
      → IsSound o (jobs s)
      → IsSound o (jobs (grant lid now req s).after)
  unfolding grant
  grant-IsSound lid now req s v =
      let lr : LeaseRecord = record {
        id = lid;
        reason = text_or_none req.reason;
        granted_at = some now;
        expires_at = none;
        released_at = none;
      } in
      elim (Option-cases (insert_lease lr s.leases)) [
        | inl duplicate ↦ rw (duplicate, grant) v
        | inr (leases, e) ↦ rw (e, grant) v
      ]

  -- No handler starts a job or touches the running one: the owner of the active rows stays.
  pub Client-IsSound : {s t : Server} → Client s t → IsSound o (jobs s) → IsSound o (jobs t)
  Client-IsSound {s} (Client.submit parse now jid stamp req e) v =
      rw e (
        handle_submit-keeps Kept jid (joined jid) (λ s h. h) (λ key s h. h) parse now stamp req s v)
  Client-IsSound {s} (Client.retry jid now req e) v =
      rw e (handle_retry-keeps Kept jid (joined jid) now req s v)
  Client-IsSound {s} (Client.bump jid e) v = rw e (handle_bump-IsSound jid s v)
  Client-IsSound {s} (Client.cancel now jid h e) v = rw e (cancel_queued-IsSound now jid s v)
  Client-IsSound {s} (Client.doctor w req e) v =
      rw e (
        handle_doctor-keeps Kept (λ jid now t h. deactivate-IsSound o jid now (jobs t) h) w req s v)
  Client-IsSound {s} (Client.prune cutoff req e) v =
      rw e (handle_prune-keeps Kept delete_job-IsSound cutoff req s v)
  Client-IsSound {s} (Client.release lid now e) v = rw e (handle_release-IsSound lid now s v)
  Client-IsSound {s} (Client.subscribe jid e) v = rw e v
  Client-IsSound {s} (Client.unsubscribe jid key e) v = rw e v
