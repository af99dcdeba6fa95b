-- ===== src/Server/Attach/Silent.antt =====
-- A job that has ended and a queue to which nothing was put, under the handlers of
-- src/gpuq/daemon/server.py.
use gpuq.Common.{
  ℕ, ◌≡◌, refl, ap, ◌∙◌, Bool, true, false, not, ◌&&◌, [], Option, Option-cases, none, some, arith,
  Bool-cases, inl, inr, ◌==◌,
}
use gpuq.Common.Text.{Text, text_eq}
use gpuq.State.{JobRecord}
use gpuq.State.Jobs.{get, is_queued, update_state}
use gpuq.State.Over.{
  IsOver, insert_job-IsOver, update_end-IsOver, bump-IsOver, delete-IsOver, waits_other,
}
use gpuq.Queue
use gpuq.Queue.{Queue, enqueue, start_change, cancel_change}
use gpuq.Queue.Fifo.{waits}
use gpuq.Bus
use gpuq.Bus.{Bus, subscribe, unsubscribe}
use gpuq.Bus.Queues.{queue_of, queue_of-put_all, queue_of-append, queue_of-unsubscribe}
use gpuq.Protocol.{Event}
use gpuq.Server.{Server, jobs, lost_change, with_jobs}
use gpuq.Server.Inspect.{handle_bump}
use gpuq.Server.Cancel.{cancel_queued}
use gpuq.Server.Repair.{delete_job}
use gpuq.Server.Lease.{holds, handle_release}
use gpuq.Server.Sound.{enqueue-jobs}
use gpuq.Server.Repair.Kept.{handle_doctor-keeps, handle_prune-keeps}
use gpuq.Server.Submit.Kept.{handle_submit-keeps, handle_retry-keeps}
use gpuq.Server.Schedule.{Client}

-- The job has ended, and nothing was put into the queue of the subscription with this key.
pub record IsSilent (j : Text) (key : ℕ) (s : Server) : Type 0 where
  pub over : IsOver j (jobs s)
  pub silent : queue_of j key s.bus.subs ≡ some []

-- The client's step is no submission or retry under the job's id, and does not end the subscription.
abbrev pub spares_client : (j : Text) (key : ℕ) {s t : Server} → Client s t → Bool
spares_client j key (Client.submit parse now jid stamp req e) = not (text_eq jid j)
spares_client j key (Client.retry jid now req e) = not (text_eq jid j)
spares_client j key (Client.unsubscribe jid k e) = not (text_eq jid j && (k == key))
spares_client j key _ = true

module _ (j : Text) (key : ℕ) where
  enqueue-IsOver :
      (r : JobRecord) (q q' : Queue)
      → text_eq r.id j ≡ false
      → enqueue r q ≡ some q'
      → IsOver j q.jobs
      → IsOver j q'.jobs
  enqueue-IsOver r q q' h e v = insert_job-IsOver j r q.jobs q'.jobs h (enqueue-jobs r q q' e) v

  -- Something is published about another job, or its subscriptions are closed.
  pub publish-silent :
      (jid : Text) (item : Option Event) (b : Bus)
      → text_eq jid j ≡ false
      → queue_of j key b.subs ≡ some []
      → queue_of j key (Bus.put_all jid item b.subs) ≡ some []
  publish-silent jid item b h v = queue_of-put_all jid j key item b.subs h ∙ v

  -- The last event about another job, and the end mark.
  pub close-silent :
      (jid : Text) (ev : Event) (b : Bus)
      → text_eq jid j ≡ false
      → queue_of j key b.subs ≡ some []
      → queue_of j key (Bus.close jid (Bus.publish jid ev b)).subs ≡ some []
  unfolding Bus.close Bus.publish
  close-silent jid ev b h v =
      publish-silent jid none (record b { subs = Bus.put_all jid (some ev) b.subs }) h
        (publish-silent jid (some ev) b h v)

  joined :
      (jid : Text)
      → text_eq jid j ≡ false
      → (r : JobRecord) (s : Server) (q : Queue) → r.id ≡ jid
      → is_queued r ≡ true
      → enqueue r s.queue ≡ some q
      → IsSilent j key s
      → IsSilent j key (record s { queue = q })
  joined jid h r s q named waiting e v = record {
    over = enqueue-IsOver r s.queue q (ap (λ k. text_eq k j) named ∙ h) e v.over;
    silent = v.silent;
  }

  subscribed :
      (jid : Text) (s : Server)
      → IsSilent j key s
      → IsSilent j key (record s { bus = (subscribe jid s.bus).1 })
  unfolding subscribe
  subscribed jid s v = record {
    over = v.over;
    silent = queue_of-append j key s.bus.subs _ v.silent;
  }

  unsubscribed :
      (jid : Text)
      → text_eq jid j ≡ false
      → (k : ℕ) (s : Server) → IsSilent j key s
      → IsSilent j key (record s { bus = unsubscribe jid k s.bus })
  unfolding unsubscribe
  unsubscribed jid h k s v = record {
    over = v.over;
    silent = queue_of-unsubscribe jid j k key s.bus.subs (ground (arith, h)) ∙ v.silent;
  }

  other_id : (jid : Text) → not (text_eq jid j) ≡ true → text_eq jid j ≡ false
  other_id jid h = ground (arith, h)

  cancel-IsOver :
      (now jid : Text) (q : Queue) → IsOver j q.jobs → IsOver j (Queue.cancel jid now q).1.jobs
  unfolding Queue.cancel
  cancel-IsOver now jid q v =
      let after = update_end-IsOver j jid (cancel_change now) q.jobs refl v in
      elim (Option-cases (get jid q.jobs)) [
        | inl absent ↦ rw (absent, Queue.cancel) v
        | inr (r, e) ↦ elim (Bool-cases (is_queued r)) [
          | inl waiting ↦ rw (e, Queue.cancel) (rw waiting after)
          | inr other ↦ rw (e, Queue.cancel) (rw other v)
        ]
      ]

  cancel_queued-IsSilent :
      (now jid : Text) (s : Server)
      → waits jid (jobs s) ≡ true
      → IsSilent j key s
      → IsSilent j key (cancel_queued now jid s).after
  unfolding cancel_queued
  cancel_queued-IsSilent now jid s h v =
      let other = waits_other j jid (jobs s) h v.over in
      record {
        over = cancel-IsOver now jid s.queue v.over;
        silent = close-silent jid _ s.bus other v.silent;
      }

  fail-IsSilent :
      (jid now : Text) (s : Server)
      → IsSilent j key s
      → IsSilent j key (with_jobs s (update_state jid (lost_change now) (jobs s)))
  fail-IsSilent jid now s v = record {
    over = update_end-IsOver j jid (lost_change now) (jobs s) refl v.over;
    silent = v.silent;
  }

  delete_job-IsSilent :
      (jid : Text) (s : Server) → IsSilent j key s → IsSilent j key (delete_job jid s)
  unfolding delete_job
  delete_job-IsSilent jid s v = record {
    over = delete-IsOver j jid (jobs s) v.over;
    silent = v.silent;
  }

  handle_release-IsSilent :
      (lid now : Text) (s : Server)
      → IsSilent j key s
      → IsSilent j key (handle_release lid now s).after
  unfolding handle_release
  handle_release-IsSilent lid now s v = elim (Bool-cases (holds lid s.lease_id)) [
    | inl mine ↦ rw mine (record { over = v.over; silent = v.silent })
    | inr other ↦ rw other v
  ]

  pub Client-IsSilent :
      {s t : Server} (c : Client s t)
      → spares_client j key c ≡ true
      → IsSilent j key s
      → IsSilent j key t
  Client-IsSilent {s} (Client.submit parse now jid stamp req e) h v =
      (let other = other_id jid h in
        rw e (
          handle_submit-keeps (IsSilent j key) jid (joined jid other) (subscribed jid)
            (unsubscribed jid other) parse now stamp req s v))
  Client-IsSilent {s} (Client.retry jid now req e) h v =
      rw e (handle_retry-keeps (IsSilent j key) jid (joined jid (other_id jid h)) now req s v)
  Client-IsSilent {s} (Client.bump jid e) h v =
      rw e (
        unfold handle_bump in
        record { over = bump-IsOver j jid (jobs s) v.over; silent = v.silent })
  Client-IsSilent {s} (Client.cancel now jid q e) h v = rw e (cancel_queued-IsSilent now jid s q v)
  Client-IsSilent {s} (Client.doctor w req e) h v =
      rw e (handle_doctor-keeps (IsSilent j key) fail-IsSilent w req s v)
  Client-IsSilent {s} (Client.prune cutoff req e) h v =
      rw e (handle_prune-keeps (IsSilent j key) delete_job-IsSilent cutoff req s v)
  Client-IsSilent {s} (Client.release lid now e) h v = rw e (handle_release-IsSilent lid now s v)
  Client-IsSilent {s} (Client.subscribe jid e) h v = rw e (
      unfold subscribe in
      record { over = v.over; silent = queue_of-append j key s.bus.subs _ v.silent })
  Client-IsSilent {s} (Client.unsubscribe jid k e) h v = rw e (
      unfold unsubscribe in
      record {
        over = v.over;
        silent = queue_of-unsubscribe jid j k key s.bus.subs (ground (arith, h)) ∙ v.silent;
      })
