-- ===== src/Server/Submit/Kept.antt =====
-- What `_handle_submit` and `_handle_retry` of src/gpuq/daemon/server.py keep: whatever an enqueue of
-- the new job and the subscriptions to it keep.
use gpuq.State.{state_name}
use gpuq.Common.{
  ℕ, ◌≡◌, refl, Bool, true, false, ◌++◌, some, Option-cases, Bool-cases, inl, inr, if◌then◌else◌,
}
use gpuq.Common.Text.{Text, text}
use gpuq.State.{state_eq, JobRecord}
use gpuq.State.Jobs.{get, is_queued}
use gpuq.Queue.{Queue, enqueue}
use gpuq.Queue.Runtime.{Parser}
use gpuq.Bus.{subscribe, unsubscribe}
use gpuq.Protocol.{Micros, Submit, Retry, Event, Payload}
use gpuq.Server.{Server, jobs, answers}
use gpuq.Server.Submit.{
  handle_submit, submit_record, handle_retry, retry_enqueue, retry_record, retry_allowed,
}

module _ {κ} (P : Server → Type κ) (jid : Text)
    (enqueues : (r : JobRecord) (s : Server) (q : Queue)
      → r.id ≡ jid
      → is_queued r ≡ true
      → enqueue r s.queue ≡ some q
      → P s
      → P (record s { queue = q })) where
  retry_enqueue-keeps :
      (r : JobRecord) (s : Server)
      → r.id ≡ jid
      → is_queued r ≡ true
      → P s
      → P (retry_enqueue jid r s).after
  unfolding retry_enqueue
  retry_enqueue-keeps r s named waiting h = elim (Option-cases (enqueue r s.queue)) [
    | inl duplicate ↦ rw (duplicate, retry_enqueue) h
    | inr (q, e) ↦ rw (e, retry_enqueue) (enqueues r s q named waiting e h)
  ]

  pub handle_retry-keeps :
      (now : Text) (req : Retry) (s : Server) → P s → P (handle_retry jid now req s).after
  unfolding handle_retry retry_record state_eq
  handle_retry-keeps now req s h = elim (Option-cases (get req.id (jobs s))) [
    | inl absent ↦ rw (absent, handle_retry) h
    | inr (r, e) ↦ rw (e, handle_retry) (split r (retry_allowed req.force r.state))
  ]
    where
      split :
          (r : JobRecord) (allowed : Bool)
          → P
              (if allowed
                then retry_enqueue jid (retry_record jid now r) s
                else answers s
                    (Event.result (Payload.refused (text "state=" ++ state_name r.state)))).after
      split r true = retry_enqueue-keeps (retry_record jid now r) s refl refl h
      split r false = h

  module _ (subscribes : (s : Server) → P s → P (record s { bus = (subscribe jid s.bus).1 }))
      (unsubscribes : (key : ℕ) (s : Server)
        → P s
        → P (record s { bus = unsubscribe jid key s.bus })) where
    pub handle_submit-keeps :
        (parse : Parser) (now : Micros) (stamp : Text) (req : Submit) (s : Server)
        → P s
        → P (handle_submit parse now jid stamp req s).after
    unfolding handle_submit submit_record state_eq
    handle_submit-keeps parse now stamp req s h =
        let rec = submit_record jid stamp req (jobs s) in
        let listening : Server = record s { bus = (subscribe jid s.bus).1 } in
        let heard = subscribes s h in
        elim (Option-cases (enqueue rec s.queue)) [
          | inl duplicate ↦ rw (duplicate, handle_submit) heard
          | inr (q, e) ↦
              let joined = enqueues rec listening q refl refl e heard in
              elim (Bool-cases req.detach) [
                | inl detached ↦
                    rw (e, handle_submit)
                      (rw detached (
                        unsubscribes (subscribe jid s.bus).0 (record listening { queue = q })
                          joined))
                | inr streaming ↦ rw (e, handle_submit) (rw streaming joined)
              ]
        ]
