-- ===== src/Client/Released.antt =====
-- A lease is acquired, and given back after the block.
use gpuq.Common.{◌≡◌, refl, ap, ◌∙◌, true, false, [], ◌∷◌, none, some, arith}
use gpuq.Common.Text.{Text, text, text_eq, text_eq_refl}
use gpuq.State.Leases.{get_lease, insert_lease}
use gpuq.Protocol.{Request, Event, Payload}
use gpuq.Protocol.Json.{get_field}
use gpuq.Protocol.Instances.{request_instance, event_instance, payload_fields}
use gpuq.Protocol.Codec.{decode_event}
use gpuq.Protocol.RoundTrip.{Restores, frame, decode-encode_event}
use gpuq.Server.{Server, Outcome}
use gpuq.Server.Cancel.{Signalled, quiet}
use gpuq.Server.Lease.{grant, handle_release}
use gpuq.Server.Connection.{
  World, wait_ends, lease_after_wait, dispatch, report, handle_request, handle,
}
use gpuq.Server.Connection.Answered.{handle-encode_request}
use gpuq.Client.{lease_request, lease_id_of, first_line, acquire, release, run_block, with_lease}

grant-answered :
    (w : World) (reason : Text)
    → get_lease w.lease_id w.resumed.leases ≡ none
    → ((grant w.lease_id w.stamp (lease_request reason) w.resumed).sent
        ≡ Event.result (Payload.granted w.lease_id w.stamp) ∷ [])
      × ((grant w.lease_id w.stamp (lease_request reason) w.resumed).raised ≡ false)
unfolding grant insert_lease
grant-answered w reason fresh = rw (fresh, grant) (refl, refl)

report-calm : (w : World) (o : Outcome) → o.raised ≡ false → report w (quiet o) ≡ quiet o
unfolding report
report-calm w o calm = rw calm refl

-- The server that has granted the lease.
abbrev pub granted : World → (reason : Text) → Server
granted w reason = (grant w.lease_id w.stamp (lease_request reason) w.resumed).after

module _ (w : World) (reason : Text) (s : Server) (over : wait_ends w s ≡ true)
    (fresh : get_lease w.lease_id w.resumed.leases ≡ none)
    (asks : Restores w.lib
      (frame (text "op") (request_instance (Request.lease (lease_request reason)))))
    (answers : Restores w.lib (
      frame
        (text "type")
        (event_instance (Event.result (Payload.granted w.lease_id w.stamp))))) where
  reply-lease_id :
      lease_id_of (
        decode_event w.lib
          (first_line w.lib (some (Event.result (Payload.granted w.lease_id w.stamp)))))
      ≡ some w.lease_id
  unfolding lease_id_of event_instance payload_fields get_field text_eq
  reply-lease_id =
      ap lease_id_of
        (decode-encode_event w.lib (Event.result (Payload.granted w.lease_id w.stamp)) answers)

  handle_request-lease :
      handle_request w (Request.lease (lease_request reason)) s
      ≡ report w (quiet (grant w.lease_id w.stamp (lease_request reason) w.resumed))
  unfolding handle_request dispatch lease_after_wait
  handle_request-lease = rw over refl

  acquire-granted : acquire w reason s ≡ (some w.lease_id, granted w reason)
  unfolding acquire
  acquire-granted =
      let o = grant w.lease_id w.stamp (lease_request reason) w.resumed in
      let (sent, calm) = grant-answered w reason fresh in
      let handled : handle w _ s ≡ quiet o =
        handle-encode_request w (Request.lease (lease_request reason)) s asks tt
        ∙ (handle_request-lease ∙ report-calm w o calm) in
      rw handled (rw sent (rw reply-lease_id refl))

handle_release-calm : (lid now : Text) (s : Server) → (handle_release lid now s).raised ≡ false
unfolding handle_release
handle_release-calm lid now s = ground arith

release-handled :
    (w : World) (lid : Text) (s : Server)
    → Restores w.lib (frame (text "op") (request_instance (Request.release lid)))
    → release w lid s ≡ (handle_release lid w.stamp s).after
unfolding release handle_request dispatch
release-handled w lid s asks =
    ap (λ (o : Signalled). o.outcome.after)
      (handle-encode_request w (Request.release lid) s asks tt)
    ∙ ap (λ (o : Signalled). o.outcome.after)
        (report-calm w (handle_release lid w.stamp s) (handle_release-calm lid w.stamp s))

handle_release-held :
    (lid now : Text) (s : Server)
    → s.lease_id ≡ some lid
    → let after = (handle_release lid now s).after in
      (after.lease_held ≡ false) × (after.lease_id ≡ none) × (after.queue.notify ≡ true)
unfolding handle_release
handle_release-held lid now s held = rw held (rw (text_eq_refl lid) (refl, refl, refl))

granted-held :
    (w : World) (reason : Text)
    → get_lease w.lease_id w.resumed.leases ≡ none
    → (granted w reason).lease_held ≡ true
unfolding grant insert_lease
granted-held w reason fresh = rw (fresh, granted, grant) refl

-- The with-block of lease.py, over the wire: where the loop of the lease request ends, at once or
-- at a poll, the lease's id is new and json.loads restores the three frames, the block runs on the
-- server that granted the lease; if that lease is still the one held when the block ends, then
-- after it no lease is held and the scheduler is woken.
pub with_lease_releases :
    (w v : World) (reason : Text) (body : Text → Server → Server) (s : Server)
    → wait_ends w s ≡ true
    → get_lease w.lease_id w.resumed.leases ≡ none
    → Restores w.lib (frame (text "op") (request_instance (Request.lease (lease_request reason))))
    → Restores w.lib
        (frame (text "type") (event_instance (Event.result (Payload.granted w.lease_id w.stamp))))
    → Restores v.lib (frame (text "op") (request_instance (Request.release w.lease_id)))
    → (body w.lease_id (granted w reason)).lease_id ≡ some w.lease_id
    → let (ran, after) = with_lease w v reason body s in
      (ran ≡ true)
      × ((granted w reason).lease_held ≡ true)
      × (after.lease_held ≡ false)
      × (after.lease_id ≡ none)
      × (after.queue.notify ≡ true)
unfolding with_lease run_block
with_lease_releases w v reason body s over fresh asks replies releases held =
    let after = (handle_release w.lease_id v.stamp (body w.lease_id (granted w reason))).after in
    let run : with_lease w v reason body s ≡ (true, after) =
      ap (run_block v body) (acquire-granted w reason s over fresh asks replies)
      ∙ ap (λ (t : Server). (true, t))
          (release-handled v w.lease_id (body w.lease_id (granted w reason)) releases) in
    let given_back =
      handle_release-held w.lease_id v.stamp (body w.lease_id (granted w reason)) held in
    rw run (refl, granted-held w reason fresh, given_back.0, given_back.1, given_back.2)
