-- ===== src/Server/Connection/Answered.antt =====
-- How a client's frame reaches its handler, and which requests are answered.
use gpuq.Common.{
  ◌≡◌, ◌⊎◌, ◌≢◌, refl, ap, ◌∙◌, Bool, true, false, not, ◌||◌, List, [], ◌∷◌, ◌++◌, arith,
  Bool-cases, inl, inr,
}
use gpuq.Common.Text.{Text, text}
use gpuq.Protocol.{Request, Event, Cancel, Retry}
use gpuq.Protocol.Instances.{request_instance}
use gpuq.Protocol.Codec.{encode_request, decode_request}
use gpuq.Protocol.RoundTrip.{Restores, frame, decode-encode_request}
use gpuq.Protocol.Typed.Named.{IsNamed, as_request-request_instance}
use gpuq.Server.{Server, Outcome}
use gpuq.Server.Inspect.{handle_ps, handle_show, handle_bump}
use gpuq.Server.Submit.{handle_submit, handle_retry, retry_enqueue}
use gpuq.Server.Cancel.{Wait, quiet, handle_cancel, cancel_running, cancel_queued}
use gpuq.Server.Repair.{handle_doctor, handle_prune}
use gpuq.Server.Lease.{grant, handle_release}
use gpuq.Server.Connection.{
  World, wait_ends, lease_after_wait, dispatch, report, handle_request, handle_decoded, handle,
}

handle_nonempty :
    (w : World) (line : Text) (s : Server)
    → handle w (line ++ text "\n") s ≡ handle_decoded w (decode_request w.lib (line ++ text "\n")) s
unfolding handle
handle_nonempty w [] s = refl
handle_nonempty w (c ∷ line) s = refl

-- The line that a client encodes from a request is handled as that request, where json.loads restores
-- its frame and its names are those of their constructors.
pub handle-encode_request :
    (w : World) (req : Request) (s : Server)
    → Restores w.lib (frame (text "op") (request_instance req))
    → IsNamed req
    → handle w (encode_request w.lib (request_instance req)) s ≡ handle_request w req s
unfolding encode_request handle_decoded
handle-encode_request w req s restores named =
    let back = decode-encode_request w.lib req restores in
    handle_nonempty w _ s
    ∙ (ap (λ d. handle_decoded w d s) back
        ∙ rw (as_request-request_instance req named, handle_decoded) refl)

abbrev is_nil : List Event → Bool
is_nil [] = true
is_nil (ev ∷ evs) = false

-- Something was sent, or an exception is on its way.
abbrev answered : Outcome → Bool
answered o = o.raised || not (is_nil o.sent)

abbrev pub is_attach : Request → Bool
is_attach (Request.attach r) = true
is_attach _ = false

-- The loop of a lease request goes on.
abbrev pub still_waits : World → Request → Server → Bool
still_waits w (Request.lease r) s = not (wait_ends w s)
still_waits w _ s = false

handle_cancel-answered :
    (stamp : Text) (r : Cancel) (first second : Wait) (s : Server)
    → answered (handle_cancel stamp r first second s).outcome ≡ true
unfolding handle_cancel cancel_running cancel_queued
handle_cancel-answered stamp r first second s = ground arith

handle_retry-answered :
    (jid now : Text) (r : Retry) (s : Server) → answered (handle_retry jid now r s) ≡ true
unfolding handle_retry retry_enqueue
handle_retry-answered jid now r s = ground arith

dispatch-answered :
    (w : World) (req : Request) (s : Server)
    → is_attach req ≡ false
    → still_waits w req s ≡ false
    → answered (dispatch w req s).outcome ≡ true
unfolding dispatch handle_submit handle_bump handle_ps handle_show handle_doctor handle_prune grant
    handle_release lease_after_wait
dispatch-answered w (Request.submit r) s h over = ground arith
dispatch-answered w (Request.bump id) s h over = refl
dispatch-answered w (Request.attach r) s h over = cc
dispatch-answered w (Request.ps r) s h over = refl
dispatch-answered w (Request.show id) s h over = refl
dispatch-answered w (Request.cancel r) s h over =
    handle_cancel-answered w.stamp r w.first w.second s
dispatch-answered w (Request.doctor r) s h over = refl
dispatch-answered w (Request.retry r) s h over = handle_retry-answered w.job_id w.stamp r s
dispatch-answered w (Request.prune r) s h over = refl
dispatch-answered w (Request.lease r) s h over = elim (Bool-cases (wait_ends w s)) [
  | inl ends ↦ rw ends (ground arith)
  | inr waits ↦ cc
]
dispatch-answered w (Request.release id) s h over = ground arith
dispatch-answered w Request.evict_ollama s h over = refl
dispatch-answered w Request.restore_ollama s h over = refl

is_nil-ne : (evs : List Event) → is_nil evs ≡ false → evs ≢ []
is_nil-ne [] h = cc
is_nil-ne (ev ∷ evs) h = λ e. cc

append-ne-nil : (evs : List Event) (ev : Event) → evs ++ ev ∷ [] ≢ []
append-ne-nil [] ev e = cc
append-ne-nil (x ∷ evs) ev e = cc

still_waits-silent :
    (w : World) (req : Request) (s : Server)
    → still_waits w req s ≡ true
    → handle_request w req s ≡ quiet (record { sent = []; after = s; raised = false })
unfolding handle_request report dispatch lease_after_wait
still_waits-silent w (Request.lease r) s h =
    let waits : wait_ends w s ≡ false = ground (arith, h) in rw waits refl
still_waits-silent w (Request.submit r) s h = cc
still_waits-silent w (Request.bump id) s h = cc
still_waits-silent w (Request.attach r) s h = cc
still_waits-silent w (Request.ps r) s h = cc
still_waits-silent w (Request.show id) s h = cc
still_waits-silent w (Request.cancel r) s h = cc
still_waits-silent w (Request.doctor r) s h = cc
still_waits-silent w (Request.retry r) s h = cc
still_waits-silent w (Request.prune r) s h = cc
still_waits-silent w (Request.release id) s h = cc
still_waits-silent w Request.evict_ollama s h = cc
still_waits-silent w Request.restore_ollama s h = cc

over-answered :
    (w : World) (req : Request) (s : Server)
    → is_attach req ≡ false
    → still_waits w req s ≡ false
    → (handle_request w req s).outcome.sent ≢ []
unfolding handle_request report
over-answered w req s h over = elim (Bool-cases (dispatch w req s).outcome.raised) [
  | inl raised ↦ rw raised (append-ne-nil _ _)
  | inr calm ↦
      let sent : is_nil (dispatch w req s).outcome.sent ≡ false =
        ground (arith, dispatch-answered w req s h over, calm) in
      rw calm (is_nil-ne (dispatch w req s).outcome.sent sent)
]

-- Every request but an attachment is answered by an event, by its handler or, if an exception leaves
-- that, by an error event; but for a lease request that finds, at its arrival and at all its polls, a
-- job running or a lease held: it waits, and has sent and changed nothing.
pub handle_request-answered :
    (w : World) (req : Request) (s : Server)
    → is_attach req ≡ false
    → ((still_waits w req s ≡ false) × ((handle_request w req s).outcome.sent ≢ []))
      ⊎ ((still_waits w req s ≡ true)
          × (handle_request w req s ≡ quiet (record { sent = []; after = s; raised = false })))
handle_request-answered w req s h = elim (Bool-cases (still_waits w req s)) [
  | inl waits ↦ inr (waits, still_waits-silent w req s waits)
  | inr over ↦ inl (over, over-answered w req s h over)
]
