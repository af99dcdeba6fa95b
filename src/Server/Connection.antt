-- ===== src/Server/Connection.antt =====
-- `_handle` and `_dispatch` of src/gpuq/daemon/server.py: one connection, from the line read to the
-- events sent. What the handlers take from outside is a record.
pub mod Answered
use gpuq.Common.{
  any, ◌||◌, ℕ, Bool, true, false, List, [], ◌∷◌, ◌++◌, Option, none, some, if◌then◌else◌,
}
use gpuq.Common.Text.{Text, text}
use gpuq.Logs.{JobLogs}
use gpuq.Queue.Runtime.{Parser}
use gpuq.Protocol.{Request, Lease, Event, Payload, Micros}
use gpuq.Protocol.Schema.{Instance}
use gpuq.Protocol.Codec.{JsonLib, Decoded, decoded, protocol_error, other_error, decode_request}
use gpuq.Protocol.Typed.{as_request}
use gpuq.Server.{Server, Outcome, answers}
use gpuq.Server.Inspect.{handle_ps, handle_show, handle_bump}
use gpuq.Server.Submit.{handle_submit, handle_retry}
use gpuq.Server.Attach.{handle_attach}
use gpuq.Server.Cancel.{Wait, Signalled, quiet, handle_cancel}
use gpuq.Server.Repair.{Surroundings, handle_doctor, handle_prune}
use gpuq.Server.Lease.{may_grant, grant, handle_release}

-- Readings of the clock, new ids, the log directories, what the waits see, the models that `evict()`
-- stops, the servers at the polls of a lease request's loop, and the server when its `evict()` returns. `untyped` is what the handlers do
-- with a request whose values have other types than declared; `crash` is the text of an exception.
pub record World : Type 0 where
  pub lib : JsonLib
  pub parse : Parser
  pub now : Micros
  pub stamp : Text
  pub job_id : Text
  pub lease_id : Text
  pub logs : Text → Option JobLogs
  pub first : Wait
  pub second : Wait
  pub surroundings : Surroundings
  pub cutoff : Micros → Text
  pub evicted : List Text
  pub lease_polls : List Server
  pub resumed : Server
  pub untyped : Instance → Server → Signalled
  pub crash : Text

-- The loop of `_handle_lease` ends at its first test or at a poll.
abbrev pub wait_ends : World → Server → Bool
wait_ends w s = may_grant s || any may_grant w.lease_polls

-- `_handle_lease`; while its loop goes on, it has sent and changed nothing.
unfoldable pub lease_after_wait : World → Lease → Server → Outcome
lease_after_wait w r s =
    if wait_ends w s
    then grant w.lease_id w.stamp r w.resumed
    else record { sent = []; after = s; raised = false }

unfoldable pub dispatch : World → Request → Server → Signalled
dispatch w (Request.submit r) s = quiet (handle_submit w.parse w.now w.job_id w.stamp r s)
dispatch w (Request.bump id) s = quiet (handle_bump id s)
dispatch w (Request.attach r) s = quiet (handle_attach (w.logs r.id) r s)
dispatch w (Request.ps r) s = quiet (handle_ps r s)
dispatch w (Request.show id) s = quiet (handle_show id s)
dispatch w (Request.cancel r) s = handle_cancel w.stamp r w.first w.second s
dispatch w (Request.doctor r) s = quiet (handle_doctor w.surroundings r s)
dispatch w (Request.retry r) s = quiet (handle_retry w.job_id w.stamp r s)
dispatch w (Request.prune r) s = quiet (handle_prune (w.cutoff r.older_than_s) r s)
dispatch w (Request.lease r) s = quiet (lease_after_wait w r s)
dispatch w (Request.release id) s = quiet (handle_release id w.stamp s)
dispatch w Request.evict_ollama s = quiet (answers s (Event.result (Payload.evicted w.evicted)))
dispatch w Request.restore_ollama s = quiet (answers s (Event.result (Payload.ok true)))

-- An error event after what was sent, if an exception left the handler.
unfoldable pub report : World → Signalled → Signalled
report w o =
    if o.outcome.raised
    then record o {
      outcome = record (o.outcome) {
        sent = o.outcome.sent ++ Event.error (text "server error: " ++ w.crash) ∷ [];
      };
    }
    else o

unfoldable pub handle_request : World → Request → Server → Signalled
handle_request w req s = report w (dispatch w req s)

unfoldable pub handle_decoded : World → Decoded → Server → Signalled
handle_decoded w (decoded i) s = elim (as_request i) [
  | none ↦ report w (w.untyped i s)
  | some req ↦ handle_request w req s
]
handle_decoded w (protocol_error message) s = quiet (answers s (Event.error message))
handle_decoded w other_error s = report w (quiet (record { sent = []; after = s; raised = true }))

-- An empty line is the end of the stream.
unfoldable pub handle : World → (line : Text) → Server → Signalled
handle w [] s = quiet (record { sent = []; after = s; raised = false })
handle w (c ∷ line) s = handle_decoded w (decode_request w.lib (c ∷ line)) s
