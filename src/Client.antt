-- ===== src/Client.antt =====
-- src/gpuq/lease.py: a lease on the GPU for a block of the caller's code. A request and its answer
-- pass as lines through the daemon's `_handle`, Server/Connection.
pub mod Released
use gpuq.Common.{◌>>=◌, Bool, true, false, List, [], Option, none, some, head?}
use gpuq.Common.Text.{Text, text}
use gpuq.Common.Int.{pos}
use gpuq.Protocol.{Request, Lease, Event}
use gpuq.Protocol.Json.{Json, obj, get_field}
use gpuq.Protocol.Schema.{Class, Instance}
use gpuq.Protocol.Codec.{
  JsonLib, Decoded, decoded, protocol_error, other_error, encode_request, encode_event,
  decode_event,
}
use gpuq.Protocol.Instances.{request_instance, event_instance}
use gpuq.Protocol.Typed.{as_text}
use gpuq.Server.{Server}
use gpuq.Server.Connection.{World, handle}

-- `Lease(reason=reason)`: the other fields have their defaults.
abbrev pub lease_request : (reason : Text) → Lease
lease_request reason = record { duration = []; reason = reason; priority = pos 0 }

-- The line that is read: that of the first event, or the empty one at the end of the stream.
abbrev pub first_line : JsonLib → Option Event → Text
first_line lib none = []
first_line lib (some ev) = encode_event lib (event_instance ev)

abbrev pub as_object : Json → Option Json
as_object (obj fs) = get_field (text "lease_id") fs
as_object _ = none

-- `ev.payload["lease_id"]` of a ResultEvent; `none` is the exception that another event raises.
unfoldable pub lease_id_of : Decoded → Option Text
lease_id_of (decoded i) = elim (i.cls) [
  | Class.result_event ↦ get_field (text "payload") i.values >>= as_object >>= as_text
  | _ ↦ none
]
lease_id_of (protocol_error message) = none
lease_id_of other_error = none

-- The id of the lease, and the server that has granted it.
unfoldable pub acquire : World → (reason : Text) → Server → Option Text × Server
acquire w reason s =
    let line = encode_request w.lib (request_instance (Request.lease (lease_request reason))) in
    let o = (handle w line s).outcome in
    (lease_id_of (decode_event w.lib (first_line w.lib (head? o.sent))), o.after)

-- The answer is read and not looked at.
unfoldable pub release : World → (lid : Text) → Server → Server
release w lid s =
    (handle w (encode_request w.lib (request_instance (Request.release lid))) s).outcome.after

-- The `try` and its `finally`. `body` is what happens to the daemon while the block runs, however that
-- ends; the Boolean says whether it ran.
unfoldable pub run_block :
    World → (body : Text → Server → Server) → Option Text × Server → Bool × Server
run_block w body (none, s) = (false, s)
run_block w body (some lid, s) = (true, release w lid (body lid s))

-- `with lease(reason):`. `first` and `second` are what the two requests meet.
unfoldable pub with_lease :
    (first second : World)
    → (reason : Text) → (body : Text → Server → Server) → Server
    → Bool × Server
with_lease first second reason body s = run_block second body (acquire first reason s)
