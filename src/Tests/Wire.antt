-- ===== src/Tests/Wire.antt =====
-- The properties of the protocol and of connections, applied at the samples. The JSON library of the
-- samples writes an object as its first key, and knows two frames.
use gpuq.Common.{◌⊎◌, ℕ}
use gpuq.Runner.{process}
use gpuq.Common.{◌∷◌, map, false, arith, ◌≡◌, ◌≢◌, refl, true, false, [], some, none, if◌then◌else◌}
use gpuq.Common.Text.{Text, text, text_eq}
use gpuq.Common.Int.{pos}
use gpuq.State.Leases.{insert_lease}
use gpuq.Server.Inspect.{handle_bump}
use gpuq.Server.Lease.{grant}
use gpuq.Protocol.{Request, Event, Payload, Stream}
use gpuq.Protocol.Json.{Json, obj, field, str, null, end, get_field}
use gpuq.Protocol.Instances.{request_instance, event_instance}
use gpuq.Protocol.Codec.{JsonLib, encode_request, decode_request}
use gpuq.Protocol.RoundTrip.{frame, decode-encode_request}
use gpuq.Protocol.WellFormed.{is_request}
use gpuq.Protocol.Filled.{HoldsGiven, decode_request_values}
use gpuq.Protocol.Verdict.{verdict_of, verdict_on, raises, decode_request_verdict}
use gpuq.Protocol.Schema.{class_named}
use gpuq.Server.{Server}
use gpuq.Server.Cancel.{Wait, quiet}
use gpuq.Server.Connection.{World, handle, handle_request}
use gpuq.Server.Connection.Answered.{handle-encode_request, handle_request-answered, still_waits}
use gpuq.Cli.Wire.{sent_text, IsSent, recv_all, recv_all-send_event}
use gpuq.Logs.{Entry}
use gpuq.Logs.Index.{
  entry_json, IsLine, read_index, index_text, entry_values, read_index-index_text,
}
use gpuq.Client.{lease_request, with_lease}
use gpuq.Client.Released.{granted, with_lease_releases}
use gpuq.Tests.Samples.{program, server, plain, now, examiner}

abbrev first_key : Json → Text
first_key (obj (field k v fs)) = k
first_key _ = []

abbrev library : (request event : Json) → JsonLib
library req ev = record {
  dumps = first_key;
  loads = λ s. if text_eq s (text "op\n") then some req else some ev;
  repr = λ v. [];
  decode_error = λ s. [];
}

abbrev submission : Request
submission = Request.submit plain

abbrev finished : Event
finished = Event.result (Payload.granted (text "l_1") now)

abbrev lib : JsonLib
lib =
    library (frame (text "op") (request_instance submission))
      (frame (text "type") (event_instance finished))

abbrev unseen : Wait
unseen = record { runner = process none; polls = []; last = server }

abbrev world : World
world = record {
  lib = lib;
  parse = λ s. none;
  now = pos 0;
  stamp = now;
  job_id = text "j_z";
  lease_id = text "l_1";
  logs = λ jid. none;
  first = unseen;
  second = unseen;
  surroundings = examiner;
  cutoff = λ x. now;
  evicted = [];
  lease_polls = [];
  resumed = server;
  untyped = λ i s. quiet (record { sent = []; after = s; raised = true });
  crash = text "TypeError";
}

handle-encode_request_example :
    handle world (encode_request lib (request_instance submission)) server
    ≡ handle_request world submission server
unfolding text_eq
handle-encode_request_example = handle-encode_request world submission server refl tt

handle_request-answered_example :
    ((still_waits world submission server ≡ false)
      × ((handle_request world submission server).outcome.sent ≢ []))
    ⊎ ((still_waits world submission server ≡ true)
        × (handle_request world submission server
            ≡ quiet (record { sent = []; after = server; raised = false })))
handle_request-answered_example = handle_request-answered world submission server refl

abbrev asking : World
asking = record world {
  lib =
      library (frame (text "op") (request_instance (Request.lease (lease_request (text "chat")))))
        (frame (text "type") (event_instance finished));
}

abbrev returning : World
returning = record world {
  lib =
      library (frame (text "op") (request_instance (Request.release (text "l_1"))))
        (frame (text "type") (event_instance finished));
}

-- While the block runs, another client moves a job to the front.
abbrev reorder : Text → Server → Server
reorder lid s = (handle_bump (text "j_c") s).after

with_lease_releases_example :
    let (ran, after) = with_lease asking returning (text "chat") reorder server in
    (ran ≡ true)
    × ((granted asking (text "chat")).lease_held ≡ true)
    × (after.lease_held ≡ false)
    × (after.lease_id ≡ none)
    × (after.queue.notify ≡ true)
unfolding program handle_bump grant insert_lease
with_lease_releases_example =
    with_lease_releases asking returning (text "chat") reorder server refl refl refl refl refl refl

-- A frame without the required key `cwd`.
abbrev short_frame : Json
short_frame = obj (field (text "op") (str (text "submit")) (field (text "cmd") null end))

decode_request_values_example :
    (is_request (request_instance submission).cls ≡ true)
    × ((v : Json) × (lib.loads (text "op\n") ≡ some v) × HoldsGiven (request_instance submission) v)
unfolding text_eq encode_request
decode_request_values_example =
    decode_request_values lib (text "op\n") (request_instance submission)
      (decode-encode_request lib submission refl)

decode_request_verdict_example :
    verdict_of (decode_request (library short_frame null) (text "op\n"))
    ≡ verdict_on ((library short_frame null).loads (text "op\n"))
decode_request_verdict_example = decode_request_verdict (library short_frame null) (text "op\n")

-- It raises.
short_frame_raises : verdict_on (some short_frame) ≡ raises
unfolding text_eq get_field class_named
short_frame_raises = refl

-- asyncio's default limit.
abbrev limit : ℕ
limit = 65536

finished-IsSent : IsSent lib limit finished
unfolding text_eq
finished-IsSent = record {
  one_line = (refl, (refl, (refl, (refl, tt))));
  short = omega arith;
  restored = refl;
}

recv_all-send_event_example :
    recv_all lib limit (sent_text lib (finished ∷ [])) ≡ (map event_instance (finished ∷ []), false)
recv_all-send_event_example = recv_all-send_event lib limit (finished ∷ []) (finished-IsSent, tt)

abbrev printed : Entry
printed = (Stream.stdout, text "one\n")

abbrev records : JsonLib
records = record lib { dumps = λ v. text "{}"; loads = λ s. some (entry_json printed) }

printed-IsLine : IsLine records printed
printed-IsLine = record { one_line = ground arith; restored = refl }

read_index-index_text_example :
    read_index records (index_text records (printed ∷ printed ∷ []))
    ≡ some (map entry_values (printed ∷ printed ∷ []))
read_index-index_text_example =
    read_index-index_text records (printed ∷ printed ∷ []) (printed-IsLine, (printed-IsLine, tt))
