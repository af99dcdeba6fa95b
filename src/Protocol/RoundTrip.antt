-- ===== src/Protocol/RoundTrip.antt =====
-- What is encoded decodes to itself, and what else a line may decode to.
use gpuq.Common.{◌≡◌, refl, ◌++◌, some}
use gpuq.Common.Text.{Text, text, text_eq}
use gpuq.Protocol.{Request, Event}
use gpuq.Protocol.Json.{Json, field, str, obj, get_field, set_field, select, rename_keys}
use gpuq.Protocol.Schema.{parameters, class_named, name_of, Instance}
use gpuq.Protocol.Instances.{request_instance, event_instance}
use gpuq.Protocol.Codec.{
  JsonLib, decoded, dump, encode_request, decode_request, decode_object_request, encode_event,
  decode_event, decode_object_event, wire_name, construct, is_parameter, load, look_up, move_field,
  without_key, request_kwargs,
}

-- json.loads gives back what json.dumps was given, with the newline behind it.
abbrev pub Restores : JsonLib → Json → Type 0
Restores lib v = lib.loads (lib.dumps v ++ text "\n") ≡ some v

-- The frame of an instance: its name under the key, and its fields.
abbrev pub frame : Text → Instance → Json
frame key i = obj (field key (str (name_of i.cls)) (dump i))

decode_object_request_lem :
    (lib : JsonLib) (req : Request)
    → decode_object_request lib (frame (text "op") (request_instance req))
      ≡ decoded (request_instance req)
unfolding decode_object_request request_instance dump name_of rename_keys wire_name look_up
    class_named get_field request_kwargs move_field without_key set_field select load construct
    parameters is_parameter text_eq
decode_object_request_lem lib (Request.submit r) = refl
decode_object_request_lem lib (Request.bump id) = refl
decode_object_request_lem lib (Request.attach r) = refl
decode_object_request_lem lib (Request.ps r) = refl
decode_object_request_lem lib (Request.show id) = refl
decode_object_request_lem lib (Request.cancel r) = refl
decode_object_request_lem lib (Request.doctor r) = refl
decode_object_request_lem lib (Request.retry r) = refl
decode_object_request_lem lib (Request.prune r) = refl
decode_object_request_lem lib (Request.lease r) = refl
decode_object_request_lem lib (Request.release id) = refl
decode_object_request_lem lib Request.evict_ollama = refl
decode_object_request_lem lib Request.restore_ollama = refl

-- A request of any kind decodes from its encoding to the same class with the same values, where
-- json.loads restores its frame.
pub decode-encode_request :
    (lib : JsonLib) (req : Request)
    → Restores lib (frame (text "op") (request_instance req))
    → decode_request lib (encode_request lib (request_instance req))
      ≡ decoded (request_instance req)
unfolding encode_request decode_request
decode-encode_request lib req h = rw (h, decode_request) (decode_object_request_lem lib req)

decode_object_event_lem :
    (lib : JsonLib) (ev : Event)
    → decode_object_event lib (frame (text "type") (event_instance ev))
      ≡ decoded (event_instance ev)
unfolding decode_object_event event_instance dump name_of rename_keys wire_name look_up class_named
    get_field without_key select load construct parameters is_parameter text_eq
decode_object_event_lem lib (Event.state ev) = refl
decode_object_event_lem lib (Event.log id stream line) = refl
decode_object_event_lem lib (Event.ollama action models) = refl
decode_object_event_lem lib (Event.result payload) = refl
decode_object_event_lem lib (Event.error message) = refl

-- An event of any kind decodes from its encoding to the same class with the same values, where
-- json.loads restores its frame.
pub decode-encode_event :
    (lib : JsonLib) (ev : Event)
    → Restores lib (frame (text "type") (event_instance ev))
    → decode_event lib (encode_event lib (event_instance ev)) ≡ decoded (event_instance ev)
unfolding encode_event decode_event
decode-encode_event lib ev h = rw (h, decode_event) (decode_object_event_lem lib ev)
