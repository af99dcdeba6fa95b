-- ===== src/Protocol/Verdict.antt =====
-- What decode_request of src/gpuq/protocol.py does with any line, right or wrong.
use gpuq.Common.{
  ◌≡◌, refl, ap, ◌∙◌, Bool, true, false, not, ◌||◌, List, [], ◌∷◌, Option, none, some, is_some, any,
  arith, Option-cases, inl, inr, if◌then◌else◌,
}
use gpuq.Common.Text.{Text, text, text_eq}
use gpuq.Protocol.Json.{Json, Fields, null, bool, int, float, str, arr, obj, get_field, select}
use gpuq.Protocol.Schema.{Class, Parameter, parameters, class_named, requests_by_op}
use gpuq.Protocol.Codec.{
  JsonLib, Decoded, decoded, protocol_error, other_error, construct, is_parameter, load, look_up,
  load_found, request_kwargs, decode_object_request, decode_request,
}
use gpuq.Protocol.WellFormed.{is_request, look_up-is_request}
use gpuq.Protocol.Fields.{get_field-select, get_field-request_kwargs, is_wire_key}

-- A request of a class, a ProtocolError, or another exception.
pub data Verdict : Type 0 where
  accepted : Class → Verdict
  refused raises : Verdict

abbrev pub verdict_of : Decoded → Verdict
verdict_of (decoded i) = accepted i.cls
verdict_of (protocol_error message) = refused
verdict_of other_error = raises

-- The keys that a frame must have.
abbrev pub required : Class → List Text
required Class.submit = text "cmd" ∷ text "cwd" ∷ []
required Class.bump = text "id" ∷ []
required Class.attach = text "id" ∷ []
required Class.show = text "id" ∷ []
required Class.cancel = text "id" ∷ []
required Class.retry = text "id" ∷ []
required Class.release = text "lease_id" ∷ []
required _ = []

abbrev pub lacks : Fields → Text → Bool
lacks fs k = not (is_some (get_field k fs))

-- A class of requests, with the frame.
abbrev pub verdict_on_class : Class → Fields → Verdict
verdict_on_class c fs = if any (lacks fs) (required c) then raises else accepted c

abbrev pub verdict_on_op : Option Json → Fields → Verdict
verdict_on_op (some (str name)) fs = elim (class_named name requests_by_op) [
  | none ↦ refused
  | some c ↦ verdict_on_class c fs
]
verdict_on_op (some (arr items)) fs = raises
verdict_on_op (some (obj o)) fs = raises
verdict_on_op _ fs = refused

abbrev pub verdict_on : Option Json → Verdict
verdict_on none = refused
verdict_on (some (obj fs)) = verdict_on_op (get_field (text "op") fs) fs
verdict_on (some _) = raises

-- A parameter without a default and without an argument.
abbrev lacking : Fields → Parameter → Bool
lacking kwargs (name, none) = lacks kwargs name
lacking kwargs (name, some v) = false

construct-lacking :
    (params : List Parameter) (kwargs : Fields)
    → is_some (construct params kwargs) ≡ not (any (lacking kwargs) params)
unfolding construct
construct-lacking [] kwargs = refl
construct-lacking ((name, none) ∷ params) kwargs = ground (arith, construct-lacking params kwargs)
construct-lacking ((name, some v) ∷ params) kwargs = ground (arith, construct-lacking params kwargs)

-- A field that has its own name in the frame.
taken :
    (c : Class) (fs : Fields) (name : Text)
    → is_parameter (parameters c) name ≡ true
    → is_wire_key name ≡ false
    → text_eq (text "from_") name || text_eq (text "next_") name ≡ false
    → lacks (select (is_parameter (parameters c)) (request_kwargs fs)) name ≡ lacks fs name
taken c fs name h plain same =
    ap (λ o. not (is_some o))
      (get_field-select name (is_parameter (parameters c)) (request_kwargs fs)
        ∙ ground (arith, h, same, get_field-request_kwargs name fs plain))

-- The required fields of the classes of requests.
any-lacking :
    (c : Class) (fs : Fields)
    → is_request c ≡ true
    → any (lacking (select (is_parameter (parameters c)) (request_kwargs fs))) (parameters c)
      ≡ any (lacks fs) (required c)
unfolding parameters is_parameter text_eq
any-lacking Class.submit fs r =
    rw (taken Class.submit fs (text "cmd") refl refl refl)
      (rw (taken Class.submit fs (text "cwd") refl refl refl) refl)
any-lacking Class.bump fs r = rw (taken Class.bump fs (text "id") refl refl refl) refl
any-lacking Class.attach fs r = rw (taken Class.attach fs (text "id") refl refl refl) refl
any-lacking Class.ps fs r = refl
any-lacking Class.show fs r = rw (taken Class.show fs (text "id") refl refl refl) refl
any-lacking Class.cancel fs r = rw (taken Class.cancel fs (text "id") refl refl refl) refl
any-lacking Class.doctor fs r = refl
any-lacking Class.retry fs r = rw (taken Class.retry fs (text "id") refl refl refl) refl
any-lacking Class.prune fs r = refl
any-lacking Class.lease fs r = refl
any-lacking Class.release fs r = rw (taken Class.release fs (text "lease_id") refl refl refl) refl
any-lacking Class.evict_ollama fs r = refl
any-lacking Class.restore_ollama fs r = refl
any-lacking Class.state_event fs r = cc
any-lacking Class.log_event fs r = cc
any-lacking Class.ollama_event fs r = cc
any-lacking Class.result_event fs r = cc
any-lacking Class.error_event fs r = cc

load-verdict :
    (c : Class) (fs : Fields)
    → is_request c ≡ true
    → verdict_of (load c (request_kwargs fs)) ≡ verdict_on_class c fs
unfolding load
load-verdict c fs r =
    let kwargs = select (is_parameter (parameters c)) (request_kwargs fs) in
    let lack = any-lacking c fs r in
    let made = construct-lacking (parameters c) kwargs in
    elim (Option-cases (construct (parameters c) kwargs)) [
      | inl missing ↦ rw (missing, load) (ground (arith, missing, lack, made))
      | inr (values, e) ↦ rw (e, load) (ground (arith, e, lack, made))
    ]

load_found-verdict :
    (op : Option Json) (message : Text) (fs : Fields)
    → verdict_of (load_found (look_up requests_by_op op) message (request_kwargs fs))
      ≡ verdict_on_op op fs
unfolding look_up
load_found-verdict none message fs = refl
load_found-verdict (some (str name)) message fs =
    elim (Option-cases (class_named name requests_by_op)) [
      | inl strange ↦ rw (strange, look_up, verdict_on_op) refl
      | inr (c, known) ↦
          let r = look_up-is_request (some (str name)) c (rw (known, look_up) refl) in
          rw (known, look_up, verdict_on_op) (load-verdict c fs r)
    ]
load_found-verdict (some (arr items)) message fs = refl
load_found-verdict (some (obj o)) message fs = refl
load_found-verdict (some null) message fs = refl
load_found-verdict (some (bool b)) message fs = refl
load_found-verdict (some (int n)) message fs = refl
load_found-verdict (some (float x)) message fs = refl

decode_object_request-verdict :
    (lib : JsonLib) (v : Json) → verdict_of (decode_object_request lib v) ≡ verdict_on (some v)
unfolding decode_object_request
decode_object_request-verdict lib (obj fs) = load_found-verdict (get_field (text "op") fs) _ fs
decode_object_request-verdict lib null = refl
decode_object_request-verdict lib (bool b) = refl
decode_object_request-verdict lib (int n) = refl
decode_object_request-verdict lib (float x) = refl
decode_object_request-verdict lib (str s) = refl
decode_object_request-verdict lib (arr items) = refl

-- Whatever line is decoded, with any JSON library: a line that is no JSON, or an object without a
-- known op, is refused with a ProtocolError; an object whose op is a list or an object, or that
-- lacks a required key of its op's class, and any other value, raises another exception; every
-- other line is accepted as an instance of its op's class.
pub decode_request_verdict :
    (lib : JsonLib) (line : Text)
    → verdict_of (decode_request lib line) ≡ verdict_on (lib.loads line)
unfolding decode_request
decode_request_verdict lib line = elim (Option-cases (lib.loads line)) [
  | inl bad ↦ rw (bad, decode_request) refl
  | inr (v, e) ↦ rw (e, decode_request) (decode_object_request-verdict lib v)
]
