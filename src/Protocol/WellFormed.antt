-- ===== src/Protocol/WellFormed.antt =====
-- What a decoded instance holds, whatever the line was.
use mathlib.Core.Path.{subst}
use gpuq.Common.{All}
use gpuq.Common.{
  ◌≡◌, refl, sym, ◌∙◌, Bool, true, false, List, [], ◌∷◌, map, Option, none, some, arith,
  Option-cases, inl, inr,
}
use gpuq.Common.Text.{Text, text}
use gpuq.Protocol.Json.{
  Json, Fields, end, field, null, bool, int, float, str, arr, obj, get_field, select,
}
use gpuq.Protocol.Schema.{
  Class, Parameter, parameters, Instance, Names, class_named, requests_by_op,
}
use gpuq.Protocol.Codec.{
  JsonLib, decoded, other_error, Found, found, unknown, unhashable, construct, is_parameter, load,
  look_up, load_found, decode_object_request, decode_request,
}

abbrev pub keys : Fields → List Text
keys end = []
keys (field k v fs) = k ∷ keys fs

abbrev pub parameter_names : Class → List Text
parameter_names cls = map (λ (p : Parameter). p.0) (parameters cls)

-- The classes of the table of ops.
abbrev pub is_request : Class → Bool
is_request Class.state_event = false
is_request Class.log_event = false
is_request Class.ollama_event = false
is_request Class.result_event = false
is_request Class.error_event = false
is_request _ = true

-- A class of requests, with a value for each of its fields and no other, in their order.
pub record IsRequest (i : Instance) : Type 0 where
  pub request : is_request i.cls ≡ true
  pub fields : keys i.values ≡ parameter_names i.cls

construct-keys :
    (params : List Parameter) (kwargs values : Fields)
    → construct params kwargs ≡ some values
    → keys values ≡ map (λ (p : Parameter). p.0) params
unfolding construct
construct-keys [] kwargs values h = cc
construct-keys ((name, default) ∷ params) kwargs values h =
    elim (Option-cases (construct params kwargs)) [
      | inl missing ↦ ground (arith, missing, h)
      | inr (rest, e) ↦ ground (arith, e, h, construct-keys params kwargs rest e)
    ]

class_named-All :
    (name : Text) (names : Names) {c : Class}
    → All (λ (n : Text × Class). is_request n.1 ≡ true) names
    → class_named name names ≡ some c
    → is_request c ≡ true
unfolding class_named
class_named-All name [] all h = cc
class_named-All name ((n, d) ∷ names) {c} (r, all) h =
    ground (arith, r, class_named-All name names {c = c} all)

requests_by_op-All : All (λ (n : Text × Class). is_request n.1 ≡ true) requests_by_op
requests_by_op-All = ground arith

pub look_up-is_request :
    (key : Option Json) (c : Class) → look_up requests_by_op key ≡ found c → is_request c ≡ true
unfolding look_up
look_up-is_request none c = λ h. cc
look_up-is_request (some (str name)) c = elim (Option-cases (class_named name requests_by_op)) [
  | inl absent ↦ rw (absent, look_up) (λ h. cc)
  | inr (d, e) ↦
      rw (e, look_up)
        (λ h. let r = class_named-All name requests_by_op {c = d} requests_by_op-All e in cc)
]
look_up-is_request (some (arr items)) c = λ h. cc
look_up-is_request (some (obj fields)) c = λ h. cc
look_up-is_request (some null) c = λ h. cc
look_up-is_request (some (bool b)) c = λ h. cc
look_up-is_request (some (int n)) c = λ h. cc
look_up-is_request (some (float x)) c = λ h. cc

load-IsRequest :
    (cls : Class) (kwargs : Fields) (i : Instance)
    → is_request cls ≡ true
    → load cls kwargs ≡ decoded i
    → IsRequest i
unfolding load
load-IsRequest cls kwargs i r h =
    elim (Option-cases
      (construct (parameters cls) (select (is_parameter (parameters cls)) kwargs))) [
        | inl missing ↦ let e : other_error ≡ decoded i = sym (rw (missing, load) refl) ∙ h in cc
        | inr (values, e) ↦
            let made : decoded (record { cls = cls; values = values }) ≡ decoded i =
              sym (rw (e, load) refl) ∙ h in
            let same : record { cls = cls; values = values } ≡ i = cc in
            subst IsRequest same
              (record { request = r; fields = construct-keys (parameters cls) _ values e })
      ]

load_found-IsRequest :
    (f : Found) (message : Text) (kwargs : Fields) (i : Instance)
    → ((c : Class) → f ≡ found c → is_request c ≡ true)
    → load_found f message kwargs ≡ decoded i
    → IsRequest i
load_found-IsRequest (found c) message kwargs i r h = load-IsRequest c kwargs i (r c refl) h
load_found-IsRequest unknown message kwargs i r h = cc
load_found-IsRequest unhashable message kwargs i r h = cc

decode_object_request-IsRequest :
    (lib : JsonLib) (v : Json) (i : Instance)
    → decode_object_request lib v ≡ decoded i
    → IsRequest i
unfolding decode_object_request
decode_object_request-IsRequest lib (obj fs) i h =
    load_found-IsRequest (look_up requests_by_op (get_field (text "op") fs)) _ _ i
      (look_up-is_request (get_field (text "op") fs)) h
decode_object_request-IsRequest lib null i h = cc
decode_object_request-IsRequest lib (bool b) i h = cc
decode_object_request-IsRequest lib (int n) i h = cc
decode_object_request-IsRequest lib (float x) i h = cc
decode_object_request-IsRequest lib (str s) i h = cc
decode_object_request-IsRequest lib (arr items) i h = cc

-- Whatever the line holds: if it decodes to an instance, then to one of a class of requests, with a
-- value for each field of that class, in the class's order, and for no other.
pub decode_request-IsRequest :
    (lib : JsonLib) (line : Text) (i : Instance) → decode_request lib line ≡ decoded i → IsRequest i
unfolding decode_request
decode_request-IsRequest lib line i = elim (Option-cases (lib.loads line)) [
  | inl bad ↦ rw (bad, decode_request) (λ h. cc)
  | inr (v, e) ↦ rw (e, decode_request) (decode_object_request-IsRequest lib v i)
]
