-- ===== src/Protocol/Filled.antt =====
-- Which values decode_request of src/gpuq/protocol.py gives to the fields of a request.
use gpuq.Common.{
  ◌≡◌, refl, sym, ◌∙◌, Bool, true, not, ◌&&◌, List, [], ◌∷◌, Option, none, some, or_else, All,
  All-map, arith, Option-cases, inl, inr,
}
use mathlib.Core.Path.{subst}
use gpuq.Common.Text.{Text, text, text_eq}
use gpuq.Protocol.Json.{
  Json, Fields, end, field, null, bool, int, float, str, arr, obj, get_field, select,
}
use gpuq.Protocol.Schema.{Class, Parameter, parameters, Instance, requests_by_op}
use gpuq.Protocol.Codec.{
  JsonLib, decoded, other_error, Found, found, unknown, unhashable, construct, is_parameter, load,
  look_up, load_found, request_kwargs, decode_object_request, decode_request,
}
use gpuq.Protocol.WellFormed.{is_request, decode_request-IsRequest}
use gpuq.Protocol.Fields.{get_field-select, get_field-request_kwargs, given, is_wire_key}

-- The values of these parameters, in their order: what was given for each, else its default.
abbrev pub Filled : (Text → Option Json) → List Parameter → Fields → Type 0
Filled arguments [] end = Unit
Filled arguments [] (field k v fs) = ⊥
Filled arguments (p ∷ params) end = ⊥
Filled arguments (p ∷ params) (field k v fs) =
    (k ≡ p.0) × (or_else (arguments p.0) p.1 ≡ some v) × Filled arguments params fs

-- One parameter: its argument, else its default, before the rest.
before : Text → Option Json → Option Fields → Option Fields
before name none rest = none
before name (some v) none = none
before name (some v) (some rest) = some (field name v rest)

construct-step :
    (name : Text) (default : Option Json) (params : List Parameter) (kwargs : Fields)
    → construct ((name, default) ∷ params) kwargs
      ≡ before name (or_else (get_field name kwargs) default) (construct params kwargs)
unfolding construct before
construct-step name default params kwargs = elim (Option-cases (get_field name kwargs)) [
  | inr (v, given) ↦ elim (Option-cases (construct params kwargs)) [
    | inl missing ↦ rw (given, construct) (rw (missing, construct) refl)
    | inr (rest, e) ↦ rw (given, construct) (rw (e, construct) refl)
  ]
  | inl absent ↦ rw (absent, construct) (defaulted default)
]
  where
    defaulted :
        (d : Option Json)
        → (elim d [
          | none ↦ none
          | some v ↦ elim (construct params kwargs) [
            | none ↦ none
            | some rest ↦ some (field name v rest)
          ]
        ])
          ≡ before name d (construct params kwargs)
    defaulted d = ground arith

before-Filled :
    (f : Text → Option Json) (name : Text) (default o : Option Json) (params : List Parameter)
    (rest : Option Fields) (values : Fields)
    → or_else (f name) default ≡ o
    → ((r : Fields) → rest ≡ some r → Filled f params r)
    → before name o rest ≡ some values
    → Filled f ((name, default) ∷ params) values
unfolding before
before-Filled f name default none params rest values e filled h = cc
before-Filled f name default (some v) params none values e filled h = cc
before-Filled f name default (some v) params (some rest) values e filled h =
    let same : field name v rest ≡ values = cc in
    subst (Filled f ((name, default) ∷ params)) same (refl, e, filled rest refl)

construct-Filled :
    (params : List Parameter) (kwargs values : Fields)
    → construct params kwargs ≡ some values
    → Filled (λ k. get_field k kwargs) params values
construct-Filled [] kwargs end h = tt
construct-Filled [] kwargs (field k v fs) h =
    let made : construct [] kwargs ≡ some end = unfold construct in refl in cc (made, h)
construct-Filled ((name, default) ∷ params) kwargs values h =
    before-Filled (λ k. get_field k kwargs) name default _ params (construct params kwargs) values
      refl (construct-Filled params kwargs) (sym (construct-step name default params kwargs) ∙ h)

Filled-map :
    (f g : Text → Option Json) (params : List Parameter) (values : Fields)
    → All (λ (p : Parameter). f p.0 ≡ g p.0) params
    → Filled f params values
    → Filled g params values
Filled-map f g [] end same h = tt
Filled-map f g [] (field k v fs) same h = h
Filled-map f g (p ∷ params) end same h = h
Filled-map f g (p ∷ params) (field k v fs) same h =
    (h.0, rw (sym same.0) h.1, Filled-map f g params fs same.1 h.2)

-- The fields of a request's class are its parameters, and no key of a frame alone.
abbrev is_own : Class → Parameter → Bool
is_own c p = is_parameter (parameters c) p.0 && not (is_wire_key p.0)

fields-own : (c : Class) → All (λ (p : Parameter). is_own c p ≡ true) (parameters c)
unfolding parameters is_parameter text_eq
fields-own c = ground arith

load-Filled :
    (c : Class) (fs : Fields) (i : Instance)
    → load c (request_kwargs fs) ≡ decoded i
    → Filled (λ k. given k fs) (parameters i.cls) i.values
unfolding load
load-Filled c fs i h =
    let kwargs = select (is_parameter (parameters c)) (request_kwargs fs) in
    elim (Option-cases (construct (parameters c) kwargs)) [
      | inl missing ↦ let e : other_error ≡ decoded i = sym (rw (missing, load) refl) ∙ h in cc
      | inr (values, e) ↦
          let made : decoded (record { cls = c; values = values }) ≡ decoded i =
            sym (rw (e, load) refl) ∙ h in
          let same : record { cls = c; values = values } ≡ i = cc in
          subst (λ j. Filled (λ k. given k fs) (parameters j.cls) j.values) same
            (Filled-map (λ k. get_field k kwargs) (λ k. given k fs) (parameters c) values
              (All-map (parameters c) (own c fs) (fields-own c))
              (construct-Filled (parameters c) kwargs values e))
    ]
  where
    own :
        (c : Class) (fs : Fields) (p : Parameter)
        → is_own c p ≡ true
        → get_field p.0 (select (is_parameter (parameters c)) (request_kwargs fs)) ≡ given p.0 fs
    own c fs p h =
        get_field-select p.0 (is_parameter (parameters c)) (request_kwargs fs)
        ∙ ground (arith, h, get_field-request_kwargs p.0 fs)

load_found-Filled :
    (f : Found) (message : Text) (fs : Fields) (i : Instance)
    → load_found f message (request_kwargs fs) ≡ decoded i
    → Filled (λ k. given k fs) (parameters i.cls) i.values
load_found-Filled (found c) message fs i h = load-Filled c fs i h
load_found-Filled unknown message fs i h = cc
load_found-Filled unhashable message fs i h = cc

-- What a decoded request holds.
abbrev pub HoldsGiven : Instance → Json → Type 0
HoldsGiven i v = (fs : Fields) × (v ≡ obj fs) × Filled (λ k. given k fs) (parameters i.cls) i.values

decode_object_request-HoldsGiven :
    (lib : JsonLib) (v : Json) (i : Instance)
    → decode_object_request lib v ≡ decoded i
    → HoldsGiven i v
unfolding decode_object_request
decode_object_request-HoldsGiven lib (obj fs) i h =
    (fs, refl, load_found-Filled (look_up requests_by_op (get_field (text "op") fs)) _ fs i h)
decode_object_request-HoldsGiven lib null i h = cc
decode_object_request-HoldsGiven lib (bool b) i h = cc
decode_object_request-HoldsGiven lib (int n) i h = cc
decode_object_request-HoldsGiven lib (float x) i h = cc
decode_object_request-HoldsGiven lib (str s) i h = cc
decode_object_request-HoldsGiven lib (arr items) i h = cc

values_given :
    (lib : JsonLib) (line : Text) (i : Instance)
    → decode_request lib line ≡ decoded i
    → (v : Json) × (lib.loads line ≡ some v) × HoldsGiven i v
unfolding decode_request
values_given lib line i = elim (Option-cases (lib.loads line)) [
  | inl bad ↦ rw (bad, decode_request) (λ h. cc)
  | inr (v, e) ↦ rw (e, decode_request) (λ h. (v, refl, decode_object_request-HoldsGiven lib v i h))
]

-- With any JSON library, a line that decodes to an instance is a JSON object. The instance is of a
-- class of requests and holds the fields of its class, no other, in the class's order, each with
-- the value that the object gives for it, or its default: for `from_` and `next_` the value under
-- from and next, where there is one.
pub decode_request_values :
    (lib : JsonLib) (line : Text) (i : Instance)
    → decode_request lib line ≡ decoded i
    → (is_request i.cls ≡ true) × ((v : Json) × (lib.loads line ≡ some v) × HoldsGiven i v)
decode_request_values lib line i h =
    ((decode_request-IsRequest lib line i h).request, values_given lib line i h)
