-- ===== src/Protocol/Codec.antt =====
-- encode_request, decode_request, encode_event, decode_event, `_dump` and `_load` of
-- src/gpuq/protocol.py. json.dumps, json.loads, repr and the text of a JSONDecodeError are fields of
-- a record.
use gpuq.Common.{Bool, not, List, [], ◌∷◌, ◌++◌, Option, none, some, any, if◌then◌else◌}
use gpuq.Common.Text.{Text, text, text_eq}
use gpuq.Protocol.Json.{
  Json, Fields, end, field, null, bool, int, float, str, arr, obj, get_field, set_field, select,
  rename_keys,
}
use gpuq.Protocol.Schema.{
  Class, Parameter, parameters, Instance, Names, class_named, name_of, requests_by_op,
  events_by_type,
}

pub record JsonLib : Type 0 where
  pub dumps : Json → Text
  -- `none`: a JSONDecodeError
  pub loads : Text → Option Json
  pub repr : Json → Text
  pub decode_error : Text → Text

-- What decoding a line ends with: an instance, a ProtocolError with its text, or another exception
-- (AttributeError or TypeError).
pub data Decoded : Type 0 where
  decoded : Instance → Decoded
  protocol_error : (message : Text) → Decoded
  other_error : Decoded

abbrev newline : Text
newline = text "\n"

-- The renaming of `_dump`.
unfoldable pub wire_name : Text → Text
unfolding text_eq
wire_name k =
    if text_eq k (text "from_")
    then text "from"
    else if text_eq k (text "next_")
    then text "next"
    else k

unfoldable pub dump : Instance → Fields
dump i = rename_keys wire_name i.values

-- `cls(**kwargs)`, where every key is a field's name: a missing argument takes its default; `none`
-- is the TypeError of a missing required one.
unfoldable pub construct : List Parameter → Fields → Option Fields
construct [] kwargs = some end
construct ((name, default) ∷ params) kwargs = elim (get_field name kwargs) [
  | some v ↦ elim (construct params kwargs) [ none ↦ none | some rest ↦ some (field name v rest) ]
  | none ↦ elim default [
    | none ↦ none
    | some v ↦ elim (construct params kwargs) [ none ↦ none | some rest ↦ some (field name v rest) ]
  ]
]

unfoldable pub is_parameter : List Parameter → Text → Bool
unfolding text_eq
is_parameter params k = any (λ (p : Parameter). text_eq p.0 k) params

unfoldable pub load : Class → Fields → Decoded
load cls kwargs =
    elim (construct (parameters cls) (select (is_parameter (parameters cls)) kwargs)) [
      | none ↦ other_error
      | some values ↦ decoded (record { cls = cls; values = values })
    ]

-- The entry of the table for the value under the key: a list or dict is no key (a TypeError), and no
-- other value but a string is in the table.
pub data Found : Type 0 where
  found : Class → Found
  unknown unhashable : Found

unfoldable pub look_up : Names → Option Json → Found
look_up names none = unknown
look_up names (some (str name)) = elim (class_named name names) [
  | none ↦ unknown
  | some c ↦ found c
]
look_up names (some (arr items)) = unhashable
look_up names (some (obj fields)) = unhashable
look_up names (some null) = unknown
look_up names (some (bool b)) = unknown
look_up names (some (int n)) = unknown
look_up names (some (float x)) = unknown

-- `if k in kwargs: kwargs[k'] = kwargs.pop(k)`
unfoldable pub move_field : (from to : Text) → Fields → Fields
unfolding text_eq
move_field from to fs = elim (get_field from fs) [
  | none ↦ fs
  | some v ↦ set_field to v (select (λ k. not (text_eq k from)) fs)
]

unfoldable pub without_key : Text → Fields → Fields
unfolding text_eq
without_key key fs = select (λ k. not (text_eq k key)) fs

unfoldable pub request_kwargs : Fields → Fields
request_kwargs fs =
    move_field (text "next") (text "next_")
      (move_field (text "from") (text "from_") (without_key (text "op") fs))

abbrev or_none : Option Json → Json
or_none none = null
or_none (some v) = v

-- What follows the look-up.
abbrev pub load_found : Found → (message : Text) → Fields → Decoded
load_found (found cls) message kwargs = load cls kwargs
load_found unknown message kwargs = protocol_error message
load_found unhashable message kwargs = other_error

module _ (lib : JsonLib) where
  unfoldable pub encode_request : Instance → Text
  encode_request i = lib.dumps (obj (field (text "op") (str (name_of i.cls)) (dump i))) ++ newline

  unfoldable pub encode_event : Instance → Text
  encode_event i = lib.dumps (obj (field (text "type") (str (name_of i.cls)) (dump i))) ++ newline

  -- A value that is no dict has no `get`: an AttributeError.
  unfoldable pub decode_object_request : Json → Decoded
  decode_object_request (obj fs) =
      load_found (look_up requests_by_op (get_field (text "op") fs))
        (text "unknown op: " ++ lib.repr (or_none (get_field (text "op") fs))) (request_kwargs fs)
  decode_object_request _ = other_error

  unfoldable pub decode_request : Text → Decoded
  decode_request line = elim (lib.loads line) [
    | none ↦ protocol_error (text "bad json: " ++ lib.decode_error line)
    | some v ↦ decode_object_request v
  ]

  unfoldable pub decode_object_event : Json → Decoded
  decode_object_event (obj fs) =
      load_found (look_up events_by_type (get_field (text "type") fs))
        (text "unknown event type: " ++ lib.repr (or_none (get_field (text "type") fs)))
        (without_key (text "type") fs)
  decode_object_event _ = other_error

  unfoldable pub decode_event : Text → Decoded
  decode_event line = elim (lib.loads line) [
    | none ↦ protocol_error (text "bad json: " ++ lib.decode_error line)
    | some v ↦ decode_object_event v
  ]
