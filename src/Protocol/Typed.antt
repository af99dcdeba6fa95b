-- ===== src/Protocol/Typed.antt =====
-- A decoded request whose values have the types that its dataclass declares, as the handlers read it.
pub mod Named
use mathlib.Core.Option
use gpuq.Common.{
  ◌≡◌, refl, ap, Bool, List, [], ◌∷◌, All, map, Option, none, some, if◌then◌else◌, ◌>>=◌,
}
use gpuq.Common.Text.{Text, text, text_eq}
use gpuq.Common.Int.{ℤ}
use gpuq.State.{JobState, queued, starting, running, done, failed, cancelled, state_name}
use gpuq.Protocol.{From, Signal, Request, Micros}
use gpuq.Protocol.Json.{
  Json, Items, Fields, end, field, null, bool, int, float, str, arr, obj, nil, cons, get_field,
  texts, or_null, text_fields,
}
use gpuq.Protocol.Schema.{Class, Instance}
use gpuq.Protocol.Instances.{request_instance, from_text, signal_text}

abbrev pub as_text : Json → Option Text
as_text (str s) = some s
as_text _ = none

abbrev as_bool : Json → Option Bool
as_bool (bool b) = some b
as_bool _ = none

abbrev as_int : Json → Option ℤ
as_int (int n) = some n
as_int _ = none

abbrev as_float : Json → Option Micros
as_float (float x) = some x
as_float _ = none

unfoldable pub as_items : Items → Option (List Text)
as_items nil = some []
as_items (cons (str s) xs) = elim (as_items xs) [ none ↦ none | some ss ↦ some (s ∷ ss) ]
as_items (cons _ xs) = none

abbrev pub as_texts : Json → Option (List Text)
as_texts (arr xs) = as_items xs
as_texts _ = none

unfoldable pub as_pairs : Fields → Option (List (Text × Text))
as_pairs end = some []
as_pairs (field k (str v) fs) = elim (as_pairs fs) [ none ↦ none | some kvs ↦ some ((k, v) ∷ kvs) ]
as_pairs (field k _ fs) = none

abbrev pub as_env : Json → Option (List (Text × Text))
as_env (obj fs) = as_pairs fs
as_env _ = none

abbrev pub as_opt_text : Json → Option (Option Text)
as_opt_text null = some none
as_opt_text (str s) = some (some s)
as_opt_text _ = none

-- The state, the signal and the place that a string names.
unfoldable pub state_of : Text → JobState
unfolding text_eq
state_of s =
    if text_eq s (text "queued")
    then queued
    else if text_eq s (text "starting")
    then starting
    else if text_eq s (text "running")
    then running
    else if text_eq s (text "done")
    then done
    else if text_eq s (text "failed")
    then failed
    else if text_eq s (text "cancelled")
    then cancelled
    else JobState.other s

unfoldable pub signal_of : Text → Signal
unfolding text_eq
signal_of s =
    if text_eq s (text "TERM")
    then Signal.term
    else if text_eq s (text "KILL")
    then Signal.kill
    else Signal.other_signal s

unfoldable pub from_of : Text → From
unfolding text_eq
from_of s =
    if text_eq s (text "start")
    then From.start
    else if text_eq s (text "tail")
    then From.tail
    else From.elsewhere s

abbrev pub to_state : Option Text → Option JobState
to_state none = none
to_state (some s) = some (state_of s)

-- A request from the instance of its class; `none` where a value has another type.
unfoldable pub as_request : Instance → Option Request
unfolding get_field as_items as_pairs
as_request i = elim (i.cls) [
  | Class.submit ↦ do
    cmd ← get_field (text "cmd") i.values >>= as_texts
    cwd ← get_field (text "cwd") i.values >>= as_text
    env ← get_field (text "env") i.values >>= as_env
    tag ← get_field (text "tag") i.values >>= as_text
    priority ← get_field (text "priority") i.values >>= as_int
    detach ← get_field (text "detach") i.values >>= as_bool
    next ← get_field (text "next_") i.values >>= as_bool
    description ← get_field (text "description") i.values >>= as_text
    parent_id ← get_field (text "parent_id") i.values >>= as_text
    some (
        Request.submit (record {
          cmd = cmd;
          cwd = cwd;
          env = env;
          tag = tag;
          priority = priority;
          detach = detach;
          next_ = next;
          description = description;
          parent_id = parent_id;
        }))
  | Class.bump ↦ do id ← get_field (text "id") i.values >>= as_text; some (Request.bump id)
  | Class.attach ↦ do
    id ← get_field (text "id") i.values >>= as_text
    follow ← get_field (text "follow") i.values >>= as_bool
    from ← get_field (text "from_") i.values >>= as_text
    tail ← get_field (text "tail") i.values >>= as_int
    some (Request.attach (record { id = id; follow = follow; from_ = from_of from; tail = tail }))
  | Class.ps ↦ do
    tag ← get_field (text "tag") i.values >>= as_opt_text
    state ← get_field (text "state") i.values >>= as_opt_text
    states ← get_field (text "states") i.values >>= as_texts
    since ← get_field (text "since") i.values >>= as_opt_text
    some (
        Request.ps (record {
          tag = tag;
          state = to_state state;
          states = map state_of states;
          since = since;
        }))
  | Class.show ↦ do id ← get_field (text "id") i.values >>= as_text; some (Request.show id)
  | Class.cancel ↦ do
    id ← get_field (text "id") i.values >>= as_text
    signal ← get_field (text "signal") i.values >>= as_text
    timeout ← get_field (text "timeout") i.values >>= as_float
    some (Request.cancel (record { id = id; signal = signal_of signal; timeout = timeout }))
  | Class.doctor ↦ do
    fix ← get_field (text "fix") i.values >>= as_bool
    ids ← get_field (text "ids") i.values >>= as_texts
    min_age ← get_field (text "min_age_s") i.values >>= as_float
    some (Request.doctor (record { fix = fix; ids = ids; min_age_s = min_age }))
  | Class.retry ↦ do
    id ← get_field (text "id") i.values >>= as_text
    force ← get_field (text "force") i.values >>= as_bool
    some (Request.retry (record { id = id; force = force }))
  | Class.prune ↦ do
    older ← get_field (text "older_than_s") i.values >>= as_float
    states ← get_field (text "states") i.values >>= as_texts
    keep_tag ← get_field (text "keep_tag") i.values >>= as_text
    dry_run ← get_field (text "dry_run") i.values >>= as_bool
    some (
        Request.prune (record {
          older_than_s = older;
          states = map state_of states;
          keep_tag = keep_tag;
          dry_run = dry_run;
        }))
  | Class.lease ↦ do
    duration ← get_field (text "duration") i.values >>= as_text
    reason ← get_field (text "reason") i.values >>= as_text
    priority ← get_field (text "priority") i.values >>= as_int
    some (Request.lease (record { duration = duration; reason = reason; priority = priority }))
  | Class.release ↦ do
    id ← get_field (text "lease_id") i.values >>= as_text
    some (Request.release id)
  | Class.evict_ollama ↦ some Request.evict_ollama
  | Class.restore_ollama ↦ some Request.restore_ollama
  | _ ↦ none
]
