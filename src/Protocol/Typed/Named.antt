-- ===== src/Protocol/Typed/Named.antt =====
-- The instance of a request reads as that request, where every name in it has its constructor.
use mathlib.Core.Option
use gpuq.Common.{◌≡◌, refl, ap, List, [], ◌∷◌, All, map, Option, none, some}
use gpuq.Common.Text.{Text}
use gpuq.State.{JobState, state_name}
use gpuq.Protocol.{Request}
use gpuq.Protocol.Json.{str, texts, or_null, text_fields}
use gpuq.Protocol.Instances.{request_instance, from_text, signal_text}
use gpuq.Protocol.Typed.{
  as_items, as_pairs, as_opt_text, state_of, signal_of, from_of, to_state, as_request,
}

-- A name that is written out as `other` is none of those that have a constructor.
abbrev pub StateNamed : JobState → Type 0
StateNamed s = state_of (state_name s) ≡ s

abbrev pub OptionNamed : Option JobState → Type 0
OptionNamed none = Unit
OptionNamed (some s) = StateNamed s

-- The same of every name in a request.
abbrev pub IsNamed : Request → Type 0
IsNamed (Request.attach r) = from_of (from_text r.from_) ≡ r.from_
IsNamed (Request.ps r) = OptionNamed r.state × All StateNamed r.states
IsNamed (Request.cancel r) = signal_of (signal_text r.signal) ≡ r.signal
IsNamed (Request.prune r) = All StateNamed r.states
IsNamed _ = Unit

pub as_items-texts : (xs : List Text) → as_items (texts xs) ≡ some xs
unfolding as_items texts
as_items-texts [] = refl
as_items-texts (x ∷ xs) = rw (as_items-texts xs) refl

pub as_pairs-text_fields : (env : List (Text × Text)) → as_pairs (text_fields env) ≡ some env
unfolding as_pairs text_fields
as_pairs-text_fields [] = refl
as_pairs-text_fields ((k, v) ∷ env) = rw (as_pairs-text_fields env) refl

as_opt_text-or_null : (o : Option Text) → as_opt_text (or_null str o) ≡ some o
unfolding or_null
as_opt_text-or_null none = refl
as_opt_text-or_null (some s) = refl

map-state_of : (ss : List JobState) → All StateNamed ss → map state_of (map state_name ss) ≡ ss
map-state_of [] h = refl
map-state_of (s ∷ ss) h = rw (h.0) (rw (map-state_of ss h.1) refl)

as_opt_text-state :
    (o : Option JobState)
    → as_opt_text (or_null (λ s. str (state_name s)) o) ≡ some (Option.map state_name o)
unfolding or_null
as_opt_text-state none = refl
as_opt_text-state (some s) = refl

to_state-map : (o : Option JobState) → OptionNamed o → to_state (Option.map state_name o) ≡ o
to_state-map none h = refl
to_state-map (some s) h = ap some h

-- The instance of a request reads as that request.
pub as_request-request_instance :
    (req : Request) → IsNamed req → as_request (request_instance req) ≡ some req
unfolding as_request request_instance
as_request-request_instance (Request.submit r) h =
    rw (as_items-texts r.cmd) (rw (as_pairs-text_fields r.env) refl)
as_request-request_instance (Request.bump id) h = refl
as_request-request_instance (Request.attach r) h = rw h refl
as_request-request_instance (Request.ps r) h = rw (as_opt_text-or_null r.tag) (
    rw (as_opt_text-state r.state) (
      rw (as_items-texts (map state_name r.states)) (
        rw (as_opt_text-or_null r.since)
          (rw (to_state-map r.state h.0) (rw (map-state_of r.states h.1) refl)))))
as_request-request_instance (Request.show id) h = refl
as_request-request_instance (Request.cancel r) h = rw h refl
as_request-request_instance (Request.doctor r) h = rw (as_items-texts r.ids) refl
as_request-request_instance (Request.retry r) h = refl
as_request-request_instance (Request.prune r) h =
    rw (as_items-texts (map state_name r.states)) (rw (map-state_of r.states h) refl)
as_request-request_instance (Request.lease r) h = refl
as_request-request_instance (Request.release id) h = refl
as_request-request_instance Request.evict_ollama h = refl
as_request-request_instance Request.restore_ollama h = refl
