-- ===== src/Cli/Requests.antt =====
-- The requests that the commands of src/gpuq/cli.py send for their options.
pub mod Sent
use gpuq.Common.{
  ℕ, zero, suc, Bool, true, false, List, [], ◌∷◌, Option, none, some, map, filter, if◌then◌else◌,
}
use gpuq.Common.Text.{Text, text, truthy}
use gpuq.Common.Int.{ℤ, pos}
use gpuq.Common.Strings.{split, strip}
use gpuq.State.{JobState}
use gpuq.Protocol.{From, Signal, Request, Micros}
use gpuq.Protocol.Typed.{state_of}
use gpuq.Cli.{ps_states}
use gpuq.Cli.Duration.{Duration, time, usage_error, value_error, parse_duration}

-- `[s.strip() for s in csv.split(",") if s.strip()]`
unfoldable pub names_of : (csv : Text) → List Text
names_of csv = filter truthy (map strip (split 44 csv))

-- The states of an option that holds a list with commas; `none` if it is missing or empty.
abbrev pub named_states : Option Text → Option (List JobState)
named_states none = none
named_states (some []) = none
named_states (some (c ∷ csv)) = some (map state_of (names_of (c ∷ csv)))

-- What a command does first: it sends a request, or ends by an exception, before it connects.
pub data Attempt : Type 0 where
  send : Request → Attempt
  usage : Attempt
  crash : Attempt

abbrev pub with_time : Duration → (Micros → Request) → Attempt
with_time (time x) f = send (f x)
with_time usage_error f = usage
with_time value_error f = crash

pub record PsOptions : Type 0 where
  pub tag : Option Text
  pub state : Option Text
  pub states_csv : Option Text
  pub all_ : Bool
  pub since : Option Text

abbrev pub optional_state : Option Text → Option JobState
optional_state none = none
optional_state (some s) = some (state_of s)

abbrev pub ps_since : PsOptions → (since : Option Text) → Request
ps_since o since = Request.ps (record {
  tag = o.tag;
  state = optional_state o.state;
  states = ps_states (named_states o.states_csv) o.state o.all_;
  since = since;
})

-- `ago` is the stamp of the time that lies so far back.
unfoldable pub ps_request :
    (float : Text → Option Micros) → (ago : Micros → Text) → PsOptions → Attempt
ps_request float ago o = elim (o.since) [
  | none ↦ send (ps_since o none)
  | some [] ↦ send (ps_since o none)
  | some (c ∷ s) ↦ with_time (parse_duration float (c ∷ s)) (λ x. ps_since o (some (ago x)))
]

pub record PruneOptions : Type 0 where
  pub older_than : Text
  pub states_csv : Option Text
  pub keep_tag : Text
  pub dry_run : Bool

abbrev pub or_empty {ℓ} : {A : Type ℓ} → Option (List A) → List A
or_empty none = []
or_empty (some xs) = xs

unfoldable pub prune_request : (float : Text → Option Micros) → PruneOptions → Attempt
prune_request float o = with_time (parse_duration float o.older_than) (λ secs.
    Request.prune (record {
      older_than_s = secs;
      states = or_empty (named_states o.states_csv);
      keep_tag = o.keep_tag;
      dry_run = o.dry_run;
    }))

-- `[id_] if id_ else []`
abbrev pub ids_of : Option Text → List Text
ids_of none = []
ids_of (some []) = []
ids_of (some (c ∷ s)) = (c ∷ s) ∷ []

unfoldable pub doctor_request : (fix : Bool) → (id : Option Text) → (min_age : Micros) → Request
doctor_request fix id min_age =
    Request.doctor (record { fix = fix; ids = ids_of id; min_age_s = min_age })

-- The timeout is the default of the dataclass, 10 seconds.
unfoldable pub cancel_request : (id : Text) → (kill : Bool) → Request
cancel_request id kill =
    Request.cancel (record {
      id = id;
      signal = if kill then Signal.kill else Signal.term;
      timeout = pos 10000000;
    })

unfoldable pub logs_request : (id : Text) → (follow : Bool) → From → (tail : ℤ) → Request
logs_request id follow from_ tail =
    Request.attach (record { id = id; follow = follow; from_ = from_; tail = tail })

-- The size of the combined log, `none` if there is no such file.
abbrev pub no_output_yet : Option ℕ → Bool
no_output_yet none = true
no_output_yet (some zero) = true
no_output_yet (some (suc n)) = false

-- What `logs` sends, in its order: it asks for the job's state first if there is no output yet.
unfoldable pub logs_requests :
    (size : Option ℕ) (id : Text) → (follow : Bool) → From → (tail : ℤ) → List Request
logs_requests size id follow from_ tail =
    let attach = logs_request id follow from_ tail in
    if no_output_yet size then Request.show id ∷ attach ∷ [] else attach ∷ []

unfoldable pub retry_request : (id : Text) → (force : Bool) → Request
retry_request id force = Request.retry (record { id = id; force = force })
