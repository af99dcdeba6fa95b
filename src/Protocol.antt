-- ===== src/Protocol.antt =====
-- src/gpuq/protocol.py: the requests of the client and the events of the daemon, as the decoded
-- dataclasses. A time in seconds, a Python float, is a whole number of microseconds.
pub mod Json
pub mod Schema
pub mod Codec
pub mod Fields
pub mod Instances
pub mod RoundTrip
pub mod WellFormed
pub mod Verdict
pub mod Filled
pub mod Typed
use gpuq.Common.{ℕ, Bool, true, false, List, Option}
use gpuq.Common.Text.{Text}
use gpuq.Common.Int.{ℤ}
use gpuq.State.{JobState}

abbrev pub Micros : Type 0
Micros = ℤ

pub record Submit : Type 0 where
  pub cmd : List Text
  pub cwd : Text
  pub env : List (Text × Text)
  pub tag : Text
  pub priority : ℤ
  pub detach : Bool
  pub next_ : Bool
  pub description : Text
  pub parent_id : Text

pub data From : Type 0 where
  start tail : From
  elsewhere : Text → From

pub record Attach : Type 0 where
  pub id : Text
  pub follow : Bool
  pub from_ : From
  pub tail : ℤ

pub record Ps : Type 0 where
  pub tag : Option Text
  pub state : Option JobState
  pub states : List JobState
  pub since : Option Text

-- `other_signal`: any string but "TERM" and "KILL".
pub data Signal : Type 0 where
  term kill : Signal
  other_signal : Text → Signal

pub record Cancel : Type 0 where
  pub id : Text
  pub signal : Signal
  pub timeout : Micros

pub record Doctor : Type 0 where
  pub fix : Bool
  pub ids : List Text
  pub min_age_s : Micros

pub record Retry : Type 0 where
  pub id : Text
  pub force : Bool

pub record Prune : Type 0 where
  pub older_than_s : Micros
  pub states : List JobState
  pub keep_tag : Text
  pub dry_run : Bool

pub record Lease : Type 0 where
  pub duration : Text
  pub reason : Text
  pub priority : ℤ

pub data Request : Type 0 where
  submit : Submit → Request
  bump : (id : Text) → Request
  attach : Attach → Request
  ps : Ps → Request
  show : (id : Text) → Request
  cancel : Cancel → Request
  doctor : Doctor → Request
  retry : Retry → Request
  prune : Prune → Request
  lease : Lease → Request
  release : (lease_id : Text) → Request
  evict_ollama restore_ollama : Request

pub record StateEvent : Type 0 where
  pub id : Text
  pub state : JobState
  pub position : Option ℕ
  pub pid : Option ℕ
  pub started_at : Option Text
  pub exit_code : Option ℤ
  pub duration_s : Option Micros
  pub eta_running_s : Option Micros
  pub eta_start_s : Option Micros

pub data Stream : Type 0 where
  stdout stderr : Stream

-- `_job_dict`: the row without its environment.
pub record JobDict : Type 0 where
  pub id : Text
  pub cmd : List Text
  pub cwd : Text
  pub tag : Text
  pub priority : ℤ
  pub state : JobState
  pub pid : Option ℕ
  pub exit_code : Option ℤ
  pub submitted_at : Text
  pub started_at : Option Text
  pub finished_at : Option Text
  pub parent_id : Option Text
  pub description : Option Text

-- An entry of `wedged` in the answer of `doctor`; `fixed` and `reason` may be missing.
pub record Wedged : Type 0 where
  pub id : Text
  pub signature : Text
  pub pid : Option ℕ
  pub started_at : Option Text
  pub fixed : Option Bool
  pub reason : Option Text

-- The payloads of `ResultEvent` that the daemon builds.
pub data Payload : Type 0 where
  jobs : List JobDict → Payload
  job : Option JobDict → Payload
  ok_job : (job : Option JobDict) → Payload
  refused : (reason : Text) → Payload
  ok : Bool → Payload
  wedged : List Wedged → (fix : Bool) → Payload
  deleted : List Text → (dry_run : Bool) → Payload
  granted : (lease_id granted_at : Text) → Payload
  evicted : (was_loaded : List Text) → Payload

-- `payload.get("ok")`, falsy where it is missing.
abbrev pub ok_of : Payload → Bool
ok_of (Payload.ok_job info) = true
ok_of (Payload.ok b) = b
ok_of _ = false

pub data Event : Type 0 where
  state : StateEvent → Event
  log : (id : Text) → Stream → (line : Text) → Event
  ollama : (action : Text) → (models : List Text) → Event
  result : Payload → Event
  -- `message` of an `ErrorEvent` for an exception of a handler
  error : (message : Text) → Event
