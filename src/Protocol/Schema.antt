-- ===== src/Protocol/Schema.antt =====
-- The dataclasses of src/gpuq/protocol.py as Python sees them: their fields with the defaults, the
-- tables of ops and event types, and an instance with the values of its fields.
use gpuq.Common.{true, false, List, [], ◌∷◌, Option, none, some, if◌then◌else◌}
use gpuq.Common.Text.{Text, text, text_eq}
use gpuq.Common.Int.{pos}
use gpuq.Protocol.Json.{Json, Fields, end, null, bool, int, float, str, arr, obj, nil}

pub data Class : Type 0 where
  submit bump attach ps show cancel doctor retry prune lease release : Class
  evict_ollama restore_ollama : Class
  state_event log_event ollama_event result_event error_event : Class

-- A field's name, and its default.
abbrev pub Parameter : Type 0
Parameter = Text × Option Json

abbrev empty_list : Json
empty_list = arr nil

-- `fields(cls)`. A default of `none` makes the field a required argument of the constructor.
unfoldable pub parameters : Class → List Parameter
parameters submit =
    (text "cmd", none)
    ∷ (text "cwd", none)
    ∷ (text "env", some (obj end))
    ∷ (text "tag", some (str []))
    ∷ (text "priority", some (int (pos 0)))
    ∷ (text "detach", some (bool false))
    ∷ (text "next_", some (bool false))
    ∷ (text "description", some (str []))
    ∷ (text "parent_id", some (str []))
    ∷ []
parameters bump = (text "id", none) ∷ []
parameters attach =
    (text "id", none)
    ∷ (text "follow", some (bool true))
    ∷ (text "from_", some (str (text "tail")))
    ∷ (text "tail", some (int (pos 200)))
    ∷ []
parameters ps =
    (text "tag", some null)
    ∷ (text "state", some null)
    ∷ (text "states", some empty_list)
    ∷ (text "since", some null)
    ∷ []
parameters show = (text "id", none) ∷ []
parameters cancel =
    (text "id", none)
    ∷ (text "signal", some (str (text "TERM")))
    ∷ (text "timeout", some (float (pos 10000000)))
    ∷ []
parameters doctor =
    (text "fix", some (bool false))
    ∷ (text "ids", some empty_list)
    ∷ (text "min_age_s", some (float (pos 60000000)))
    ∷ []
parameters retry = (text "id", none) ∷ (text "force", some (bool false)) ∷ []
parameters prune =
    (text "older_than_s", some (float (pos 0)))
    ∷ (text "states", some empty_list)
    ∷ (text "keep_tag", some (str []))
    ∷ (text "dry_run", some (bool false))
    ∷ []
parameters lease =
    (text "duration", some (str []))
    ∷ (text "reason", some (str []))
    ∷ (text "priority", some (int (pos 0)))
    ∷ []
parameters release = (text "lease_id", none) ∷ []
parameters evict_ollama = []
parameters restore_ollama = []
parameters state_event =
    (text "id", none)
    ∷ (text "state", none)
    ∷ (text "position", some null)
    ∷ (text "pid", some null)
    ∷ (text "started_at", some null)
    ∷ (text "exit_code", some null)
    ∷ (text "duration_s", some null)
    ∷ (text "eta_running_s", some null)
    ∷ (text "eta_start_s", some null)
    ∷ []
parameters log_event = (text "id", none) ∷ (text "stream", none) ∷ (text "line", none) ∷ []
parameters ollama_event = (text "action", none) ∷ (text "models", some empty_list) ∷ []
parameters result_event = (text "payload", some (obj end)) ∷ []
parameters error_event = (text "message", none) ∷ (text "code", some (str (text "error"))) ∷ []

pub record Instance : Type 0 where
  pub cls : Class
  pub values : Fields

abbrev pub Names : Type 0
Names = List (Text × Class)

-- `_REQ_BY_OP` and `_EV_BY_TYPE`
abbrev pub requests_by_op : Names
requests_by_op =
    (text "submit", submit)
    ∷ (text "bump", bump)
    ∷ (text "attach", attach)
    ∷ (text "ps", ps)
    ∷ (text "show", show)
    ∷ (text "cancel", cancel)
    ∷ (text "doctor", doctor)
    ∷ (text "retry", retry)
    ∷ (text "prune", prune)
    ∷ (text "lease", lease)
    ∷ (text "release", release)
    ∷ (text "evict_ollama", evict_ollama)
    ∷ (text "restore_ollama", restore_ollama)
    ∷ []

abbrev pub events_by_type : Names
events_by_type =
    (text "state", state_event)
    ∷ (text "log", log_event)
    ∷ (text "ollama", ollama_event)
    ∷ (text "result", result_event)
    ∷ (text "error", error_event)
    ∷ []

unfoldable pub class_named : Text → Names → Option Class
unfolding text_eq
class_named name [] = none
class_named name ((n, c) ∷ names) = if text_eq n name then some c else class_named name names

-- `_OP_BY_REQ` and `_TYPE_BY_EV`
unfoldable pub name_of : Class → Text
name_of submit = text "submit"
name_of bump = text "bump"
name_of attach = text "attach"
name_of ps = text "ps"
name_of show = text "show"
name_of cancel = text "cancel"
name_of doctor = text "doctor"
name_of retry = text "retry"
name_of prune = text "prune"
name_of lease = text "lease"
name_of release = text "release"
name_of evict_ollama = text "evict_ollama"
name_of restore_ollama = text "restore_ollama"
name_of state_event = text "state"
name_of log_event = text "log"
name_of ollama_event = text "ollama"
name_of result_event = text "result"
name_of error_event = text "error"
