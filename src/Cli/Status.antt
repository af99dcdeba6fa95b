-- ===== src/Cli/Status.antt =====
-- The status lines of `submit` and `logs`, and what `doctor` and the `ollama` commands print:
-- src/gpuq/cli.py.
use gpuq.Common.{ℕ, Bool, true, List, [], ◌∷◌, ◌++◌, length, Option, none, some, map, if◌then◌else◌}
use gpuq.Common.Text.{Text, text}
use gpuq.Common.Int.{pos}
use gpuq.Common.Strings.{join}
use gpuq.Common.Decimal.{decimal, int_text}
use gpuq.State.{state_name}
use gpuq.Protocol.{Event, StateEvent, Payload, JobDict, Wedged}
use gpuq.Protocol.Json.{arr, nil, end, field}
use gpuq.Cli.{Output, target}
use gpuq.Cli.Duration.{fmt_dur}
use gpuq.Cli.Printed.{Printed, Rendering, printed, payload_of, answer_dict}

-- A part of a line that stands only where the value is there.
abbrev part {ℓ} : {A : Type ℓ} → Text → (A → Text) → Option A → List Text
part label f none = []
part label f (some a) = (label ++ f a) ∷ []

unfoldable pub state_line : Rendering → StateEvent → Text
state_line w ev = join 32 (
    (text "[gpuq] " ++ state_name ev.state ++ text " " ++ ev.id)
      ∷ part (text "pos=") decimal ev.position
    ++ part (text "eta_running=") (fmt_dur w.hours) ev.eta_running_s
    ++ part (text "eta_start=") (fmt_dur w.hours) ev.eta_start_s
    ++ part (text "exit=") int_text ev.exit_code)

-- The line that `submit` echoes on stderr for an event; none for a line of the log and for a result.
unfoldable pub status_line : Rendering → Event → Option Text
status_line w (Event.state ev) = some (state_line w ev)
status_line w (Event.ollama action models) =
    some (text "[gpuq] ollama " ++ action ++ text " " ++ w.list_text models)
status_line w (Event.error message) = some (text "[gpuq] error: " ++ message)
status_line w (Event.log id stream line) = none
status_line w (Event.result payload) = none

-- `logs`: of the events that it is sent, the lines are written, each to its stream.
unfoldable pub logs_output : List Event → List Output
logs_output [] = []
logs_output (Event.log id stream line ∷ evs) = target stream line ∷ logs_output evs
logs_output (Event.state ev ∷ evs) = logs_output evs
logs_output (Event.ollama action models ∷ evs) = logs_output evs
logs_output (Event.error message ∷ evs) = logs_output evs
logs_output (Event.result payload ∷ evs) = logs_output evs

abbrev pub job_of : Option Payload → Option JobDict
job_of (some (Payload.job j)) = j
job_of (some (Payload.ok_job j)) = j
job_of _ = none

-- `{o}` of an optional string.
abbrev pub or_none : Option Text → Text
or_none none = text "None"
or_none (some s) = s

abbrev state_text : Option JobDict → Text
state_text none = text "unknown"
state_text (some j) = state_name j.state

abbrev started_of : Option JobDict → Option Text
started_of none = none
started_of (some j) = j.started_at

-- The line on stderr of `logs` if the combined log is missing or empty, from the answer to `show`.
unfoldable pub no_output_line : (id : Text) → Option Event → Text
no_output_line id answer =
    let job = job_of (payload_of answer) in
    text "[gpuq] no output yet for "
    ++ id
    ++ text " (state="
    ++ state_text job
    ++ text ", started="
    ++ or_none (started_of job)
    ++ text ")"

abbrev pid_text : Option ℕ → Text
pid_text none = text "None"
pid_text (some n) = decimal n

-- `"  fixed" if w.get("fixed") else ""`
abbrev fixed_text : Option Bool → Text
fixed_text (some true) = text "  fixed"
fixed_text _ = []

unfoldable pub wedged_line : Wedged → Text
wedged_line w =
    w.id
    ++ text "  running  pid="
    ++ pid_text w.pid
    ++ text "  started "
    ++ or_none w.started_at
    ++ text "\n  signature: "
    ++ w.signature
    ++ fixed_text w.fixed

abbrev pub wedged_of : Option Payload → List Wedged
wedged_of (some (Payload.wedged ws fix)) = ws
wedged_of _ = []

abbrev doctor_lines : (fix : Bool) → List Wedged → Printed
doctor_lines fix [] = record { out = []; err = text "[gpuq] no wedged jobs" ∷ []; code = pos 0 }
doctor_lines fix (w ∷ ws) = record {
  out = map wedged_line (w ∷ ws);
  err =
      if fix
      then []
      else (text "\n"
          ++ decimal (length (w ∷ ws))
          ++ text " job(s) wedged. Re-run with --fix to transition to failed.")
        ∷ [];
  code = pos 0;
}

unfoldable pub doctor_printed : Rendering → (as_json : Bool) → (fix : Bool) → Option Event → Printed
doctor_printed w as_json fix answer =
    if as_json
    then printed (w.dumps (answer_dict (field (text "wedged") (arr nil) end) answer) ∷ [])
    else doctor_lines fix (wedged_of (payload_of answer))

unfoldable pub evict_printed : Rendering → Option Event → Printed
evict_printed w answer = printed (w.dumps (answer_dict end answer) ∷ [])

-- `ollama restore` prints nothing, whatever the answer.
unfoldable pub restore_printed : Option Event → Printed
restore_printed answer = printed []
