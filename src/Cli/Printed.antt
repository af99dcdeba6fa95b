-- ===== src/Cli/Printed.antt =====
-- What the commands of src/gpuq/cli.py print and the codes that they exit with, from the daemon's
-- answer. How JSON, a list of strings and a number of hours are written is an argument.
pub mod Accepted
use gpuq.Common.{
  ℕ, Bool, true, false, not, zero, suc, ◌-◌, length, List, [], ◌∷◌, ◌++◌, Option, none, some, map,
  if◌then◌else◌,
}
use gpuq.Common.Text.{Text, text, truthy}
use gpuq.Common.Int.{ℤ, pos}
use gpuq.Common.Strings.{join}
use gpuq.Common.Decimal.{decimal, int_text}
use gpuq.State.{JobState, state_name}
use gpuq.Protocol.{Stream, Event, StateEvent, Payload, JobDict, Wedged, Micros, ok_of}
use gpuq.Protocol.Json.{Json, Fields, obj, arr, nil, null, end, field}
use gpuq.Protocol.Instances.{payload_fields}
use gpuq.Cli.{Output, target, status, submit_events}
use gpuq.Cli.Duration.{fmt_dur}

-- The lines echoed on stdout and on stderr, and the exit code.
pub record Printed : Type 0 where
  pub out : List Text
  pub err : List Text
  pub code : ℤ

pub record Rendering : Type 0 where
  pub dumps : Json → Text
  pub dumps_indented : Json → Text
  pub list_text : List Text → Text
  pub hours : Micros → Text

abbrev pub printed : List Text → Printed
printed lines = record { out = lines; err = []; code = pos 0 }

-- `_open` without a socket: exit code 64.
unfoldable pub not_running : (sock : Text) → Printed
not_running sock = record {
  out = [];
  err =
      (text "[gpuq] daemon not running at " ++ sock)
      ∷ text "[gpuq] start it with: systemctl --user start gpuq"
      ∷ [];
  code = pos 64;
}

abbrev pub payload_of : Option Event → Option Payload
payload_of (some (Event.result p)) = some p
payload_of _ = none

-- The dict of the answer, or the one that the command takes in its place.
unfoldable pub answer_dict : (missing : Fields) → Option Event → Json
answer_dict missing answer = elim (payload_of answer) [
  | none ↦ obj missing
  | some p ↦ obj (payload_fields p)
]

-- `{s:9}`: filled up with spaces on the right.
abbrev pub spaces : ℕ → Text
spaces zero = []
spaces (suc n) = 32 ∷ spaces n

unfoldable pub pad : (width : ℕ) → Text → Text
pad width s = s ++ spaces (width - length s)

unfoldable pub ps_line : JobDict → Text
ps_line j =
    j.id
    ++ text "  "
    ++ pad 9 (state_name j.state)
    ++ text "  p="
    ++ int_text j.priority
    ++ text "  "
    ++ j.tag
    ++ text "  "
    ++ join 32 j.cmd

abbrev pub jobs_of : Option Payload → List JobDict
jobs_of (some (Payload.jobs js)) = js
jobs_of _ = []

unfoldable pub ps_printed : Rendering → (as_json : Bool) → Option Event → Printed
ps_printed w as_json answer =
    if as_json
    then printed (w.dumps (answer_dict (field (text "jobs") (arr nil) end) answer) ∷ [])
    else printed (map ps_line (jobs_of (payload_of answer)))

unfoldable pub show_printed : Rendering → (as_json : Bool) → Option Event → Printed
show_printed w as_json answer =
    let d = answer_dict (field (text "job") null end) answer in
    printed ((if as_json then w.dumps d else w.dumps_indented d) ∷ [])

-- The answer of a command that says no more than whether it succeeded.
abbrev pub ok_printed : (good bad : Text) → Option Event → Printed
ok_printed good bad answer = elim (payload_of answer) [
  | none ↦ record { out = []; err = bad ∷ []; code = pos 1 }
  | some p ↦
      if ok_of p
      then record { out = []; err = good ∷ []; code = pos 0 }
      else record { out = []; err = bad ∷ []; code = pos 1 }
]

unfoldable pub cancel_printed : (id : Text) → Option Event → Printed
cancel_printed id =
    ok_printed (text "[gpuq] cancelled " ++ id) (text "[gpuq] could not cancel " ++ id)

unfoldable pub bump_printed : (id : Text) → Option Event → Printed
bump_printed id =
    ok_printed (text "[gpuq] bumped " ++ id)
      (text "[gpuq] could not bump " ++ id ++ text " (not queued?)")

-- `payload.get("reason", "unknown")`
abbrev pub reason_of : Option Payload → Text
reason_of (some (Payload.refused reason)) = reason
reason_of _ = text "unknown"

-- `(payload.get("job") or {}).get("id", "")`
abbrev pub job_id_of : Payload → Text
job_id_of (Payload.ok_job (some j)) = j.id
job_id_of (Payload.job (some j)) = j.id
job_id_of _ = []

abbrev pub says_ok : Option Payload → Bool
says_ok none = false
says_ok (some p) = ok_of p

abbrev pub accepted_id : Option Payload → Text
accepted_id none = []
accepted_id (some p) = job_id_of p

unfoldable pub retry_printed : (id : Text) → Option Event → Printed
retry_printed id answer =
    let p = payload_of answer in
    if says_ok p then printed (accepted_id p ∷ []) else record {
      out = [];
      err = (text "[gpuq] could not retry " ++ id ++ text ": " ++ reason_of p) ∷ [];
      code = pos 1;
    }

abbrev pub deleted_of : Option Payload → List Text
deleted_of (some (Payload.deleted ids dry_run)) = ids
deleted_of _ = []

abbrev pub is_dry : Option Payload → Bool
is_dry (some (Payload.deleted ids dry_run)) = dry_run
is_dry _ = false

unfoldable pub prune_printed : Option Event → Printed
prune_printed answer =
    let ids = deleted_of (payload_of answer) in
    record {
      out = ids;
      err =
          (text "[gpuq] "
            ++ (if is_dry (payload_of answer) then text "would delete" else text "deleted")
            ++ text " "
            ++ decimal (length ids)
            ++ text " job(s)")
          ∷ [];
      code = pos 0;
    }
