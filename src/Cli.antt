-- ===== src/Cli.antt =====
-- The commands of src/gpuq/cli.py, from the events that the daemon sends to the exit code. The text
-- of the status lines on stderr is in Cli/Status: here, a status line is the event that it reports.
pub mod ExitCodes
pub mod Duration
pub mod Requests
pub mod Printed
pub mod Status
pub mod Wire
use gpuq.Common.{
  ℕ, Bool, true, false, not, ◌&&◌, List, [], ◌∷◌, Option, none, some, filter, map, if◌then◌else◌,
}
use gpuq.Common.Text.{Text, text, truthy}
use gpuq.Common.Int.{ℤ, pos, eqb_ℤ}
use gpuq.State.{JobState, queued, starting, running}
use gpuq.Protocol.{Submit, Ps, Stream, Event, StateEvent, Payload, JobDict, ok_of}

-- The options of `submit`, and what it takes from its process: the directory and the environment.
pub record SubmitOptions : Type 0 where
  pub tag : Text
  pub priority : ℤ
  pub next_ : Bool
  pub detach : Bool
  pub describe : Text
  pub cmd : List Text

-- The options' defaults, with the command that the arguments give.
abbrev pub submit_defaults : (cmd : List Text) → SubmitOptions
submit_defaults cmd = record {
  tag = [];
  priority = pos 0;
  next_ = false;
  detach = false;
  describe = [];
  cmd = cmd;
}

-- `none`: the UsageError of `--next` with a priority.
unfoldable pub submit_request :
    SubmitOptions → (cwd : Text) → (environ : List (Text × Text)) → Option Submit
submit_request o cwd environ =
    if o.next_ && not (eqb_ℤ o.priority (pos 0))
    then none
    else some (record {
      cmd = o.cmd;
      cwd = cwd;
      env = environ;
      tag = o.tag;
      priority = o.priority;
      detach = o.detach;
      next_ = o.next_;
      description = o.describe;
      parent_id = [];
    })

-- What a command writes: a line of the job's output, or a status line on stderr.
pub data Output : Type 0 where
  target : Stream → (line : Text) → Output
  status : Event → Output

abbrev pub or_code : Option ℤ → ℤ → ℤ
or_code none code = code
or_code (some rc) code = rc

-- The loop of `submit`: what it writes, and the code that it exits with, from the events received
-- and the code so far.
unfoldable pub submit_loop : List Event → ℤ → List Output × ℤ
submit_loop [] code = ([], code)
submit_loop (Event.log jid stream line ∷ evs) code =
    let (out, last) = submit_loop evs code in (Output.target stream line ∷ out, last)
submit_loop (Event.state ev ∷ evs) code =
    let (out, last) = submit_loop evs (or_code ev.exit_code code) in
    (Output.status (Event.state ev) ∷ out, last)
submit_loop (Event.ollama action models ∷ evs) code =
    let (out, last) = submit_loop evs code in
    (Output.status (Event.ollama action models) ∷ out, last)
submit_loop (Event.error message ∷ evs) code =
    let (out, last) = submit_loop evs (pos 1) in (Output.status (Event.error message) ∷ out, last)
submit_loop (Event.result payload ∷ evs) code = submit_loop evs code

-- `exit_code = 0` before the loop.
unfoldable pub submit_events : List Event → List Output × ℤ
submit_events evs = submit_loop evs (pos 0)

-- `cancel` and `bump`: exit code 1 unless the answer, if any, is a result that says `ok`.
unfoldable pub ok_exit : Option Event → ℤ
ok_exit none = pos 1
ok_exit (some (Event.result payload)) = if ok_of payload then pos 0 else pos 1
ok_exit (some (Event.state ev)) = pos 1
ok_exit (some (Event.log jid stream line)) = pos 1
ok_exit (some (Event.ollama action models)) = pos 1
ok_exit (some (Event.error message)) = pos 1

-- The list of states that `ps` sends: those of `--states`, which `named` is, else none if a single
-- state or `--all` was given, else the jobs that have not ended.
unfoldable pub ps_states :
    (named : Option (List JobState)) → (state : Option Text) → (all_ : Bool) → List JobState
ps_states (some states) state all_ = states
ps_states none (some (c ∷ s)) all_ = []
ps_states none (some []) all_ = if all_ then [] else queued ∷ starting ∷ running ∷ []
ps_states none none all_ = if all_ then [] else queued ∷ starting ∷ running ∷ []
