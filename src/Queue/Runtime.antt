-- ===== src/Queue/Runtime.antt =====
-- `pid_alive`, `recent_mean_runtime` and `wedge_signature` of src/gpuq/daemon/queue.py. Durations
-- are whole microseconds, the resolution of Python's datetime; where the source divides floats, a
-- mean is rounded down to one.
pub mod Mean
pub mod Wedge
use gpuq.Common.{
  ℕ, Bool, true, false, ◌&&◌, List, [], ◌∷◌, Option, none, some, filter, length, take,
  if◌then◌else◌, ltb, is_some,
}
use gpuq.Common.Text.{Text, text, text_le}
use gpuq.Common.Int.{pos, ◌+ℤ◌, ◌-ℤ◌, div_ℤ, ltb_ℤ}
use gpuq.Common.Sort.{sort}
use gpuq.State.{running, done, state_eq, JobRecord, Table}
use gpuq.State.Jobs.{tag_filter}
use gpuq.Protocol.{Micros}

-- `datetime.fromisoformat`, in microseconds since a fixed instant; `none` is its ValueError.
abbrev pub Parser : Type 0
Parser = Text → Option Micros

-- What `os.kill(pid, 0)` does: returns, or raises ProcessLookupError or PermissionError.
pub data Probe : Type 0 where
  delivered no_process not_permitted : Probe

unfoldable pub pid_alive : Probe → Bool
pid_alive delivered = true
pid_alive no_process = false
pid_alive not_permitted = true

-- WHERE state='done' AND started_at IS NOT NULL AND finished_at IS NOT NULL [AND tag=?]
unfoldable pub has_runtime : Text → JobRecord → Bool
has_runtime tag r =
    state_eq r.state done
    && (is_some r.started_at && (is_some r.finished_at && tag_filter (some tag) r))

abbrev pub text_or_empty : Option Text → Text
text_or_empty none = []
text_or_empty (some s) = s

-- ORDER BY finished_at DESC
unfoldable pub finished_later : JobRecord → JobRecord → Bool
finished_later a b = text_le (text_or_empty b.finished_at) (text_or_empty a.finished_at)

-- The body of the loop: a stamp that does not parse skips the row.
abbrev pub duration_of : Option Micros → Option Micros → List Micros → List Micros
duration_of (some s) (some f) rest = (f -ℤ s) ∷ rest
duration_of _ _ rest = rest

module _ (parse : Parser) where
  unfoldable pub durations : Table → List Micros
  durations [] = []
  durations (r ∷ rows) =
      duration_of (parse (text_or_empty r.started_at)) (parse (text_or_empty r.finished_at))
        (durations rows)

abbrev pub sum : List Micros → Micros
sum [] = pos 0
sum (x ∷ xs) = x +ℤ sum xs

unfoldable pub mean : List Micros → Option Micros
mean ds = if ltb (length ds) 3 then none else some (div_ℤ (sum ds) (length ds))

unfoldable pub recent_mean_runtime : Parser → (tag : Text) → (limit : ℕ) → Table → Option Micros
recent_mean_runtime parse tag limit t =
    mean (durations parse (take limit (sort finished_later (filter (has_runtime tag) t))))

-- `log_size`: the size of combined.log, `none` if there is no such file. `alive` probes a process.
unfoldable pub wedge_pid : (alive : ℕ → Bool) → Option ℕ → Option Text
wedge_pid alive none = some (text "wedged-no-pid")
wedge_pid alive (some pid) = if alive pid then none else some (text "wedged-dead-pid")

abbrev pub has_output : Option ℕ → Bool
has_output none = false
has_output (some size) = ltb 0 size

-- The tests behind the parse of `started_at`.
unfoldable pub wedge_started :
    (log_size : Option ℕ) (now min_age : Micros) (alive : ℕ → Bool)
    → JobRecord
    → Option Micros
    → Option Text
wedge_started log_size now min_age alive job none = none
wedge_started log_size now min_age alive job (some started) =
    if ltb_ℤ (now -ℤ started) min_age
    then none
    else if has_output log_size
    then none
    else wedge_pid alive job.pid

unfoldable pub wedge_signature :
    Parser
    → (log_size : Option ℕ) (now min_age : Micros) (alive : ℕ → Bool) → JobRecord
    → Option Text
wedge_signature parse log_size now min_age alive job = elim job.started_at [
  | none ↦ none
  | some stamp ↦
      if state_eq job.state running
      then wedge_started log_size now min_age alive job (parse stamp)
      else none
]
