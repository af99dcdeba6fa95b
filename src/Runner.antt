-- ===== src/Runner.antt =====
-- `class Runner` of src/gpuq/daemon/runner.py. What the child process does is an argument.
pub mod Environment
pub mod Job
use gpuq.Common.{
  ℕ, Bool, true, false, not, List, [], ◌∷◌, Option, none, some, is_some, or_else, if◌then◌else◌,
}
use gpuq.Common.Text.{Text, text, text_eq}
use gpuq.Common.Int.{ℤ, pos, negsuc}
use gpuq.Logs.{Entry, JobLogs, append_all}
use gpuq.Protocol.{Signal, Micros}
use gpuq.Server.Run.{RunResult, exited, crashed}

-- A dict of strings: `d.get(k)` and `d[k] = v`.
abbrev pub Env : Type 0
Env = List (Text × Text)

unfoldable pub get_key : Text → Env → Option Text
get_key k [] = none
get_key k ((j, v) ∷ env) = if text_eq j k then some v else get_key k env

unfoldable pub set_key : Text → Text → Env → Env
set_key k v [] = (k, v) ∷ []
set_key k v ((j, w) ∷ env) = if text_eq j k then (j, v) ∷ env else (j, w) ∷ set_key k v env

-- `{**env, **other}`
unfoldable pub update : Env → Env → Env
update env [] = env
update env ((k, v) ∷ other) = update (set_key k v env) other

unfoldable pub set_default : Text → Text → Env → Env
set_default k v env = if is_some (get_key k env) then env else set_key k v env

-- The child's environment.
unfoldable pub full_env : (environ env : Env) → Env
full_env environ env = set_default (text "CUDA_VISIBLE_DEVICES") (text "0") (update environ env)

-- A child: whether it starts, the lines that the two pumps read, in the order in which they append
-- them, whether one of them then meets a line beyond the limit of its StreamReader, whose `readline`
-- raises ValueError, and its exit code where `wait()` returns within 10 seconds, or within 2 more.
pub record Child : Type 0 where
  pub starts : Bool
  pub output : List Entry
  pub overrun : Bool
  pub first : Option ℤ
  pub second : Option ℤ
  pub duration : Micros

-- `returncode`: -1 if the child is not reaped even after the kill.
unfoldable pub exit_of : Child → ℤ
exit_of c = elim (c.first) [
  | some rc ↦ rc
  | none ↦ elim (c.second) [ some rc ↦ rc | none ↦ negsuc 0 ]
]

-- The child is sent SIGKILL by `run` itself.
unfoldable pub is_killed : Child → Bool
is_killed c = not (is_some c.first)

-- What `run` ends with, and the logs that it leaves.
unfoldable pub run : Child → JobLogs → RunResult × JobLogs
run c logs =
    if c.starts
    then elim (append_all c.output logs) [
      | none ↦ (crashed, logs)
      | some logs' ↦ (if c.overrun then crashed else exited (exit_of c) c.duration, logs')
    ]
    else (crashed, logs)

-- The process of a runner: none yet, or one with its `returncode`.
pub data Proc : Type 0 where
  no_process : Proc
  process : (returncode : Option ℤ) → Proc

pub data Posix : Type 0 where
  sigterm sigkill : Posix

-- The signal that is sent; every name but TERM is SIGKILL.
unfoldable pub signal : Proc → Signal → Option Posix
signal no_process s = none
signal (process (some rc)) s = none
signal (process none) Signal.term = some sigterm
signal (process none) Signal.kill = some sigkill
signal (process none) (Signal.other_signal s) = some sigkill
