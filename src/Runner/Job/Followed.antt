-- ===== src/Runner/Job/Followed.antt =====
-- What a client that submits a job and follows it writes, and its exit code, for a whole run.
use gpuq.Common.{not, ◌&&◌, List, [], ◌∷◌, if◌then◌else◌}
use gpuq.Common.Text.{Text}
use gpuq.Common.Int.{ℤ, negsuc}
use gpuq.Logs.{Entry}
use gpuq.Protocol.{Event}
use gpuq.Server.{Server}
use gpuq.Server.Run.{RunResult, exited, crashed}
use gpuq.Cli.{Output, target, status}
use gpuq.Runner.{Child, exit_of}
use gpuq.Runner.Job.Handed.{Handed}

-- The lines among the events, and among what is written.
abbrev pub log_lines : List Event → List Entry
log_lines [] = []
log_lines (Event.log jid stream line ∷ evs) = (stream, line) ∷ log_lines evs
log_lines (Event.state ev ∷ evs) = log_lines evs
log_lines (Event.ollama action models ∷ evs) = log_lines evs
log_lines (Event.result payload ∷ evs) = log_lines evs
log_lines (Event.error message ∷ evs) = log_lines evs

abbrev pub written : List Output → List Entry
written [] = []
written (target stream line ∷ out) = (stream, line) ∷ written out
written (status ev ∷ out) = written out

-- How a run ends: with the exit code of a child that starts and writes no line beyond the limit.
abbrev pub ends_of : Child → RunResult
ends_of c =
    if c.starts then if c.overrun then crashed else exited (exit_of c) c.duration else crashed

abbrev pub code_of : Child → ℤ
code_of c = if c.starts && not c.overrun then exit_of c else negsuc 0
