-- ===== src/Tests/Whole.antt =====
-- A whole run at the samples: what its client writes, and the exit code.
use gpuq.Common.{true, false, [], ◌∷◌, none, some}
use gpuq.Common.Text.{text}
use gpuq.Common.Int.{pos}
use gpuq.Logs.{JobLogs, no_output}
use gpuq.Bus.{subscribe}
use gpuq.Protocol.{Stream}
use gpuq.Server.{Server}
use gpuq.Runner.Job.{Course}
use gpuq.Runner.Job.Handed.{Handed}
use gpuq.Tests.Samples.{server, now}

-- A run that prints two lines and exits with 3 behind a wait that times out once.
abbrev course : Course
course = record {
  evicted = text "phi" ∷ [];
  started = now;
  shown = now;
  ended = now;
  pid = 7;
  child = record {
    starts = true;
    output = (Stream.stdout, text "one\n") ∷ (Stream.stderr, text "two\n") ∷ [];
    overrun = false;
    first = none;
    second = some (pos 3);
    duration = pos 9;
  };
}

abbrev blank : JobLogs
blank = record { files = some no_output; opened = true; next_key = 0; waiters = [] }

abbrev watched : Server
watched = record server { bus = (subscribe (text "j_e") server.bus).1 }
