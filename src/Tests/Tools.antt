-- ===== src/Tests/Tools.antt =====
-- The properties of the command line, of the rows, the runner's environment, the evictions and the
-- estimate, applied at the samples.
use gpuq.Common.{
  ◌≡◌, inr, take, refl, false, List, [], ◌∷◌, map, Option, none, some, arith, if◌then◌else◌, length,
}
use gpuq.Common.Text.{Text, text, text_eq}
use gpuq.Common.Int.{pos, times_ℤ, ◌≤ℤ◌, ◌+ℤ◌, ◌-ℤ◌, div_ℤ}
use gpuq.Common.Strings.{is_space, is_break}
use gpuq.Common.Strings.Laws.{unlines}
use gpuq.State.{JobRecord}
use gpuq.State.Rows.{Database, job_to_row, row_to_job, schema_columns}
use gpuq.State.Rows.RoundTrip.{row_to_job-job_to_row}
use gpuq.Protocol.{Request, Retry, Micros}
use gpuq.Protocol.Json.{Json, arr, obj, texts, text_fields}
use gpuq.Protocol.Codec.{JsonLib}
use gpuq.Protocol.Typed.{state_of}
use gpuq.Runner.{Env}
use gpuq.Ollama.{ended, evict, stop_command}
use gpuq.Ollama.Evicted.{row, evict-table}
use gpuq.Server.{Server}
use gpuq.Server.Eta.{compute_eta}
use gpuq.Server.Eta.Bounds.{compute_eta_bounds}
use gpuq.Queue.Runtime.{Parser}
use gpuq.Queue.Runtime.Mean.{RanWithin}
use gpuq.Cli.Duration.{unit_seconds}
use gpuq.Cli.Requests.{PruneOptions, send, prune_request}
use gpuq.Cli.Requests.Sent.{prune_request_lem}
use gpuq.Tests.Samples.{run_program, server, d}

-- A JSON library that knows the command and the environment of the sample jobs.
abbrev shapes : Json → Text
shapes (arr xs) = text "[]"
shapes _ = []

abbrev lib : JsonLib
lib = record {
  dumps = shapes;
  loads = λ s. if text_eq s [] then some (obj (text_fields d.env)) else some (arr (texts d.cmd));
  repr = λ v. [];
  decode_error = λ s. [];
}

row_to_job-job_to_row_example : row_to_job lib (job_to_row lib d) ≡ some d
unfolding text_eq state_of
row_to_job-job_to_row_example = row_to_job-job_to_row lib d refl refl refl

-- A database of an older version: no column for the parent and the description.
abbrev old_columns : List Text
old_columns = take 12 schema_columns

abbrev old : Database
old = record { columns = some old_columns; indexed = false; rows = take 12 (job_to_row lib d) ∷ [] }

abbrev own : Env
own = (text "A", text "1") ∷ []

abbrev outer : Env
outer = (text "A", text "0") ∷ (text "B", text "2") ∷ []

abbrev models : List (Text × Text)
models = (text "phi", text "1 GB") ∷ []

evict-table_example :
    evict (ended (pos 0) (unlines (text "NAME SIZE" ∷ map row models)))
    ≡ some
        (map (λ (r : Text × Text). r.0) models, map (λ (r : Text × Text). stop_command r.0) models)
unfolding is_space is_break
evict-table_example = evict-table (text "NAME SIZE") models (ground arith) (ground arith)

abbrev lengths : Parser
lengths s = some (pos (length s))

abbrev timed : JobRecord
timed = record d { started_at = some (text "a"); finished_at = some (text "abcd") }

abbrev experienced : Server
experienced = record server { queue = record { jobs = timed ∷ timed ∷ timed ∷ []; notify = false } }

timed-RanWithin : RanWithin 2 4 lengths timed
unfolding ◌-ℤ◌
timed-RanWithin = (omega arith, omega arith)

compute_eta_bounds_example :
    (left : Micros) × (start : Micros) × (later : Micros) × (compute_eta lengths
        (pos 0)
        d
        (some 2)
        experienced
      ≡ (some left, some start))
    × (compute_eta lengths (pos 0) d (some 3) experienced ≡ (some left, some later))
    × (pos 0 ≤ℤ left)
    × (left +ℤ times_ℤ 1 (pos 2) ≤ℤ start)
    × (start ≤ℤ left +ℤ times_ℤ 1 (pos 4))
    × (start ≤ℤ later)
unfolding run_program div_ℤ
compute_eta_bounds_example =
    compute_eta_bounds lengths (pos 0) (pos 3) d 2 4 2 3 experienced refl
      (timed-RanWithin, (timed-RanWithin, (timed-RanWithin, tt))) (omega arith)

-- `gpuq prune --older-than 7d --state done,failed`
abbrev week : PruneOptions
week = record {
  older_than = text "7d";
  states_csv = some (text "done,failed");
  keep_tag = [];
  dry_run = false;
}

abbrev seven : Text → Option Micros
seven s = if text_eq s (text "7") then some (pos 7000000) else none

prune_request_lem_example :
    prune_request seven week
    ≡ send (
        Request.prune (record {
          older_than_s = times_ℤ 86400 (pos 7000000);
          states = map state_of (text "done" ∷ text "failed" ∷ []);
          keep_tag = [];
          dry_run = false;
        }))
unfolding text_eq is_space unit_seconds
prune_request_lem_example =
    prune_request_lem seven week (text "7") 100 86400 (pos 7000000) (text "done")
      (text "failed" ∷ []) refl (ground arith) (inr (inr (inr (refl, refl)))) refl refl
      (ground arith)

abbrev again : Retry
again = record { id = text "j_d"; force = false }
