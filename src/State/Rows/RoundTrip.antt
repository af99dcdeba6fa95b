-- ===== src/State/Rows/RoundTrip.antt =====
-- A job that was inserted reads back.
use gpuq.Common.{◌≡◌, refl, Option, none, some, ℕ}
use gpuq.Common.Text.{Text, text_eq}
use gpuq.Common.Int.{ℤ}
use gpuq.State.{JobRecord}
use gpuq.Protocol.Json.{arr, obj, texts, text_fields}
use gpuq.Protocol.Codec.{JsonLib}
use gpuq.Protocol.Typed.Named.{as_items-texts, as_pairs-text_fields, StateNamed}
use gpuq.State.Rows.{
  string, integer, natural, cell_of, get_cell, job_to_row, row_to_job, as_pid, as_opt_integer,
  as_opt_string,
}

as_pid-cell_of : (o : Option ℕ) → as_pid (cell_of natural o) ≡ some o
as_pid-cell_of none = refl
as_pid-cell_of (some n) = refl

as_opt_integer-cell_of : (o : Option ℤ) → as_opt_integer (cell_of integer o) ≡ some o
as_opt_integer-cell_of none = refl
as_opt_integer-cell_of (some n) = refl

pub as_opt_string-cell_of : (o : Option Text) → as_opt_string (cell_of string o) ≡ some o
as_opt_string-cell_of none = refl
as_opt_string-cell_of (some s) = refl

-- Where json.loads restores the command and the environment, and the state has the constructor of its
-- name, the row that the INSERT writes reads back as the job.
pub row_to_job-job_to_row :
    (lib : JsonLib) (j : JobRecord)
    → lib.loads (lib.dumps (arr (texts j.cmd))) ≡ some (arr (texts j.cmd))
    → lib.loads (lib.dumps (obj (text_fields j.env))) ≡ some (obj (text_fields j.env))
    → StateNamed j.state
    → row_to_job lib (job_to_row lib j) ≡ some j
unfolding row_to_job job_to_row get_cell text_eq
row_to_job-job_to_row lib j cmd env named = rw cmd (
    rw (as_items-texts j.cmd) (
      rw env (
        rw (as_pairs-text_fields j.env) (
          rw (as_pid-cell_of j.pid) (
            rw (as_opt_integer-cell_of j.exit_code) (
              rw (as_opt_string-cell_of j.started_at) (
                rw (as_opt_string-cell_of j.finished_at) (
                  rw (as_opt_string-cell_of j.parent_id)
                    (rw (as_opt_string-cell_of j.description) (rw named refl))))))))))
