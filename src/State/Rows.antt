-- ===== src/State/Rows.antt =====
-- The rows of the table `jobs` as SQLite keeps them: `_row_to_job`, the arguments of the INSERT, and
-- the columns that `Store.init` of src/gpuq/state.py creates and adds.
pub mod RoundTrip
pub mod LeaseRows
pub mod Migrated
use mathlib.Core.Option
use gpuq.Common.{
  ◌>>=◌, ◌&&◌, ℕ, ◌≡◌, refl, Bool, true, false, List, [], ◌∷◌, ◌++◌, map, Option, none, some, any,
  if◌then◌else◌,
}
use gpuq.Common.Text.{Text, text, text_eq}
use gpuq.Common.Int.{ℤ, pos, negsuc}
use gpuq.State.{JobRecord, state_name}
use gpuq.Protocol.Json.{Json, arr, obj, texts, text_fields}
use gpuq.Protocol.Codec.{JsonLib}
use gpuq.Protocol.Typed.{as_texts, as_env, state_of}

pub data Cell : Type 0 where
  null : Cell
  integer : ℤ → Cell
  string : Text → Cell

-- The columns of a row with their cells.
abbrev pub Row : Type 0
Row = List (Text × Cell)

-- `r[k]`; `none` is the IndexError of a column that is not there.
unfoldable pub get_cell : Text → Row → Option Cell
get_cell k [] = none
get_cell k ((j, c) ∷ row) = if text_eq j k then some c else get_cell k row

abbrev pub cell_of {ℓ} : {A : Type ℓ} → (A → Cell) → Option A → Cell
cell_of f none = null
cell_of f (some a) = f a

abbrev pub natural : ℕ → Cell
natural n = integer (pos n)

module _ (lib : JsonLib) where
  -- The columns and values of the INSERT.
  unfoldable pub job_to_row : JobRecord → Row
  job_to_row j =
      (text "id", string j.id)
      ∷ (text "cmd", string (lib.dumps (arr (texts j.cmd))))
      ∷ (text "cwd", string j.cwd)
      ∷ (text "env", string (lib.dumps (obj (text_fields j.env))))
      ∷ (text "tag", string j.tag)
      ∷ (text "priority", integer j.priority)
      ∷ (text "state", string (state_name j.state))
      ∷ (text "pid", cell_of natural j.pid)
      ∷ (text "exit_code", cell_of integer j.exit_code)
      ∷ (text "submitted_at", string j.submitted_at)
      ∷ (text "started_at", cell_of string j.started_at)
      ∷ (text "finished_at", cell_of string j.finished_at)
      ∷ (text "parent_id", cell_of string j.parent_id)
      ∷ (text "description", cell_of string j.description)
      ∷ []

-- A cell as the value that its column holds; `none` for a cell of another type.
abbrev pub as_string : Cell → Option Text
as_string (string s) = some s
as_string _ = none

abbrev pub as_integer : Cell → Option ℤ
as_integer (integer n) = some n
as_integer _ = none

abbrev pub as_pid : Cell → Option (Option ℕ)
as_pid null = some none
as_pid (integer (pos n)) = some (some n)
as_pid _ = none

abbrev pub as_opt_integer : Cell → Option (Option ℤ)
as_opt_integer null = some none
as_opt_integer (integer n) = some (some n)
as_opt_integer _ = none

abbrev pub as_opt_string : Cell → Option (Option Text)
as_opt_string null = some none
as_opt_string (string s) = some (some s)
as_opt_string _ = none

-- `r[k] if k in keys else None`
abbrev pub cell_or_null : Option Cell → Cell
cell_or_null none = null
cell_or_null (some c) = c

module _ (lib : JsonLib) where
  unfoldable pub row_to_job : Row → Option JobRecord
  row_to_job r = do
    id ← get_cell (text "id") r >>= as_string
    cmd ← get_cell (text "cmd") r >>= as_string
    args ← lib.loads cmd >>= as_texts
    cwd ← get_cell (text "cwd") r >>= as_string
    env ← get_cell (text "env") r >>= as_string
    vars ← lib.loads env >>= as_env
    tag ← get_cell (text "tag") r >>= as_string
    priority ← get_cell (text "priority") r >>= as_integer
    state ← get_cell (text "state") r >>= as_string
    pid ← get_cell (text "pid") r >>= as_pid
    exit_code ← get_cell (text "exit_code") r >>= as_opt_integer
    submitted ← get_cell (text "submitted_at") r >>= as_string
    started ← get_cell (text "started_at") r >>= as_opt_string
    finished ← get_cell (text "finished_at") r >>= as_opt_string
    parent ← as_opt_string (cell_or_null (get_cell (text "parent_id") r))
    description ← as_opt_string (cell_or_null (get_cell (text "description") r))
    some (record {
      id = id;
      cmd = args;
      cwd = cwd;
      env = vars;
      tag = tag;
      priority = priority;
      state = state_of state;
      pid = pid;
      exit_code = exit_code;
      submitted_at = submitted;
      started_at = started;
      finished_at = finished;
      parent_id = parent;
      description = description;
    })

-- The table `jobs` of a database file: its columns, `none` if there is no such table, and its rows.
pub record Database : Type 0 where
  pub columns : Option (List Text)
  pub indexed : Bool
  pub rows : List Row

-- The columns of `_SCHEMA`.
abbrev pub schema_columns : List Text
schema_columns =
    text "id"
    ∷ text "cmd"
    ∷ text "cwd"
    ∷ text "env"
    ∷ text "tag"
    ∷ text "priority"
    ∷ text "state"
    ∷ text "pid"
    ∷ text "exit_code"
    ∷ text "submitted_at"
    ∷ text "started_at"
    ∷ text "finished_at"
    ∷ text "parent_id"
    ∷ text "description"
    ∷ []

-- CREATE TABLE IF NOT EXISTS
unfoldable pub create_table : Database → Database
create_table d = elim (d.columns) [
  | none ↦ record d { columns = some schema_columns; rows = [] }
  | some cols ↦ d
]

-- The columns of `_MIGRATIONS`.
abbrev pub migrations : List Text
migrations = text "parent_id" ∷ text "description" ∷ []

-- ALTER TABLE jobs ADD COLUMN: NULL in every row.
unfoldable pub add_column : Text → Database → Database
add_column col d = record d {
  columns = Option.map (λ cols. cols ++ col ∷ []) d.columns;
  rows = map (λ (r : Row). r ++ (col, null) ∷ []) d.rows;
}

unfoldable pub migrate : (existing : List Text) → List Text → Database → Database
migrate existing [] d = d
migrate existing (col ∷ cols) d =
    migrate existing cols (if any (text_eq col) existing then d else add_column col d)

abbrev pub columns_of : Database → List Text
columns_of d = elim (d.columns) [ none ↦ [] | some cols ↦ cols ]

abbrev pub has_column : Text → Database → Bool
has_column col d = any (text_eq col) (columns_of d)

-- CREATE INDEX IF NOT EXISTS: `none` is the OperationalError for a column that is missing.
unfoldable pub create_index : Database → Option Database
create_index d =
    if d.indexed
    then some d
    else if has_column (text "state") d
        && (has_column (text "priority") d && has_column (text "submitted_at") d)
    then some (record d { indexed = true })
    else none

-- What follows the schema: PRAGMA table_info and the migrations.
abbrev pub migrated : Database → Database
migrated d = migrate (columns_of d) migrations d

unfoldable pub init : Database → Option Database
init d = do d' ← create_index (create_table d); some (migrated d')
