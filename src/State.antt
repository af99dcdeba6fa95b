-- ===== src/State.antt =====
-- src/gpuq/state.py: the rows of the two SQLite tables. `cmd` and `env` are stored as JSON and read
-- back by `_row_to_job`; a row holds the values themselves. The tables are lists in rowid order.
pub mod Jobs
pub mod Leases
pub mod Keys
pub mod Store
pub mod Over
pub mod Order
pub mod Select
pub mod Priority
pub mod Rows
use gpuq.Common.{ℕ, Bool, true, false, List, Option}
use gpuq.Common.Text.{Text, text, text_eq, truthy}
use gpuq.Common.Int.{ℤ}

-- `JobState = str`: the six names that the program writes, and any other string, which a request
-- may hold as a filter (`other []` is the empty string).
pub data JobState : Type 0 where
  queued starting running done failed cancelled : JobState
  other : Text → JobState

-- The string itself.
abbrev pub state_name : JobState → Text
state_name queued = text "queued"
state_name starting = text "starting"
state_name running = text "running"
state_name done = text "done"
state_name failed = text "failed"
state_name cancelled = text "cancelled"
state_name (other s) = s

-- Equality of two state names.
unfoldable pub state_eq : JobState → JobState → Bool
unfolding text_eq
state_eq queued queued = true
state_eq starting starting = true
state_eq running running = true
state_eq done done = true
state_eq failed failed = true
state_eq cancelled cancelled = true
state_eq (other a) (other b) = text_eq a b
state_eq _ _ = false

-- `if state:`
abbrev pub state_truthy : JobState → Bool
state_truthy (other s) = truthy s
state_truthy _ = true

-- `state in ("done", "failed", "cancelled")`
abbrev pub is_terminal : JobState → Bool
is_terminal done = true
is_terminal failed = true
is_terminal cancelled = true
is_terminal _ = false

pub record JobRecord : Type 0 where
  pub id : Text
  pub cmd : List Text
  pub cwd : Text
  pub env : List (Text × Text)
  pub tag : Text
  pub priority : ℤ
  pub state : JobState
  pub pid : Option ℕ
  pub exit_code : Option ℤ
  pub submitted_at : Text
  pub started_at : Option Text
  pub finished_at : Option Text
  pub parent_id : Option Text
  pub description : Option Text

abbrev pub Table : Type 0
Table = List JobRecord

pub record LeaseRecord : Type 0 where
  pub id : Text
  pub reason : Option Text
  pub granted_at : Option Text
  pub expires_at : Option Text
  pub released_at : Option Text
