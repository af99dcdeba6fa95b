-- ===== src/Queue.antt =====
-- `class Queue` of src/gpuq/daemon/queue.py: a priority FIFO over the table of jobs. `notify` is
-- the flag of its asyncio.Event; no method awaits, so each is one step. The clock's reading `_now()`
-- is an argument.
pub mod View
pub mod Runtime
pub mod Fifo
pub mod Wakeup
use gpuq.Common.{ℕ, suc, ◌+◌, Bool, true, false, List, [], ◌∷◌, Option, none, some, if◌then◌else◌}
use gpuq.Common.Text.{Text}
use gpuq.Common.Int.{ℤ}
use gpuq.State.{JobState, queued, starting, cancelled, state_eq, JobRecord, Table}
use gpuq.State.Jobs.{
  has_id, get, insert_job, is_queued, find, Filters, no_filters, Change, to_state, update_state,
  next_queued,
}

pub record Queue : Type 0 where
  pub jobs : Table
  pub notify : Bool

-- `Queue(store)`: a new Event is not set.
unfoldable pub new_queue : Table → Queue
new_queue t = record { jobs = t; notify = false }

-- `none`: the IntegrityError of a duplicate id, raised before `notify.set()`.
unfoldable pub enqueue : JobRecord → Queue → Option Queue
enqueue j q = elim (insert_job j q.jobs) [
  | none ↦ none
  | some t ↦ some (record { jobs = t; notify = true })
]

-- The change that `pop` writes.
abbrev pub start_change : Text → Change
start_change now = record (to_state starting) { started_at = some now }

-- The row is returned as it was read, before the update.
unfoldable pub pop : Text → Queue → Option JobRecord × Queue
pop now q = elim (next_queued q.jobs) [
  | none ↦ (none, record q { notify = false })
  | some nxt ↦ (some nxt, record q { jobs = update_state nxt.id (start_change now) q.jobs })
]

-- `for i, j in enumerate(rows, start=n)`
unfoldable pub index_from : ℕ → Text → Table → Option ℕ
index_from n jid [] = none
index_from n jid (j ∷ rows) = if has_id jid j then some n else index_from (n + 1) jid rows

unfoldable pub position : Text → Queue → Option ℕ
position jid q = index_from 1 jid (find (record no_filters { state = some queued }) q.jobs)

-- The change that `cancel` writes.
abbrev pub cancel_change : Text → Change
cancel_change now = record (to_state cancelled) { finished_at = some now }

unfoldable pub cancel : Text → Text → Queue → Bool × Queue
cancel jid now q = elim (get jid q.jobs) [
  | none ↦ (false, q)
  | some rec ↦
      if is_queued rec
      then (true, record q { jobs = update_state jid (cancel_change now) q.jobs })
      else (false, q)
]
