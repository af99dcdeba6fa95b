-- ===== src/State/Jobs.antt =====
-- `class JobRepo` of src/gpuq/state.py: each method by the SQL that it runs.
use gpuq.Common.{
  Bool, true, false, not, ◌&&◌, ◌||◌, List, [], ◌∷◌, ◌++◌, Option, none, some, any, filter, head?,
  or_else, if◌then◌else◌, ℕ, is_some,
}
use gpuq.Common.Text.{Text, text_eq, text_le, truthy}
use gpuq.Common.Int.{ℤ, pos, ◌+ℤ◌, ltb_ℤ, max_ℤ}
use gpuq.Common.Sort.{sort}
use gpuq.State.{JobState, queued, starting, running, state_eq, state_truthy, JobRecord, Table}

-- WHERE id=?
abbrev pub has_id : Text → JobRecord → Bool
has_id jid r = text_eq r.id jid

-- SELECT * FROM jobs WHERE id=?, fetchone()
unfoldable pub get : Text → Table → Option JobRecord
get jid [] = none
get jid (r ∷ t) = if has_id jid r then some r else get jid t

-- INSERT INTO jobs. `id` is the primary key: a second row with it raises IntegrityError (`none`).
unfoldable pub insert_job : JobRecord → Table → Option Table
insert_job j t = if is_some (get j.id t) then none else some (t ++ j ∷ [])

-- DELETE FROM jobs WHERE id=?, and whether a row was deleted.
unfoldable pub delete : Text → Table → Bool × Table
delete jid t = (any (has_id jid) t, filter (λ r. not (has_id jid r)) t)

-- ORDER BY priority DESC, submitted_at ASC: `a` may stand before `b`.
unfoldable pub row_le : JobRecord → JobRecord → Bool
row_le a b =
    if ltb_ℤ b.priority a.priority
    then true
    else if ltb_ℤ a.priority b.priority
    then false
    else text_le a.submitted_at b.submitted_at

-- The optional filters of `find`: `None` and what is falsy filter nothing.
abbrev pub state_filter : Option JobState → JobRecord → Bool
state_filter none r = true
state_filter (some s) r = if state_truthy s then state_eq r.state s else true

abbrev pub states_filter : Option (List JobState) → JobRecord → Bool
states_filter none r = true
states_filter (some []) r = true
states_filter (some (s ∷ ss)) r = any (state_eq r.state) (s ∷ ss)

abbrev pub tag_filter : Option Text → JobRecord → Bool
tag_filter none r = true
tag_filter (some tag) r = if truthy tag then text_eq r.tag tag else true

abbrev pub since_filter : Option Text → JobRecord → Bool
since_filter none r = true
since_filter (some since) r = if truthy since then text_le since r.submitted_at else true

pub record Filters : Type 0 where
  pub state : Option JobState
  pub states : Option (List JobState)
  pub tag : Option Text
  pub since : Option Text

abbrev pub no_filters : Filters
no_filters = record { state = none; states = none; tag = none; since = none }

unfoldable pub matches : Filters → JobRecord → Bool
matches f r =
    state_filter f.state r
    && (states_filter f.states r && (tag_filter f.tag r && since_filter f.since r))

unfoldable pub find : Filters → Table → Table
find f t = sort row_le (filter (matches f) t)

-- The keyword arguments of `update_state`.
pub record Change : Type 0 where
  pub state : JobState
  pub pid : Option ℕ
  pub exit_code : Option ℤ
  pub started_at : Option Text
  pub finished_at : Option Text

abbrev pub to_state : JobState → Change
to_state s = record {
  state = s;
  pid = none;
  exit_code = none;
  started_at = none;
  finished_at = none;
}

-- The SET list: a keyword that is `None` is left out, so the column keeps its value.
abbrev pub apply_change : Change → JobRecord → JobRecord
apply_change c r = record r {
  state = c.state;
  pid = or_else c.pid r.pid;
  exit_code = or_else c.exit_code r.exit_code;
  started_at = or_else c.started_at r.started_at;
  finished_at = or_else c.finished_at r.finished_at;
}

-- UPDATE jobs SET … WHERE id=?
unfoldable pub update_where : Text → (JobRecord → JobRecord) → Table → Table
update_where jid f [] = []
update_where jid f (r ∷ t) = (if has_id jid r then f r else r) ∷ update_where jid f t

unfoldable pub update_state : Text → Change → Table → Table
update_state jid c t = update_where jid (apply_change c) t

abbrev pub is_queued : JobRecord → Bool
is_queued r = state_eq r.state queued

-- SELECT MAX(priority) … : NULL where no row is left.
unfoldable pub max_priority : Table → Option ℤ
max_priority [] = none
max_priority (r ∷ t) = elim (max_priority t) [
  | none ↦ some r.priority
  | some m ↦ some (max_ℤ r.priority m)
]

-- AND id != ?, unless `exclude` is None.
abbrev pub excluded : Option Text → JobRecord → Bool
excluded none r = false
excluded (some jid) r = has_id jid r

unfoldable pub max_queued_priority : Option Text → Table → Option ℤ
max_queued_priority exclude t =
    max_priority (filter (λ r. is_queued r && not (excluded exclude r)) t)

-- `(top + 1) if top is not None else 1`
unfoldable pub above : Option ℤ → ℤ
above none = pos 1
above (some top) = top +ℤ pos 1

abbrev pub set_priority : ℤ → JobRecord → JobRecord
set_priority p r = record r { priority = p }

unfoldable pub bump : Text → Table → Bool × Table
bump jid t = elim (get jid t) [
  | none ↦ (false, t)
  | some rec ↦
      if is_queued rec
      then (true, update_where jid (set_priority (above (max_queued_priority (some jid) t))) t)
      else (false, t)
]

-- ORDER BY priority DESC, submitted_at ASC LIMIT 1
unfoldable pub next_queued : Table → Option JobRecord
next_queued t = head? (sort row_le (filter is_queued t))

-- state IN ('starting','running')
abbrev pub is_active : JobRecord → Bool
is_active r = state_eq r.state starting || state_eq r.state running

unfoldable pub running_jobs : Table → Table
running_jobs t = filter is_active t
