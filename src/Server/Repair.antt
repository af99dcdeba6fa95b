-- ===== src/Server/Repair.antt =====
-- `_handle_doctor` and `_handle_prune` of src/gpuq/daemon/server.py.
pub mod PruneLaws
pub mod DoctorLaws
pub mod Kept
use gpuq.Common.{
  ℕ, Bool, true, false, not, ◌&&◌, List, [], ◌∷◌, Option, none, some, filter, any, if◌then◌else◌,
}
use gpuq.Common.Text.{Text, text, text_eq, text_le, truthy}
use gpuq.State.{
  JobState, queued, starting, running, done, failed, cancelled, state_eq, JobRecord, Table,
}
use gpuq.State.Jobs.{find, no_filters, update_state, delete}
use gpuq.Queue.Runtime.{Parser, wedge_signature}
use gpuq.Protocol.{Doctor, Prune, Event, Payload, Wedged, Micros}
use gpuq.Server.{Server, jobs, with_jobs, Outcome, answers, lost_change}

-- What `doctor` reads from outside: the parser of stamps, the time, each job's log size, and which
-- processes are alive; and the readings of `_now()` at its updates.
pub record Surroundings : Type 0 where
  pub parse : Parser
  pub now : Micros
  pub log_size : Text → Option ℕ
  pub alive : ℕ → Bool
  pub clock : Text → Text

-- `self._current_job_id == jid`
abbrev pub is_current : Text → Option Text → Bool
is_current jid none = false
is_current jid (some current) = text_eq current jid

abbrev pub listed : List Text → JobRecord → Bool
listed [] j = true
listed (i ∷ ids) j = any (text_eq j.id) (i ∷ ids)

unfoldable pub candidates : Doctor → Server → Table
candidates req s =
    filter (listed req.ids) (find (record no_filters { state = some running }) (jobs s))

unfoldable pub signature_of : Surroundings → Doctor → JobRecord → Option Text
signature_of w req j = wedge_signature w.parse (w.log_size j.id) w.now req.min_age_s w.alive j

abbrev pub wedged_entry : JobRecord → Text → Wedged
wedged_entry j sig = record {
  id = j.id;
  signature = sig;
  pid = j.pid;
  started_at = j.started_at;
  fixed = none;
  reason = none;
}

-- The body of the loop for a wedged job.
unfoldable pub treat : Surroundings → Doctor → JobRecord → Text → Server → Wedged × Server
treat w req j sig s =
    if not req.fix
    then (wedged_entry j sig, s)
    else if is_current j.id s.current_job_id
    then (record (wedged_entry j sig) { fixed = some false; reason = some (text "current_job") }, s)
    else (
      record (wedged_entry j sig) { fixed = some true },
      with_jobs s (update_state j.id (lost_change (w.clock j.id)) (jobs s)),
    )

-- The loop: the entries, and the server that it leaves. It awaits nothing.
unfoldable pub examine : Surroundings → Doctor → Table → Server → List Wedged × Server
examine w req [] s = ([], s)
examine w req (j ∷ rows) s = elim (signature_of w req j) [
  | none ↦ examine w req rows s
  | some sig ↦
      let (entry, s') = treat w req j sig s in
      let (entries, s'') = examine w req rows s' in (entry ∷ entries, s'')
]

unfoldable pub handle_doctor : Surroundings → Doctor → Server → Outcome
handle_doctor w req s =
    let (entries, s') = examine w req (candidates req s) s in
    answers s' (Event.result (Payload.wedged entries req.fix))

-- `req.states or [...]`, without the states of jobs that have not ended.
abbrev pub states_or_default : List JobState → List JobState
states_or_default [] = done ∷ failed ∷ cancelled ∷ []
states_or_default (s ∷ ss) = s ∷ ss

abbrev pub may_prune : JobState → Bool
may_prune s = not (state_eq s queued) && (not (state_eq s running) && not (state_eq s starting))

unfoldable pub prune_states : Prune → List JobState
prune_states req = filter may_prune (states_or_default req.states)

-- `j.finished_at or j.submitted_at`: an empty stamp is falsy.
abbrev pub stamp_of : JobRecord → Text
stamp_of j = elim j.finished_at [
  | none ↦ j.submitted_at
  | some [] ↦ j.submitted_at
  | some stamp ↦ stamp
]

-- What the loop's two `continue`s leave.
unfoldable pub is_pruned : (cutoff : Text) → Prune → JobRecord → Bool
is_pruned cutoff req j =
    not (truthy req.keep_tag && text_eq j.tag req.keep_tag) && not (text_le cutoff (stamp_of j))

unfoldable pub delete_job : Text → Server → Server
delete_job jid s = record (with_jobs s (delete jid (jobs s)).1) {
  log_dirs = filter (λ d. not (text_eq d jid)) s.log_dirs;
}

-- The loop over the candidates: the ids reported, and the server that it leaves.
unfoldable pub sweep : (cutoff : Text) → Prune → Table → Server → List Text × Server
sweep cutoff req [] s = ([], s)
sweep cutoff req (j ∷ rows) s =
    let (ids, s') =
      sweep cutoff req rows
        (if is_pruned cutoff req j && not req.dry_run then delete_job j.id s else s) in
    (if is_pruned cutoff req j then (j.id ∷ ids, s') else (ids, s'))

unfoldable pub prune_candidates : Prune → Server → Table
prune_candidates req s = find (record no_filters { states = some (prune_states req) }) (jobs s)

-- `cutoff`: the stamp of the time `older_than_s` before now.
unfoldable pub handle_prune : (cutoff : Text) → Prune → Server → Outcome
handle_prune cutoff req s =
    let (ids, s') = sweep cutoff req (prune_candidates req s) s in
    answers s' (Event.result (Payload.deleted ids req.dry_run))
