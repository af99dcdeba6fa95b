-- ===== src/Server/Submit.antt =====
-- `_handle_submit`, up to its stream, and `_handle_retry` of src/gpuq/daemon/server.py. The id that
-- `new_job_id` draws, the clock's readings and the parser of stamps are arguments.
pub mod Stored
pub mod Kept
use gpuq.Common.{Bool, true, false, [], ◌∷◌, ◌++◌, Option, none, some, if◌then◌else◌}
use gpuq.Common.Text.{Text, text}
use gpuq.Common.Int.{ℤ}
use gpuq.State.{JobState, queued, done, failed, cancelled, state_name, JobRecord, Table}
use gpuq.State.Jobs.{get, max_queued_priority, above}
use gpuq.Queue.{enqueue, position}
use gpuq.Queue.Runtime.{Parser}
use gpuq.Bus.{subscribe, unsubscribe}
use gpuq.Protocol.{Submit, Retry, Event, StateEvent, Payload, Micros}
use gpuq.Server.{Server, jobs, Outcome, answers, job_dict_or_none}
use gpuq.Server.Eta.{compute_eta}

-- `s or None`
abbrev pub text_or_none : Text → Option Text
text_or_none [] = none
text_or_none (c ∷ s) = some (c ∷ s)

unfoldable pub submit_priority : Submit → Table → ℤ
submit_priority req t = if req.next_ then above (max_queued_priority none t) else req.priority

unfoldable pub submit_record : (jid now : Text) → Submit → Table → JobRecord
submit_record jid now req t = record {
  id = jid;
  cmd = req.cmd;
  cwd = req.cwd;
  env = req.env;
  tag = req.tag;
  priority = submit_priority req t;
  state = queued;
  pid = none;
  exit_code = none;
  submitted_at = now;
  started_at = none;
  finished_at = none;
  parent_id = text_or_none req.parent_id;
  description = text_or_none req.description;
}

abbrev pub state_event : Text → JobState → StateEvent
state_event jid s = record {
  id = jid;
  state = s;
  position = none;
  pid = none;
  started_at = none;
  exit_code = none;
  duration_s = none;
  eta_running_s = none;
  eta_start_s = none;
}

-- The event that answers a submission.
unfoldable pub queued_event : Parser → (now : Micros) → JobRecord → Server → Event
queued_event parse now rec s =
    let pos = position rec.id s.queue in
    let (eta_running, eta_start) = compute_eta parse now rec pos s in
    Event.state (record (state_event rec.id queued) {
      position = pos;
      eta_running_s = eta_running;
      eta_start_s = eta_start;
    })

-- The key of the client's subscription, if it goes on to stream, and the outcome. The subscription
-- precedes `enqueue`, and stays if that raises.
unfoldable pub handle_submit :
    Parser → (now : Micros) → (jid stamp : Text) → Submit → Server → Outcome
handle_submit parse now jid stamp req s =
    let rec = submit_record jid stamp req (jobs s) in
    let (key, bus) = subscribe jid s.bus in
    elim (enqueue rec s.queue) [
      | none ↦ record { sent = []; after = record s { bus = bus }; raised = true }
      | some q ↦
          let s' = record s { queue = q; bus = bus } in
          let ev = queued_event parse now rec s' in
          answers (if req.detach then record s' { bus = unsubscribe jid key bus } else s') ev
    ]

abbrev pub retry_allowed : (force : Bool) → JobState → Bool
retry_allowed force failed = true
retry_allowed force cancelled = true
retry_allowed force done = force
retry_allowed force _ = false

unfoldable pub retry_record : (jid now : Text) → JobRecord → JobRecord
retry_record jid now rec = record rec {
  id = jid;
  state = queued;
  pid = none;
  exit_code = none;
  submitted_at = now;
  started_at = none;
  finished_at = none;
  parent_id = some rec.id;
}

unfoldable pub retry_enqueue : Text → JobRecord → Server → Outcome
retry_enqueue jid new_rec s = elim (enqueue new_rec s.queue) [
  | none ↦ record { sent = []; after = s; raised = true }
  | some q ↦
      answers (record s { queue = q })
        (Event.result (Payload.ok_job (job_dict_or_none (get jid q.jobs))))
]

unfoldable pub handle_retry : (jid now : Text) → Retry → Server → Outcome
handle_retry jid now req s = elim (get req.id (jobs s)) [
  | none ↦ answers s (Event.result (Payload.refused (text "unknown")))
  | some rec ↦
      if retry_allowed req.force rec.state
      then retry_enqueue jid (retry_record jid now rec) s
      else answers s (Event.result (Payload.refused (text "state=" ++ state_name rec.state)))
]
