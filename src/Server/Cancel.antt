-- ===== src/Server/Cancel.antt =====
-- `_handle_cancel` and `_wait_terminal` of src/gpuq/daemon/server.py. What the event loop does while
-- a handler sleeps is an argument: the servers that it sees at its polls, up to the deadline.
pub mod Ended
pub mod Signals
pub mod Timed
pub mod Killed
use gpuq.Common.{
  Bool, true, false, not, ◌&&◌, List, [], ◌∷◌, ◌++◌, Option, none, some, if◌then◌else◌,
}
use gpuq.Common.Text.{Text, text}
use gpuq.State.{queued, cancelled, state_eq, is_terminal}
use gpuq.State.Jobs.{get, is_active}
use gpuq.Queue
use gpuq.Queue.{Queue}
use gpuq.Bus
use gpuq.Protocol.{Cancel, Signal, Event, Payload}
use gpuq.Server.{Server, jobs, Outcome, answers, job_dict_or_none}
use gpuq.Server.Submit.{state_event}
use gpuq.Server.Repair.{is_current}
use gpuq.Server.Run.{publishes}
use gpuq.Runner.{Proc, Posix, signal}

abbrev pub terminal_at : Text → Server → Bool
terminal_at jid s = elim (get jid (jobs s)) [ none ↦ false | some rec ↦ is_terminal rec.state ]

-- The polls of the loop, and the look after the deadline: the answer, and the server at that time.
unfoldable pub wait_terminal : Text → List Server → Server → Bool × Server
wait_terminal jid [] last = (terminal_at jid last, last)
wait_terminal jid (s ∷ polls) last =
    let later = wait_terminal jid polls last in if terminal_at jid s then (true, s) else later

-- A signal and the wait behind it: the process of `self._current_runner` when `Runner.signal` is called,
-- the polls before the deadline, and the server after it.
pub record Wait : Type 0 where
  pub runner : Proc
  pub polls : List Server
  pub last : Server

-- An outcome, with the signals that `send_signal` sent and the job whose process got each.
pub record Signalled : Type 0 where
  pub outcome : Outcome
  pub signals : List (Text × Posix)

abbrev pub sent_to : Text → Option Posix → List (Text × Posix)
sent_to jid none = []
sent_to jid (some s) = (jid, s) ∷ []

-- `await self._current_runner.signal(sig)`, where the runner is that of this job.
abbrev pub signal_job : Text → Proc → Signal → List (Text × Posix)
signal_job jid proc sig = sent_to jid (signal proc sig)

abbrev pub not_kill : Signal → Bool
not_kill Signal.kill = false
not_kill _ = true

abbrev pub ended_reply : Text → Bool → Server → Outcome
ended_reply jid ended s = answers s (
    Event.result (
      if ended
      then Payload.ok_job (job_dict_or_none (get jid (jobs s)))
      else Payload.refused (text "wedged")))

-- The second signal goes to `self._current_runner` as it is then; if that is None, the call raises.
abbrev pub escalate : Text → (first : List (Text × Posix)) → Server → Wait → Signalled
escalate jid first s second = elim s.current_job_id [
  | none ↦ record { outcome = record { sent = []; after = s; raised = true }; signals = first }
  | some current ↦
      let (ended, s') = wait_terminal jid second.polls second.last in
      record {
        outcome = ended_reply jid ended s';
        signals = first ++ signal_job current second.runner Signal.kill;
      }
]

unfoldable pub cancel_running : Cancel → (first second : Wait) → Signalled
cancel_running req first second =
    let sent = signal_job req.id first.runner req.signal in
    let (ended, s) = wait_terminal req.id first.polls first.last in
    if not ended && not_kill req.signal
    then escalate req.id sent s second
    else record { outcome = ended_reply req.id ended s; signals = sent }

unfoldable pub cancel_queued : (now : Text) → Text → Server → Outcome
cancel_queued now jid s =
    let q = (Queue.cancel jid now s.queue).1 in
    let s1 = publishes jid (Event.state (state_event jid cancelled)) (record s { queue = q }) in
    let s2 = record s1 { bus = Bus.close jid s1.bus } in
    answers s2 (Event.result (Payload.ok_job (job_dict_or_none (get jid (jobs s2)))))

abbrev pub quiet : Outcome → Signalled
quiet o = record { outcome = o; signals = [] }

unfoldable pub handle_cancel : (now : Text) → Cancel → (first second : Wait) → Server → Signalled
handle_cancel now req first second s = elim (get req.id (jobs s)) [
  | none ↦ quiet (answers s (Event.result (Payload.refused (text "unknown"))))
  | some rec ↦
      if state_eq rec.state queued
      then quiet (cancel_queued now req.id s)
      else if is_active rec && is_current req.id s.current_job_id
      then cancel_running req first second
      else if is_terminal rec.state
      then quiet (answers s (Event.result (Payload.refused (text "already_terminal"))))
      else quiet (answers s (Event.result (Payload.refused (text "not_current"))))
]
