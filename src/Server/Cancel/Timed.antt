-- ===== src/Server/Cancel/Timed.antt =====
-- `_handle_cancel` and `_wait_terminal` of src/gpuq/daemon/server.py with the loop as it is written:
-- it goes on while the clock of the event loop is before the deadline, and sleeps between its turns.
-- Fuel counts the turns.
pub mod Ends
use gpuq.Common.{
  ℕ, zero, suc, ◌+◌, Bool, true, false, not, ◌&&◌, ◌||◌, List, [], ◌∷◌, ◌++◌, Option, none, some,
  ltb, leb, if◌then◌else◌, ◌>>=◌,
}
use gpuq.Common.Text.{Text, text}
use gpuq.Common.Int.{pos_part}
use gpuq.State.{queued, state_eq, is_terminal}
use gpuq.State.Jobs.{get, is_active}
use gpuq.Protocol.{Cancel, Signal, Event, Payload}
use gpuq.Server.{Server, jobs, answers}
use gpuq.Runner.{Proc}
use gpuq.Server.Repair.{is_current}
use gpuq.Server.Cancel.{
  terminal_at, Signalled, signal_job, not_kill, ended_reply, cancel_queued, quiet, handle_cancel,
}

-- What a handler sees of the rest of the daemon, by the number of its sleeps so far: the server, the
-- process of its current runner, the clock (in microseconds) as the test of the loop reads it, and the clock as a deadline that is
-- set at that time reads it, a moment before.
pub record World : Type 0 where
  pub server_at : ℕ → Server
  pub runner_at : ℕ → Proc
  pub clock : ℕ → ℕ
  pub set_at : ℕ → ℕ

-- The loop of `_wait_terminal`, after `n` sleeps: its answer, and the number of sleeps by then.
unfoldable pub turns : (fuel : ℕ) → (n : ℕ) → Text → (deadline : ℕ) → World → Option (Bool × ℕ)
turns zero n jid deadline w = none
turns (suc fuel) n jid deadline w =
    let rest = turns fuel (suc n) jid deadline w in
    let s = w.server_at n in
    if ltb (w.clock n) deadline
    then if terminal_at jid s
      then some (true, n)
      else if not (is_current jid s.current_job_id) && terminal_at jid s
      then some (true, n)
      else rest
    else some (terminal_at jid s, n)

unfoldable pub wait_terminal_timed :
    (fuel : ℕ) → (n : ℕ) → Text → (timeout : ℕ) → World → Option (Bool × ℕ)
wait_terminal_timed fuel n jid timeout w = turns fuel n jid (w.set_at n + timeout) w

-- The second wait, of at most 5 seconds.
abbrev pub second_timeout : ℕ → ℕ
second_timeout timeout = if leb timeout 5000000 then timeout else 5000000

-- What follows the first wait: the KILL and the second wait, if the job has not ended.
unfoldable pub after_first : (fuel : ℕ) → Cancel → World → Bool × ℕ → Option Signalled
after_first fuel req w (ended, n) =
    let s = w.server_at n in
    let sent = signal_job req.id (w.runner_at 0) req.signal in
    if not ended && not_kill req.signal
    then elim s.current_job_id [
      | none ↦
          some (record { outcome = record { sent = []; after = s; raised = true }; signals = sent })
      | some current ↦ do
        (ended', m) ← wait_terminal_timed fuel n req.id (second_timeout (pos_part req.timeout)) w
        some (record {
          outcome = ended_reply req.id ended' (w.server_at m);
          signals = sent ++ signal_job current (w.runner_at n) Signal.kill;
        })
    ]
    else some (record { outcome = ended_reply req.id ended s; signals = sent })

-- `max(req.timeout, 0.0)` is the timeout's part above 0.
unfoldable pub cancel_running_timed : (fuel : ℕ) → Cancel → World → Option Signalled
cancel_running_timed fuel req w = do
  first ← wait_terminal_timed fuel 0 req.id (pos_part req.timeout) w
  after_first fuel req w first

-- `none`: out of fuel.
unfoldable pub handle_cancel_timed : (fuel : ℕ) → (now : Text) → Cancel → World → Option Signalled
handle_cancel_timed fuel now req w =
    let s = w.server_at 0 in
    elim (get req.id (jobs s)) [
      | none ↦ some (quiet (answers s (Event.result (Payload.refused (text "unknown")))))
      | some rec ↦
          if state_eq rec.state queued
          then some (quiet (cancel_queued now req.id s))
          else if is_active rec && is_current req.id s.current_job_id
          then cancel_running_timed fuel req w
          else if is_terminal rec.state
          then some (quiet (answers s (Event.result (Payload.refused (text "already_terminal")))))
          else some (quiet (answers s (Event.result (Payload.refused (text "not_current")))))
    ]
