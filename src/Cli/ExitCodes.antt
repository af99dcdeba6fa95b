-- ===== src/Cli/ExitCodes.antt =====
-- The exit codes of the commands, for what the daemon does.
use gpuq.Common.{
  ◌≡◌, refl, Bool, true, false, is_some, List, [], ◌∷◌, ◌++◌, map, none, some, head?, arith,
}
use gpuq.Common.{All, Option-cases, inl, inr, sym, ◌∙◌}
use gpuq.State.{cancelled}
use gpuq.Server.Submit.{state_event}
use gpuq.Common.Text.{Text}
use gpuq.Common.Int.{ℤ, pos}
use gpuq.Protocol.{Event, Cancel}
use gpuq.Cli.{submit_loop, submit_events, ok_exit, or_code}
use gpuq.Server.{Server, Outcome}
use gpuq.Server.Stream.{stream_until_terminal}
use gpuq.Server.Run.{RunResult, exit_code, final_event}
use gpuq.Server.Run.Final.{OpenEvents, stream-final}
use gpuq.Server.Cancel.{handle_cancel, Wait, terminal_at}
use gpuq.Server.Cancel.Ended.{says_ok, cancel_ok_ended}

-- An event that sets the exit code of `submit`: an error, or the state of a job with its exit code.
abbrev pub sets_code : Event → Bool
sets_code (Event.state ev) = is_some ev.exit_code
sets_code (Event.error message) = true
sets_code _ = false

submit_loop-final :
    (evs : List Event) (r : RunResult) (jid : Text) (code : ℤ)
    → (submit_loop (evs ++ final_event r jid ∷ []) code).1 ≡ exit_code r
unfolding submit_loop
submit_loop-final [] r jid code = refl
submit_loop-final (Event.state ev ∷ evs) r jid code =
    submit_loop-final evs r jid (or_code ev.exit_code code)
submit_loop-final (Event.log j stream line ∷ evs) r jid code = submit_loop-final evs r jid code
submit_loop-final (Event.ollama action models ∷ evs) r jid code = submit_loop-final evs r jid code
submit_loop-final (Event.error message ∷ evs) r jid code = submit_loop-final evs r jid (pos 1)
submit_loop-final (Event.result payload ∷ evs) r jid code = submit_loop-final evs r jid code

-- A client submits a job and follows it: it is sent the first answer, then what
-- `_stream_until_terminal` takes from a queue that holds events that end no stream, the final event
-- of the run, and the end mark. Then it exits with the exit code that the run recorded.
pub submit_exit :
    (answer : Event) (evs : List Event) (r : RunResult) (jid : Text)
    → OpenEvents evs
    → (submit_events (
        answer
        ∷ (stream_until_terminal (map some evs ++ some (final_event r jid) ∷ none ∷ [])).0)).1
      ≡ exit_code r
unfolding submit_events
submit_exit answer evs r jid open_events =
    rw (stream-final evs r jid open_events) (submit_loop-final (answer ∷ evs) r jid (pos 0))

ok_exit-says_ok : (o : Outcome) → ok_exit (head? o.sent) ≡ pos 0 → says_ok o ≡ true
unfolding ok_exit
ok_exit-says_ok o h = ground arith

-- `gpuq cancel` exits with 0 only if the job had ended when the daemon answered.
pub cancel_exit :
    (now : Text) (req : Cancel) (first second : Wait) (s : Server)
    → ok_exit (head? (handle_cancel now req first second s).outcome.sent) ≡ pos 0
    → terminal_at req.id (handle_cancel now req first second s).outcome.after ≡ true
cancel_exit now req first second s h =
    cancel_ok_ended now req first second s
      (ok_exit-says_ok (handle_cancel now req first second s).outcome h)

-- The event that the daemon publishes when it cancels a queued job.
abbrev pub cancelled_event : Text → Event
cancelled_event jid = Event.state (state_event jid cancelled)

stream-cancelled :
    (evs : List Event) (jid : Text)
    → OpenEvents evs
    → stream_until_terminal (map some evs ++ some (cancelled_event jid) ∷ none ∷ [])
      ≡ (evs ++ cancelled_event jid ∷ [], true)
unfolding stream_until_terminal
stream-cancelled [] jid h = refl
stream-cancelled (ev ∷ evs) jid h = rw (h.0) (rw (stream-cancelled evs jid h.1) refl)

submit_loop-cancelled :
    (evs : List Event) (jid : Text) (code : ℤ)
    → All (λ ev. sets_code ev ≡ false) evs
    → (submit_loop (evs ++ cancelled_event jid ∷ []) code).1 ≡ code
unfolding submit_loop
submit_loop-cancelled [] jid code h = refl
submit_loop-cancelled (Event.state ev ∷ evs) jid code h = elim (Option-cases ev.exit_code) [
  | inl absent ↦ rw (absent, submit_loop) (submit_loop-cancelled evs jid code h.1)
  | inr (rc, e) ↦ let some_code : false ≡ true = sym h.0 ∙ rw e refl in cc
]
submit_loop-cancelled (Event.log j stream line ∷ evs) jid code h =
    submit_loop-cancelled evs jid code h.1
submit_loop-cancelled (Event.ollama action models ∷ evs) jid code h =
    submit_loop-cancelled evs jid code h.1
submit_loop-cancelled (Event.error message ∷ evs) jid code h = cc
submit_loop-cancelled (Event.result payload ∷ evs) jid code h =
    submit_loop-cancelled evs jid code h.1

-- A client submits a job and follows it, and is sent events that neither end the stream nor set the
-- exit code, and then that the job was cancelled while it was queued. It exits with 0, the code of a
-- job that succeeded.
pub submit_cancelled_exit :
    (answer : Event) (evs : List Event) (jid : Text)
    → OpenEvents evs
    → All (λ ev. sets_code ev ≡ false) (answer ∷ evs)
    → (submit_events (
        answer
        ∷ (stream_until_terminal (map some evs ++ some (cancelled_event jid) ∷ none ∷ [])).0)).1
      ≡ pos 0
unfolding submit_events
submit_cancelled_exit answer evs jid open_events quiet =
    rw (stream-cancelled evs jid open_events)
      (submit_loop-cancelled (answer ∷ evs) jid (pos 0) quiet)
