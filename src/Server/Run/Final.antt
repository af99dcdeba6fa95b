-- ===== src/Server/Run/Final.antt =====
-- How a run ends: what the store keeps, and what the clients that follow the job are sent.
use mathlib.Core.Option
use gpuq.Common.{
  ◌≡◌, refl, ◌↔◌, true, false, List, [], ◌∷◌, ◌++◌, map, none, some, All, arith, if◌then◌else◌,
}
use gpuq.Common.Text.{Text, text_eq}
use gpuq.Common.Int.{pos}
use gpuq.State.{done, is_terminal}
use gpuq.State.Jobs.{get, update_state, apply_change}
use gpuq.State.Keys.{get-update_where}
use gpuq.Protocol.{Event, Micros}
use gpuq.Server.{Server, jobs}
use gpuq.Server.Stream.{ends_stream, stream_until_terminal}
use gpuq.Server.Run.{RunResult, exited, crashed, final_state, final_change, final_event, finish_run}

-- `done` is recorded exactly for exit code 0 of a runner that did not raise.
pub final_state-done :
    (r : RunResult) → (final_state r ≡ done) ↔ ((d : Micros) × (r ≡ exited (pos 0) d))
unfolding final_state
final_state-done (exited rc dur) = (λ h. (dur, ground arith), λ (d, h). ground arith)
final_state-done crashed = (λ h. cc, λ (d, h). cc)

final_state-terminal : (r : RunResult) → is_terminal (final_state r) ≡ true
unfolding final_state
final_state-terminal (exited rc dur) = ground arith
final_state-terminal crashed = refl

-- The end of a run records its exit code, its end state and its finishing stamp, and frees the
-- runner; no other row changes.
pub finish_run_lem :
    (r : RunResult) (now jid j : Text) (s : Server)
    → (get j (jobs (finish_run r now jid s)) ≡ (
        if text_eq j jid
        then Option.map (apply_change (final_change r now)) (get j (jobs s))
        else get j (jobs s)))
      × ((finish_run r now jid s).current_job_id ≡ none)
unfolding finish_run update_state
finish_run_lem r now jid j s =
    (get-update_where j jid (apply_change (final_change r now)) (jobs s) (λ x. refl), refl)

-- Events none of which ends a stream: log lines, and state events of a job that goes on.
abbrev pub OpenEvents : List Event → Type 0
OpenEvents evs = All (λ ev. ends_stream ev ≡ false) evs

-- A client whose queue holds events that end no stream and then what `finish_run` puts, the final
-- event and the end mark, is sent exactly those events and the final event, and its stream ends.
pub stream-final :
    (evs : List Event) (r : RunResult) (jid : Text)
    → OpenEvents evs
    → stream_until_terminal (map some evs ++ some (final_event r jid) ∷ none ∷ [])
      ≡ (evs ++ final_event r jid ∷ [], true)
unfolding stream_until_terminal
stream-final [] r jid h = rw (final_state-terminal r)
stream-final (ev ∷ evs) r jid h = rw (h.0) (rw (stream-final evs r jid h.1) refl)
