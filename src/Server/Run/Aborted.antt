-- ===== src/Server/Run/Aborted.antt =====
-- What the clients that follow a job see when its run fails before it starts.
use mathlib.Core.Option
use gpuq.Common.{
  ◌≡◌, refl, ◌∙◌, false, List, [], ◌∷◌, ◌++◌, Option, none, some, All, Bool-cases, inl, inr,
}
use gpuq.Common.Text.{Text, text, text_eq, text_eq_refl}
use gpuq.State.Jobs.{get, update_state, apply_change}
use gpuq.State.Keys.{get-update_where}
use gpuq.Bus.{Subscription, put_all, publish}
use gpuq.Protocol.{Event}
use gpuq.Server.{Server, jobs, lost_change}
use gpuq.Server.Stream.{ends_stream, stream_until_terminal}
use gpuq.Server.Run.{abort_run, report_evicted}

-- Every client has been handed neither an event that ends its stream nor the end mark: it waits.
abbrev pub AllWait : List Subscription → Type 0
AllWait subs = All (λ sub. (stream_until_terminal sub.items).1 ≡ false) subs

stream-append :
    (items : List (Option Event)) (ev : Event)
    → ends_stream ev ≡ false
    → (stream_until_terminal items).1 ≡ false
    → (stream_until_terminal (items ++ some ev ∷ [])).1 ≡ false
unfolding stream_until_terminal
stream-append [] ev e = λ h. rw e refl
stream-append (none ∷ items) ev e = λ h. cc
stream-append (some x ∷ items) ev e = elim (Bool-cases (ends_stream x)) [
  | inl ends ↦ rw ends (λ h. cc)
  | inr goes ↦ rw goes (λ h. stream-append items ev e h)
]

put_all-AllWait :
    (jid : Text) (ev : Event) (subs : List Subscription)
    → ends_stream ev ≡ false
    → AllWait subs
    → AllWait (put_all jid (some ev) subs)
unfolding put_all
put_all-AllWait jid ev [] e h = tt
put_all-AllWait jid ev (x ∷ subs) e h = elim (Bool-cases (text_eq x.jid jid)) [
  | inl own ↦ rw own (stream-append x.items ev e h.0, put_all-AllWait jid ev subs e h.1)
  | inr other ↦ rw other (h.0, put_all-AllWait jid ev subs e h.1)
]

report_evicted-AllWait :
    (jid : Text) (models : List Text) (s : Server)
    → AllWait s.bus.subs
    → AllWait (report_evicted jid models s).bus.subs
unfolding report_evicted publish
report_evicted-AllWait jid [] s h = h
report_evicted-AllWait jid (m ∷ models) s h =
    put_all-AllWait jid (Event.ollama (text "evicted") (m ∷ models)) s.bus.subs refl h

pub jobs-report_evicted :
    (jid : Text) (models : List Text) (s : Server) → jobs (report_evicted jid models s) ≡ jobs s
unfolding report_evicted
jobs-report_evicted jid [] s = refl
jobs-report_evicted jid (m ∷ models) s = refl

-- A run that fails before it starts ends its job as failed, with exit code -1, and hands no client an
-- event that ends its stream or the end mark: if all clients waited before, they all wait after.
pub abort_run_lem :
    (models : List Text) (now jid : Text) (s : Server)
    → AllWait s.bus.subs
    → (get jid (jobs (abort_run models now jid s))
        ≡ Option.map (apply_change (lost_change now)) (get jid (jobs s)))
      × AllWait (abort_run models now jid s).bus.subs
unfolding abort_run update_state
abort_run_lem models now jid s h = (
  rw (jobs-report_evicted jid models s) (
      get-update_where jid jid (apply_change (lost_change now)) (jobs s) (λ r. refl)
      ∙ rw (text_eq_refl jid) refl),
  report_evicted-AllWait jid models s h,
)
