-- ===== src/Server/Cancel/Signals.antt =====
-- To which job's process `_handle_cancel` of src/gpuq/daemon/server.py sends its signals.
use gpuq.Common.{
  ◌≡◌, ap, ◌⊎◌, inl, inr, refl, true, false, List, [], ◌∷◌, ◌++◌, Option, Option-cases, Bool-cases,
  none, some, arith, ◌&&◌,
}
use gpuq.Common.Text.{Text, text_eq_sound}
use gpuq.Protocol.{Cancel, Signal}
use gpuq.Runner.{Posix}
use gpuq.State.{is_terminal}
use gpuq.State.Jobs.{get, is_active, is_queued}
use gpuq.Server.{Server, jobs}
use gpuq.Server.Repair.{is_current}
use gpuq.Server.Cancel.{
  Wait, signal_job, escalate, not_kill, handle_cancel, cancel_running, wait_terminal, terminal_at,
}

wait_terminal-last :
    (jid : Text) (polls : List Server) (last : Server)
    → (wait_terminal jid polls last).0 ≡ false
    → ((wait_terminal jid polls last).1 ≡ last) × (terminal_at jid last ≡ false)
unfolding wait_terminal
wait_terminal-last jid [] last = λ h. (refl, h)
wait_terminal-last jid (s ∷ polls) last = elim (Bool-cases (terminal_at jid s)) [
  | inl over ↦ rw over (λ h. cc)
  | inr going ↦ rw going (wait_terminal-last jid polls last)
]

-- The requested signal alone, or a KILL behind it to the job that is then current, each as
-- `Runner.signal` sends it to the process that is there.
abbrev pub Sent : Cancel → (first second : Wait) → List (Text × Posix) → Type 0
Sent req first second sent =
    (sent ≡ signal_job req.id first.runner req.signal)
    ⊎ ((c : Text) × (sent
          ≡ signal_job req.id first.runner req.signal ++ signal_job c second.runner Signal.kill)
        × (first.last.current_job_id ≡ some c)
        × (terminal_at req.id first.last ≡ false))

escalate-Sent :
    (req : Cancel) (first second : Wait)
    → terminal_at req.id first.last ≡ false
    → Sent req first second
        (escalate req.id (signal_job req.id first.runner req.signal) first.last second).signals
escalate-Sent req first second going = elim (Option-cases first.last.current_job_id) [
  | inl idle ↦ rw (idle, escalate) (inl refl)
  | inr (c, e) ↦ rw (e, escalate) (inr (c, refl, refl, going))
]

cancel_running-Sent :
    (req : Cancel) (first second : Wait)
    → Sent req first second (cancel_running req first second).signals
unfolding cancel_running
cancel_running-Sent req first second =
    elim (Bool-cases (wait_terminal req.id first.polls first.last).0) [
      | inl over ↦ rw over (inl refl)
      | inr going ↦
          let (at_end, not_over) = wait_terminal-last req.id first.polls first.last going in
          rw going (elim (Bool-cases (not_kill req.signal)) [
            | inl again ↦ rw again (rw at_end (escalate-Sent req first second not_over))
            | inr killed ↦ rw killed (inl refl)
          ])
    ]

is_current-some : (jid : Text) (o : Option Text) → is_current jid o ≡ true → o ≡ some jid
is_current-some jid none h = cc
is_current-some jid (some c) h = ap some (text_eq_sound c jid h)

-- On every branch of cancel: it sends no signal; or the named job is the current one, and it sends the
-- requested signal to it, and perhaps a KILL to the job that is current when the first wait ends,
-- which need not be the named one, whose row is then not in a terminal state, or gone.
pub cancel_signals :
    (now : Text) (req : Cancel) (first second : Wait) (s : Server)
    → let sent = (handle_cancel now req first second s).signals in
      (sent ≡ []) ⊎ ((s.current_job_id ≡ some req.id) × Sent req first second sent)
unfolding handle_cancel
cancel_signals now req first second s = elim (Option-cases (get req.id (jobs s))) [
  | inl absent ↦ rw (absent, handle_cancel) (inl refl)
  | inr (r, g) ↦
      rw (g, handle_cancel)
        (elim (Bool-cases (is_queued r)) [
          | inl waiting ↦ rw waiting (inl refl)
          | inr other ↦
              rw other (elim (Bool-cases (is_active r && is_current req.id s.current_job_id)) [
                | inl ours ↦ rw ours (
                    inr (
                      is_current-some req.id s.current_job_id (ground (arith, ours)),
                      cancel_running-Sent req first second,
                    ))
                | inr not_ours ↦ rw not_ours (elim (Bool-cases (is_terminal r.state)) [
                  | inl over ↦ rw over (inl refl)
                  | inr going ↦ rw going (inl refl)
                ])
              ])
        ])
]
