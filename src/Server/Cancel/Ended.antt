-- ===== src/Server/Cancel/Ended.antt =====
-- `cancel` answers `ok` only for a job that has ended.
use gpuq.Runner.{Posix}
use gpuq.Common.{
  ◌≡◌, refl, sym, ap, ◌∙◌, Bool, true, false, not, ◌&&◌, List, [], ◌∷◌, ◌++◌, Option-cases, none,
  some, arith, any, Bool-cases, inl, inr,
}
use gpuq.Common.Text.{Text, text_eq_refl}
use gpuq.Queue.{Queue}
use gpuq.State.{Table, is_terminal, JobRecord}
use gpuq.State.Jobs.{get, is_active, is_queued, update_state, apply_change}
use gpuq.State.Keys.{get-update_where}
use gpuq.Queue
use gpuq.Queue.{cancel_change}
use gpuq.Protocol.{Cancel, Event, ok_of}
use gpuq.Server.{Server, jobs, Outcome}
use gpuq.Server.Cancel.{
  terminal_at, wait_terminal, Wait, signal_job, escalate, ended_reply, cancel_running,
  cancel_queued, handle_cancel, not_kill,
}
use gpuq.Server.Repair.{is_current}

-- `_wait_terminal` answers true exactly if one of the looks, the last one included, finds the job
-- ended.
pub wait_terminal_lem :
    (jid : Text) (polls : List Server) (last : Server)
    → (wait_terminal jid polls last).0 ≡ any (terminal_at jid) (polls ++ last ∷ [])
unfolding wait_terminal
wait_terminal_lem jid [] last = ground arith
wait_terminal_lem jid (s ∷ polls) last = ground (arith, wait_terminal_lem jid polls last)

-- If it answers true, the job has ended in the state that it returns with.
wait_terminal-ended :
    (jid : Text) (polls : List Server) (last : Server)
    → terminal_at jid (wait_terminal jid polls last).1 ≡ (wait_terminal jid polls last).0
unfolding wait_terminal
wait_terminal-ended jid [] last = refl
wait_terminal-ended jid (s ∷ polls) last = elim (Bool-cases (terminal_at jid s)) [
  | inl ended ↦ rw ended ended
  | inr going ↦ rw going (wait_terminal-ended jid polls last)
]

-- The answer says `ok: true`.
abbrev pub says_ok : Outcome → Bool
says_ok o = elim o.sent [ [] ↦ false | ev ∷ evs ↦ elim ev [ Event.result p ↦ ok_of p | _ ↦ false ] ]

ended_reply_ok :
    (jid : Text) (ended : Bool) (s : Server) → says_ok (ended_reply jid ended s) ≡ ended
ended_reply_ok jid true s = refl
ended_reply_ok jid false s = refl

escalate-ended :
    (jid : Text) (first : List (Text × Posix)) (s : Server) (second : Wait)
    → says_ok (escalate jid first s second).outcome ≡ true
    → terminal_at jid (escalate jid first s second).outcome.after ≡ true
escalate-ended jid first s second = elim (Option-cases s.current_job_id) [
  | inl absent ↦ rw (absent, escalate) (λ h. cc)
  | inr (cur, e) ↦
      rw (e, escalate)
        (λ h.
          let (ended, s') = wait_terminal jid second.polls second.last in
          wait_terminal-ended jid second.polls second.last
          ∙ (sym (ended_reply_ok jid ended s') ∙ h))
]

cancel_running-ended :
    (req : Cancel) (first second : Wait)
    → says_ok (cancel_running req first second).outcome ≡ true
    → terminal_at req.id (cancel_running req first second).outcome.after ≡ true
unfolding cancel_running
cancel_running-ended req first second =
    let (ended, s) = wait_terminal req.id first.polls first.last in
    elim (Bool-cases (not ended && not_kill req.signal)) [
      | inl again ↦
          rw again (escalate-ended req.id (signal_job req.id first.runner req.signal) s second)
      | inr over ↦ rw over (λ h.
          wait_terminal-ended req.id first.polls first.last
          ∙ (sym (ended_reply_ok req.id ended s) ∙ h))
    ]

-- The row has ended, in a table.
abbrev ended_in : Text → Table → Bool
ended_in jid t = elim (get jid t) [ none ↦ false | some rec ↦ is_terminal rec.state ]

cancel_queue :
    (now jid : Text) (q : Queue) (r : JobRecord)
    → get jid q.jobs ≡ some r
    → is_queued r ≡ true
    → (Queue.cancel jid now q).1.jobs ≡ update_state jid (cancel_change now) q.jobs
unfolding Queue.cancel
cancel_queue now jid q r g w = rw (g, Queue.cancel) (rw w refl)

cancelled_row :
    (now jid : Text) (t : Table) (r : JobRecord)
    → get jid t ≡ some r
    → get jid (update_state jid (cancel_change now) t) ≡ some (apply_change (cancel_change now) r)
unfolding update_state
cancelled_row now jid t r g =
    get-update_where jid jid (apply_change (cancel_change now)) t (λ x. refl)
    ∙ rw (text_eq_refl jid) (rw g refl)

cancel_queued-ended :
    (now jid : Text) (s : Server) (r : JobRecord)
    → get jid (jobs s) ≡ some r
    → is_queued r ≡ true
    → terminal_at jid (cancel_queued now jid s).after ≡ true
unfolding cancel_queued
cancel_queued-ended now jid s r g w =
    let after = cancel_queue now jid s.queue r g w in
    ap (ended_in jid) after ∙ rw (cancelled_row now jid (jobs s) r g, ended_in) refl

-- On every branch: an answer with `ok: true` is sent only when the job's row, at that moment, is in
-- a terminal state, whatever other handlers and the scheduler did during the waits.
pub cancel_ok_ended :
    (now : Text) (req : Cancel) (first second : Wait) (s : Server)
    → says_ok (handle_cancel now req first second s).outcome ≡ true
    → terminal_at req.id (handle_cancel now req first second s).outcome.after ≡ true
unfolding handle_cancel
cancel_ok_ended now req first second s = elim (Option-cases (get req.id (jobs s))) [
  | inl absent ↦ rw (absent, handle_cancel) (λ h. cc)
  | inr (r, g) ↦
      rw (g, handle_cancel)
        (elim (Bool-cases (is_queued r)) [
          | inl waiting ↦ rw waiting (λ h. cancel_queued-ended now req.id s r g waiting)
          | inr other ↦
              rw other (elim (Bool-cases (is_active r && is_current req.id s.current_job_id)) [
                | inl ours ↦ rw ours (cancel_running-ended req first second)
                | inr not_ours ↦ rw not_ours (elim (Bool-cases (is_terminal r.state)) [
                  | inl over ↦ rw over (λ h. cc)
                  | inr going ↦ rw going (λ h. cc)
                ])
              ])
        ])
]
