-- ===== src/Server/Cancel/Killed.antt =====
-- Which processes the signals of `_handle_cancel` (src/gpuq/daemon/server.py) reach, when the daemon
-- has got where it is by steps.
use gpuq.Common.{
  ◌≡◌, ◌⊎◌, refl, ap, ◌∙◌, true, Bool-cases, List, [], ◌∷◌, ◌++◌, Option, none, some, arith, inl,
  inr,
}
use gpuq.Common.Text.{Text, text_eq, text_eq_sound}
use gpuq.Runner.{signal}
use gpuq.State.{JobRecord, Table, LeaseRecord}
use gpuq.State.Jobs.{get, is_active}
use gpuq.State.Keys.{IsKeyed}
use gpuq.Protocol.{Cancel, Signal}
use gpuq.Server.{jobs, start}
use gpuq.Server.Owned.{IsOwned}
use gpuq.Server.Serial.{owner, serial_jobs}
use gpuq.Server.Current.{HasCurrent, Reach-IsCurrent}
use gpuq.Server.Schedule.{Pc, waiting, lease_wait, evicting, running, stopped, System, Reach, init}
use gpuq.Server.Cancel.{Wait, sent_to, handle_cancel}
use gpuq.Server.Cancel.Signals.{cancel_signals}

-- The scheduler awaits the run of this job or its mirror; or it was cancelled in the second of these.
abbrev pub IsAt : Text → Pc → Type 0
IsAt jid pc = (pc ≡ running jid) ⊎ (pc ≡ stopped (some jid))

HasCurrent-IsAt :
    (pc : Pc) (current : Option Text) (jid : Text)
    → HasCurrent pc current
    → current ≡ some jid
    → IsAt jid pc
HasCurrent-IsAt waiting current jid h e = cc
HasCurrent-IsAt lease_wait current jid h e = cc
HasCurrent-IsAt (evicting j) current jid h e = cc
HasCurrent-IsAt (running j) current jid h e = inl cc
HasCurrent-IsAt (stopped none) current jid h e = cc
HasCurrent-IsAt (stopped (some c)) current jid (inl idle) e = cc
HasCurrent-IsAt (stopped (some c)) current jid (inr left) e = inr cc

owner-IsAt : (pc : Pc) (jid : Text) → IsAt jid pc → owner pc ≡ some jid
owner-IsAt pc jid (inl p) = rw p refl
owner-IsAt pc jid (inr p) = rw p refl

get-owned_by :
    (jid c : Text) (t : Table) (r : JobRecord)
    → IsOwned (some c) t
    → get jid t ≡ some r
    → is_active r ≡ true
    → c ≡ jid
unfolding get
get-owned_by jid c [] r owned g active = cc
get-owned_by jid c (x ∷ t) r owned g active = elim (Bool-cases (text_eq x.id jid)) [
  | inr other ↦ get-owned_by jid c t r owned.1 (rw other at g) active
  | inl this ↦
      let same : x ≡ r = cc (rw this at g) in
      let busy : is_active x ≡ true = ap is_active same ∙ active in
      let mine : text_eq c x.id ≡ true = ground (arith, busy, owned.0) in
      text_eq_sound c x.id mine ∙ text_eq_sound x.id jid this
]

-- From a start on a table with distinct ids, where the daemon is in any reachable state when the
-- request arrives, and in any when the first wait ends: cancel sends no signal; or the scheduler
-- is at the named job, whose process is sent what `Runner.signal` sends for the requested one, and
-- behind that either nothing, or the job that the scheduler is then at is sent what it sends for
-- KILL; this job is the named one if the row of that is still `starting` or `running`. The
-- scheduler is at a job while it awaits the job's run or mirror, and still if it was cancelled
-- while it awaited the mirror.
pub kill_running :
    (clock : Text → Text) (t : Table) (leases : List LeaseRecord) (dirs : List Text) (now : Text)
    (req : Cancel) (first second : Wait) {u v : System}
    → IsKeyed t
    → Reach (init clock t leases dirs) u
    → Reach (init clock t leases dirs) v
    → first.last ≡ v.server
    → let sent = (handle_cancel now req first second u.server).signals in
      let asked = sent_to req.id (signal first.runner req.signal) in
      (sent ≡ [])
      ⊎ (IsAt req.id u.pc
          × ((sent ≡ asked)
              ⊎ ((c : Text) × (sent ≡ asked ++ sent_to c (signal second.runner Signal.kill))
                  × IsAt c v.pc
                  × ((r : JobRecord)
                      → get req.id (jobs v.server) ≡ some r
                      → is_active r ≡ true
                      → c ≡ req.id))))
unfolding start
kill_running clock t leases dirs now req first second {u} {v} k to_u to_v at_end =
    elim (cancel_signals now req first second u.server) [
      | inl quiet ↦ inl quiet
      | inr (ours, sent) ↦ inr (
        HasCurrent-IsAt u.pc u.server.current_job_id req.id (Reach-IsCurrent to_u refl) ours,
        elim sent [
          | inl once ↦ inl once
          | inr (c, twice, then_current, going) ↦
              let pc =
                HasCurrent-IsAt v.pc v.server.current_job_id c (Reach-IsCurrent to_v refl)
                  (rw at_end at then_current) in
              inr (
                c,
                twice,
                pc,
                λ r g active.
                    get-owned_by req.id c (jobs v.server) r
                      (rw (owner-IsAt v.pc c pc) at (serial_jobs clock t leases dirs k to_v).1) g
                      active,
              )
        ],
      )
    ]
