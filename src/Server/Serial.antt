-- ===== src/Server/Serial.antt =====
-- The GPU runs one job at a time: whatever the clients do, in any order, at most one job is in the
-- states `starting` and `running`, and it is the one that the scheduler has popped.
use gpuq.Common.{
  ◌≤◌, ◌≡◌, refl, false, List, [], ◌∷◌, Option, Option-cases, none, some, arith, Bool-cases, inl,
  inr, length,
}
use gpuq.Common.Text.{Text, text_eq_iff}
use gpuq.State.{state_eq, Table, LeaseRecord}
use gpuq.State.Jobs.{get, is_active, update_state, Change, running_jobs, next_queued}
use gpuq.State.Keys.{IsKeyed, update_state-IsKeyed}
use gpuq.Queue
use gpuq.Queue.{Queue, start_change}
use gpuq.Server.{Server, jobs, lost_change, start}
use gpuq.Server.Run.{
  begin_run, abort_run, note_pid, mirror_line, finish_run, open_logs, run_change, pid_change,
  final_change, final_state, RunResult, exited, crashed,
}
use gpuq.Server.Run.Aborted.{jobs-report_evicted}
use gpuq.Server.Owned.{IsOwned, active_state, disown-IsOwned, activate-IsOwned, own-IsOwned}
use gpuq.Server.Reconcile.{reconcile-IsKeyed, reconcile-IsOwned}
use gpuq.Server.Sound.{IsSound, Client-IsSound, grant-IsSound}
use gpuq.Server.Schedule.{
  Pc, waiting, lease_wait, evicting, running, stopped, System, Step, Reach, here, next, init,
  popped, after_pop, stop_flags,
}

-- The job that the scheduler has popped and not yet ended.
abbrev pub owner : Pc → Option Text
owner waiting = none
owner lease_wait = none
owner (evicting jid) = some jid
owner (running jid) = some jid
owner (stopped left) = left

change-IsSound :
    (jid : Text) (c : Change) (t : Table)
    → IsSound (some jid) t
    → IsSound (some jid) (update_state jid c t)
change-IsSound jid c t v = record {
  keyed = update_state-IsKeyed jid c t v.keyed;
  owned = activate-IsOwned jid c t v.owned;
}

end-IsSound :
    (jid : Text) (c : Change) (t : Table)
    → active_state c.state ≡ false
    → IsSound (some jid) t
    → IsSound none (update_state jid c t)
end-IsSound jid c t h v = record {
  keyed = update_state-IsKeyed jid c t v.keyed;
  owned = disown-IsOwned jid c t h v.owned;
}

popped-IsSound :
    (now : Text) (s : Server)
    → IsSound none (jobs s)
    → IsSound (owner (after_pop (popped now s).0)) (jobs (popped now s).1)
unfolding Queue.pop
popped-IsSound now s v = elim (Option-cases (next_queued (jobs s))) [
  | inl empty ↦ rw (empty, Queue.pop) v
  | inr (r, e) ↦
      rw (e, Queue.pop)
        (record {
          keyed = update_state-IsKeyed r.id (start_change now) (jobs s) v.keyed;
          owned = own-IsOwned r.id (start_change now) (jobs s) v.owned;
        })
]

begin_run-IsSound :
    (models : List Text) (now shown jid : Text) (s : Server)
    → IsSound (some jid) (jobs s)
    → IsSound (some jid) (jobs (begin_run models now shown jid s))
unfolding begin_run open_logs
begin_run-IsSound models now shown jid s v =
    change-IsSound jid (run_change now) _ (rw (jobs-report_evicted jid models s) v)

abort_run-IsSound :
    (models : List Text) (now jid : Text) (s : Server)
    → IsSound (some jid) (jobs s)
    → IsSound none (jobs (abort_run models now jid s))
unfolding abort_run state_eq
abort_run-IsSound models now jid s v =
    end-IsSound jid (lost_change now) _ refl (rw (jobs-report_evicted jid models s) v)

final_state-ended : (r : RunResult) → active_state (final_state r) ≡ false
unfolding final_state state_eq
final_state-ended (exited rc dur) = ground arith
final_state-ended crashed = refl

pub finish_run-IsSound :
    (r : RunResult) (now jid : Text) (s : Server)
    → IsSound (some jid) (jobs s)
    → IsSound none (jobs (finish_run r now jid s))
unfolding finish_run
finish_run-IsSound r now jid s v =
    end-IsSound jid (final_change r now) (jobs s) (final_state-ended r) v

abbrev pub IsSerial : System → Type 0
IsSerial w = IsSound (owner w.pc) (jobs w.server)

Step-IsSerial : {w v : System} → Step w v → IsSerial w → IsSerial v
unfolding note_pid mirror_line
Step-IsSerial {w} (Step.client c e) h = rw e (Client-IsSound (owner w.pc) c h)
Step-IsSerial {w} (Step.see_lease p n s l e) h = rw e (rw p at h)
Step-IsSerial {w} (Step.lease_over p l e) h = rw e (rw p at h)
Step-IsSerial {w} (Step.pop now p m e) h = rw e (popped-IsSound now w.server (rw p at h))
Step-IsSerial {w} (Step.begin jid models now shown p e) h =
    rw e (begin_run-IsSound models now shown jid w.server (rw p at h))
Step-IsSerial {w} (Step.abort jid models now p e) h =
    rw e (abort_run-IsSound models now jid w.server (rw p at h))
Step-IsSerial {w} (Step.pid jid n p e) h =
    rw e (rw p (change-IsSound jid (pid_change n) (jobs w.server) (rw p at h)))
Step-IsSerial {w} (Step.line jid stream text p e) h = rw e h
Step-IsSerial {w} (Step.finish jid r now p e) h =
    rw e (finish_run-IsSound r now jid w.server (rw p at h))
Step-IsSerial {w} (Step.lease_pass req m e) h = rw e h
Step-IsSerial {w} (Step.lease_grant before rest req lid now g e) h =
    rw e (grant-IsSound (owner w.pc) lid now req w.server h)
Step-IsSerial {w} (Step.stop_idle p e) h = elim p [
  | inl top ↦ rw e (rw top at h)
  | inr held ↦ rw e (rw held at h)
]
Step-IsSerial {w} (Step.stop_evicting jid p e) h = rw e (rw p at h)
Step-IsSerial {w} (Step.stop_mirroring jid p e) h = rw e (rw p at h)
Step-IsSerial {w} (Step.stop_running jid now p e) h =
    rw e (finish_run-IsSound crashed now jid (stop_flags w.server) (rw p at h))

pub Reach-IsSerial : {w v : System} → Reach w v → IsSerial w → IsSerial v
Reach-IsSerial here h = h
Reach-IsSerial (next r s) h = Step-IsSerial s (Reach-IsSerial r h)

pub init-IsSerial :
    (clock : Text → Text) (t : Table) (leases : List LeaseRecord) (dirs : List Text)
    → IsKeyed t
    → IsSerial (init clock t leases dirs)
unfolding start Queue.new_queue
init-IsSerial clock t leases dirs k = record {
  keyed = reconcile-IsKeyed clock t k;
  owned = reconcile-IsOwned clock t;
}

pub none_active : (t : Table) → IsOwned none t → running_jobs t ≡ []
unfolding running_jobs
none_active [] o = refl
none_active (x ∷ t) o = ground (arith, none_active t o.1)

others_inactive :
    (jid : Text) (t : Table) → get jid t ≡ none → IsOwned (some jid) t → running_jobs t ≡ []
unfolding running_jobs get
others_inactive jid [] g o = refl
others_inactive jid (x ∷ t) g o =
    ground (arith, others_inactive jid t, text_eq_iff x.id jid, text_eq_iff jid x.id)

one_active : (jid : Text) (t : Table) → IsSound (some jid) t → length (running_jobs t) ≤ 1
unfolding running_jobs
one_active jid [] v = omega arith
one_active jid (x ∷ t) v = elim (Bool-cases (is_active x)) [
  | inr idle ↦ rw idle (one_active jid t (record { keyed = v.keyed.1; owned = v.owned.1 }))
  | inl busy ↦
      let mine : jid ≡ x.id = ground (arith, text_eq_iff jid x.id) in
      let alone : running_jobs t ≡ [] = others_inactive jid t (rw mine v.keyed.0) v.owned.1 in
      rw busy (rw alone (omega arith))
]

pub IsSound-le : (o : Option Text) (t : Table) → IsSound o t → length (running_jobs t) ≤ 1
IsSound-le none t v = rw (none_active t v.owned) (omega arith)
IsSound-le (some jid) t v = one_active jid t v

-- From any start on a table with distinct ids, after any steps of the scheduler and of the clients in
-- any order: at most one job is `starting` or `running`, every such job is the one that the
-- scheduler has popped and not ended, and the ids are still distinct.
pub serial_jobs :
    (clock : Text → Text) (t : Table) (leases : List LeaseRecord) (dirs : List Text) {w : System}
    → IsKeyed t
    → Reach (init clock t leases dirs) w
    → (length (running_jobs (jobs w.server)) ≤ 1)
      × IsOwned (owner w.pc) (jobs w.server)
      × IsKeyed (jobs w.server)
serial_jobs clock t leases dirs {w} k r =
    let v = Reach-IsSerial r (init-IsSerial clock t leases dirs k) in
    (IsSound-le (owner w.pc) (jobs w.server) v, v.owned, v.keyed)
