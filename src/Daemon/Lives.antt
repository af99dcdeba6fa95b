-- ===== src/Daemon/Lives.antt =====
-- What a run of the daemon (src/gpuq/daemon/main.py) leaves behind.
use gpuq.Common.{◌≡◌, ◌≤◌, refl, false, [], Bool, true, Option, none, some, inl, inr, length}
use gpuq.Common.Text.{Text}
use gpuq.State.Jobs.{running_jobs}
use gpuq.State.Keys.{IsKeyed}
use gpuq.Server.{jobs}
use gpuq.Server.Run.{crashed}
use gpuq.Server.Owned.{IsOwned}
use gpuq.Server.Serial.{
  owner, IsSerial, finish_run-IsSound, Reach-IsSerial, init-IsSerial, IsSound-le, none_active,
}
use gpuq.Server.Schedule.{
  Pc, waiting, lease_wait, evicting, running, stopped, System, Reach, here, next, Step,
}
use gpuq.Daemon.{Host, start_daemon, stop_scheduler, cancel_task, shut_down, left_by}

-- The job that a stop leaves behind: one whose eviction or whose mirror was awaited.
abbrev pub left_over : (mirroring : Bool) → Pc → Option Text
left_over mirroring (evicting jid) = some jid
left_over true (running jid) = some jid
left_over mirroring (stopped left) = left
left_over _ _ = none

cancel_task-IsSerial :
    (now : Text) (mirroring : Bool) (pc : Pc) (w : System)
    → w.pc ≡ pc
    → IsSerial w
    → IsSerial (cancel_task now mirroring pc w)
unfolding cancel_task
cancel_task-IsSerial now mirroring waiting w p h = rw p at h
cancel_task-IsSerial now mirroring lease_wait w p h = rw p at h
cancel_task-IsSerial now mirroring (evicting jid) w p h = rw p at h
cancel_task-IsSerial now true (running jid) w p h = rw p at h
cancel_task-IsSerial now false (running jid) w p h =
    finish_run-IsSound crashed now jid w.server (rw p at h)
cancel_task-IsSerial now mirroring (stopped left) w p h = h

cancel_task-pc :
    (now : Text) (mirroring : Bool) (w : System) (pc : Pc)
    → w.pc ≡ pc
    → (cancel_task now mirroring pc w).pc ≡ stopped (left_over mirroring pc)
unfolding cancel_task
cancel_task-pc now mirroring w waiting p = refl
cancel_task-pc now mirroring w lease_wait p = refl
cancel_task-pc now mirroring w (evicting jid) p = refl
cancel_task-pc now true w (running jid) p = refl
cancel_task-pc now false w (running jid) p = refl
cancel_task-pc now mirroring w (stopped left) p = p

-- A stopped scheduler's task stays as it is.
Step-stopped :
    {w v : System} (left : Option Text) → Step w v → w.pc ≡ stopped left → v.pc ≡ stopped left
Step-stopped left (Step.client c e) h = rw e h
Step-stopped left (Step.see_lease p n s l e) h = cc
Step-stopped left (Step.lease_over p l e) h = cc
Step-stopped left (Step.pop now p m e) h = cc
Step-stopped left (Step.begin jid models now shown p e) h = cc
Step-stopped left (Step.abort jid models now p e) h = cc
Step-stopped left (Step.pid jid n p e) h = cc
Step-stopped left (Step.line jid stream text p e) h = cc
Step-stopped left (Step.finish jid r now p e) h = cc
Step-stopped left (Step.lease_pass req m e) h = rw e h
Step-stopped left (Step.lease_grant before rest req lid now g e) h = rw e h
Step-stopped left (Step.stop_idle p e) h = elim p [ inl top ↦ cc | inr held ↦ cc ]
Step-stopped left (Step.stop_evicting jid p e) h = cc
Step-stopped left (Step.stop_mirroring jid p e) h = cc
Step-stopped left (Step.stop_running jid now p e) h = cc

Reach-stopped :
    {w v : System} (left : Option Text) → Reach w v → w.pc ≡ stopped left → v.pc ≡ stopped left
Reach-stopped left here h = h
Reach-stopped left (next r s) h = Step-stopped left s (Reach-stopped left r h)

stop_scheduler-IsSerial :
    (now : Text) (mirroring : Bool) (w : System)
    → IsSerial w
    → IsSerial (stop_scheduler now mirroring w)
unfolding stop_scheduler
stop_scheduler-IsSerial now mirroring w h = cancel_task-IsSerial now mirroring w.pc _ refl h

start-IsSerial :
    (clock : Text → Text) (h : Host) → IsKeyed h.rows → IsSerial (start_daemon clock h).system
unfolding start_daemon
start-IsSerial clock h k = init-IsSerial clock h.rows h.leases h.log_dirs k

-- A run of the daemon on rows with distinct ids that a signal ends, whatever it did before and its
-- clients do while it stops: no job is left `starting` or `running`, unless the scheduler, when it was
-- cancelled, awaited the eviction for a job or, its run over, its mirror; then that job alone may be.
pub run_ends :
    (clock : Text → Text) (h : Host) (now : Text) (mirroring found : Bool) {w v : System}
    → IsKeyed h.rows
    → Reach (start_daemon clock h).system w
    → Reach (stop_scheduler now mirroring w) v
    → let g = left_by (shut_down found v) in
      IsOwned (left_over mirroring w.pc) g.rows
      × (length (running_jobs g.rows) ≤ 1)
      × (left_over mirroring w.pc ≡ none → running_jobs g.rows ≡ [])
unfolding stop_scheduler shut_down
run_ends clock h now mirroring found {w} {v} k to_w to_v =
    let served = Reach-IsSerial to_w (start-IsSerial clock h k) in
    let ended = Reach-IsSerial to_v (stop_scheduler-IsSerial now mirroring w served) in
    let left = left_over mirroring w.pc in
    let pc = Reach-stopped left to_v (cancel_task-pc now mirroring _ w.pc refl) in
    let owned : IsOwned left (jobs v.server) = rw pc at ended.owned in
    (
      owned,
      IsSound-le (owner v.pc) (jobs v.server) ended,
      λ idle. none_active (jobs v.server) (rw idle at owned),
    )
