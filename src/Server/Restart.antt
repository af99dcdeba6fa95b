-- ===== src/Server/Restart.antt =====
-- The first thing that the scheduler does is to wait for `notify`, which `start` leaves clear.
use gpuq.Common.{◌≡◌, refl, ◌∙◌, Bool, true, false, List, [], arith}
use gpuq.Common.Text.{Text}
use gpuq.State.{Table, LeaseRecord}
use gpuq.State.Jobs.{running_jobs}
use gpuq.State.Keys.{IsKeyed}
use gpuq.Queue
use gpuq.Queue.{Queue}
use gpuq.Protocol.{Lease}
use gpuq.Server.{Server, jobs, start}
use gpuq.Server.Inspect.{handle_bump}
use gpuq.Server.Cancel.{cancel_queued}
use gpuq.Server.Repair.{delete_job}
use gpuq.Server.Lease.{grant}
use gpuq.Server.Serial.{none_active, serial_jobs}
use gpuq.Server.Repair.Kept.{handle_doctor-keeps, handle_prune-keeps}
use gpuq.Server.Schedule.{waiting, System, Client, Step, Reach, here, next, init, may_pop}

-- The handlers that set `notify`: those of submissions, retries and releases.
abbrev pub wakes : {s t : Server} → Client s t → Bool
wakes (Client.submit _ _ _ _ _ _) = true
wakes (Client.retry _ _ _ _) = true
wakes (Client.release _ _ _) = true
wakes _ = false

-- Those, and a stop of the daemon.
abbrev pub stirs : {w v : System} → Step w v → Bool
stirs (Step.client c e) = wakes c
stirs (Step.stop_idle p e) = true
stirs (Step.stop_evicting jid p e) = true
stirs (Step.stop_mirroring jid p e) = true
stirs (Step.stop_running jid now p e) = true
stirs _ = false

-- Any steps but those.
pub data Unstirred (w : System) : System → Type 0 where
  unmoved : Unstirred w w
  moved : {u v : System} → Unstirred w u → (st : Step u v) → stirs st ≡ false → Unstirred w v

cancel-notify : (jid now : Text) (q : Queue) → (Queue.cancel jid now q).1.notify ≡ q.notify
unfolding Queue.cancel
cancel-notify jid now q = ground arith

Client-notify : {s t : Server} (c : Client s t) → wakes c ≡ false → t.queue.notify ≡ s.queue.notify
unfolding handle_bump cancel_queued
Client-notify (Client.submit _ _ _ _ _ _) h = cc
Client-notify (Client.retry _ _ _ _) h = cc
Client-notify (Client.release _ _ _) h = cc
Client-notify (Client.bump jid e) h = rw e refl
Client-notify {s} (Client.cancel now jid q e) h = rw e (cancel-notify jid now s.queue)
Client-notify {s} (Client.doctor w req e) h =
    rw e
      (handle_doctor-keeps (λ t. t.queue.notify ≡ s.queue.notify) (λ jid now t h. h) w req s refl)
Client-notify {s} (Client.prune cutoff req e) h = rw e (
    handle_prune-keeps (λ t. t.queue.notify ≡ s.queue.notify) (λ jid t h. unfold delete_job in h)
      cutoff req s refl)
Client-notify (Client.subscribe jid e) h = rw e refl
Client-notify (Client.unsubscribe jid key e) h = rw e refl

grant-notify :
    (lid now : Text) (req : Lease) (s : Server)
    → (grant lid now req s).after.queue.notify ≡ s.queue.notify
unfolding grant
grant-notify lid now req s = ground arith

-- The scheduler waits at the top of its loop, and nothing has woken it.
record IsAsleep (w : System) : Type 0 where
  top : w.pc ≡ waiting
  clear : w.server.queue.notify ≡ false

Step-IsAsleep : {w v : System} (st : Step w v) → stirs st ≡ false → IsAsleep w → IsAsleep v
Step-IsAsleep {w} (Step.client c e) h a =
    rw e (record { top = a.top; clear = Client-notify c h ∙ a.clear })
Step-IsAsleep (Step.stop_idle p e) h a = cc
Step-IsAsleep (Step.stop_evicting jid p e) h a = cc
Step-IsAsleep (Step.stop_mirroring jid p e) h a = cc
Step-IsAsleep (Step.stop_running jid now p e) h a = cc
Step-IsAsleep (Step.see_lease p n s l e) h a = cc (a.clear)
Step-IsAsleep (Step.lease_over p l e) h a = cc (a.top)
Step-IsAsleep {w} (Step.pop now p m e) h a =
    let closed : may_pop w.server ≡ false = rw (a.clear) refl in cc
Step-IsAsleep (Step.begin jid models now shown p e) h a = cc (a.top)
Step-IsAsleep (Step.abort jid models now p e) h a = cc (a.top)
Step-IsAsleep (Step.pid jid n p e) h a = cc (a.top)
Step-IsAsleep (Step.line jid stream text p e) h a = cc (a.top)
Step-IsAsleep (Step.finish jid r now p e) h a = cc (a.top)
Step-IsAsleep (Step.lease_pass req m e) h a = rw e (record { top = a.top; clear = a.clear })
Step-IsAsleep {w} (Step.lease_grant before rest req lid now g e) h a =
    rw e (record { top = a.top; clear = grant-notify lid now req w.server ∙ a.clear })

Unstirred-IsAsleep : {w v : System} → Unstirred w v → IsAsleep w → IsAsleep v
Unstirred-IsAsleep unmoved a = a
Unstirred-IsAsleep (moved r st h) a = Step-IsAsleep st h (Unstirred-IsAsleep r a)

Unstirred-Reach : {w v : System} → Unstirred w v → Reach w v
Unstirred-Reach unmoved = here
Unstirred-Reach (moved r st h) = next (Unstirred-Reach r) st

-- After a start on a table with distinct ids, however many of its jobs are queued: as long as no job is
-- submitted or retried, no lease released and the daemon not stopped, the scheduler sleeps and no
-- job is started.
pub restart_sleeps :
    (clock : Text → Text) (t : Table) (leases : List LeaseRecord) (dirs : List Text) {w : System}
    → IsKeyed t
    → Unstirred (init clock t leases dirs) w
    → (w.pc ≡ waiting) × (running_jobs (jobs w.server) ≡ [])
unfolding start Queue.new_queue
restart_sleeps clock t leases dirs {w} k r =
    let a = Unstirred-IsAsleep r (record { top = refl; clear = refl }) in
    let owned = (serial_jobs clock t leases dirs k (Unstirred-Reach r)).1 in
    (a.top, none_active (jobs w.server) (rw a.top at owned))
