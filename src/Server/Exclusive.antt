-- ===== src/Server/Exclusive.antt =====
-- What a lease holds off: the scheduler tests `_lease_held` before it pops, and `_handle_lease` tests it
-- before it grants (src/gpuq/daemon/server.py).
use gpuq.Common.{◌≡◌, refl, sym, ◌∙◌, Bool, true, false, List, [], ◌∷◌, ◌++◌, some, none, arith}
use gpuq.Common.Text.{Text, text_eq}
use gpuq.State.{Table, LeaseRecord}
use gpuq.State.Jobs.{running_jobs}
use gpuq.State.Keys.{IsKeyed}
use gpuq.Protocol.{Lease}
use gpuq.Server.{Server, jobs}
use gpuq.Server.Inspect.{handle_bump}
use gpuq.Server.Cancel.{cancel_queued}
use gpuq.Server.Repair.{delete_job}
use gpuq.Server.Lease.{may_grant, handle_release}
use gpuq.Server.Repair.Kept.{handle_doctor-keeps, handle_prune-keeps}
use gpuq.Server.Submit.Kept.{handle_submit-keeps, handle_retry-keeps}
use gpuq.Server.Serial.{owner, none_active, Reach-IsSerial, init-IsSerial}
use gpuq.Server.Schedule.{System, Client, Step, Reach, here, next, init, may_pop}

-- The step is the release of this lease.
abbrev pub frees : {s t : Server} → Text → Client s t → Bool
frees lid (Client.release l now e) = text_eq lid l
frees lid _ = false

abbrev pub returns : {w v : System} → Text → Step w v → Bool
returns lid (Step.client c e) = frees lid c
returns lid _ = false

-- Any steps but that.
pub data Unreturned (lid : Text) (w : System) : System → Type 0 where
  kept : Unreturned lid w w
  more :
      {u v : System}
      → Unreturned lid w u
      → (st : Step u v) → returns lid st ≡ false
      → Unreturned lid w v

-- This lease is the one held.
abbrev IsLent : Text → Server → Type 0
IsLent lid s = (s.lease_held ≡ true) × (s.lease_id ≡ some lid)

handle_release-other :
    (lid l now : Text) (s : Server)
    → text_eq lid l ≡ false
    → IsLent lid s
    → IsLent lid (handle_release l now s).after
unfolding handle_release
handle_release-other lid l now s other h = rw (h.1) (rw other (h.0, refl))

Client-IsLent :
    (lid : Text) {s t : Server} (c : Client s t) → frees lid c ≡ false → IsLent lid s → IsLent lid t
Client-IsLent lid {s} (Client.submit parse now jid stamp req e) k h = rw e (
    handle_submit-keeps (IsLent lid) jid (λ r s q n a i h. h) (λ s h. h) (λ key s h. h) parse now
      stamp req s h)
Client-IsLent lid {s} (Client.retry jid now req e) k h =
    rw e (handle_retry-keeps (IsLent lid) jid (λ r s q n a i h. h) now req s h)
Client-IsLent lid (Client.bump jid e) k h = rw e (unfold handle_bump in h)
Client-IsLent lid (Client.cancel now jid q e) k h = rw e (unfold cancel_queued in h)
Client-IsLent lid {s} (Client.doctor x req e) k h =
    rw e (handle_doctor-keeps (IsLent lid) (λ jid now t h. h) x req s h)
Client-IsLent lid {s} (Client.prune cutoff req e) k h =
    rw e (handle_prune-keeps (IsLent lid) (λ jid t h. unfold delete_job in h) cutoff req s h)
Client-IsLent lid {s} (Client.release l now e) k h = rw e (handle_release-other lid l now s k h)
Client-IsLent lid (Client.subscribe jid e) k h = rw e h
Client-IsLent lid (Client.unsubscribe jid key e) k h = rw e h

no_element : (req : Lease) (before rest : List Lease) → before ++ req ∷ rest ≡ [] → ⊥
no_element req [] rest e = cc
no_element req (x ∷ before) rest e = cc

-- The lease is held, the scheduler is at no job, and no other request has passed its test.
record IsExclusive (lid : Text) (w : System) : Type 0 where
  idle : owner w.pc ≡ none
  lent : IsLent lid w.server
  alone : w.granting ≡ []

Step-IsExclusive :
    (lid : Text) {w v : System} (st : Step w v)
    → returns lid st ≡ false
    → IsExclusive lid w
    → IsExclusive lid v
Step-IsExclusive lid {w} (Step.client c e) k x =
    rw e (record { idle = x.idle; lent = Client-IsLent lid c k x.lent; alone = x.alone })
Step-IsExclusive lid (Step.see_lease p n s l e) k x =
    rw e (record { idle = refl; lent = x.lent; alone = x.alone })
Step-IsExclusive lid (Step.lease_over p l e) k x =
    rw e (record { idle = refl; lent = x.lent; alone = x.alone })
Step-IsExclusive lid {w} (Step.pop now p m e) k x =
    let closed : may_pop w.server ≡ false = rw (x.lent.0) (ground arith) in cc
Step-IsExclusive lid (Step.begin jid models now shown p e) k x = cc (x.idle)
Step-IsExclusive lid (Step.abort jid models now p e) k x = cc (x.idle)
Step-IsExclusive lid (Step.pid jid n p e) k x = cc (x.idle)
Step-IsExclusive lid (Step.line jid stream text p e) k x = cc (x.idle)
Step-IsExclusive lid (Step.finish jid r now p e) k x = cc (x.idle)
Step-IsExclusive lid {w} (Step.lease_pass req m e) k x =
    let closed : may_grant w.server ≡ false = unfold may_grant in ground arith in cc
Step-IsExclusive lid {w} (Step.lease_grant before rest req l now g e) k x =
    elim (no_element req before rest (sym g ∙ x.alone)) [ ]
Step-IsExclusive lid (Step.stop_idle p e) k x =
    rw e (record { idle = refl; lent = x.lent; alone = x.alone })
Step-IsExclusive lid (Step.stop_evicting jid p e) k x = cc (x.idle)
Step-IsExclusive lid (Step.stop_mirroring jid p e) k x = cc (x.idle)
Step-IsExclusive lid (Step.stop_running jid now p e) k x = cc (x.idle)

Unreturned-IsExclusive :
    (lid : Text) {w v : System} → Unreturned lid w v → IsExclusive lid w → IsExclusive lid v
Unreturned-IsExclusive lid kept x = x
Unreturned-IsExclusive lid (more r st k) x =
    Step-IsExclusive lid st k (Unreturned-IsExclusive lid r x)

Unreturned-Reach : {lid : Text} {w v : System} → Unreturned lid w v → Reach w v
Unreturned-Reach kept = here
Unreturned-Reach (more r st k) = next (Unreturned-Reach r) st

-- In a state that the daemon reaches from a start on a table with distinct ids, let a lease be held,
-- the scheduler be at no job, and no other lease request have passed its test. Until that lease is
-- released, whatever steps follow, releases of other leases included: no job is `starting` or
-- `running`, and that lease is the one held.
pub lease_excludes :
    (clock : Text → Text) (t : Table) (leases : List LeaseRecord) (dirs : List Text) {w v : System}
    (lid : Text)
    → IsKeyed t
    → Reach (init clock t leases dirs) w
    → owner w.pc ≡ none
    → w.server.lease_held ≡ true
    → w.server.lease_id ≡ some lid
    → w.granting ≡ []
    → Unreturned lid w v
    → (running_jobs (jobs v.server) ≡ [])
      × (v.server.lease_held ≡ true)
      × (v.server.lease_id ≡ some lid)
lease_excludes clock t leases dirs {w} {v} lid k r i h l g u =
    let x = Unreturned-IsExclusive lid u (record { idle = i; lent = (h, l); alone = g }) in
    let serial =
      Reach-IsSerial (Unreturned-Reach u)
        (Reach-IsSerial r (init-IsSerial clock t leases dirs k)) in
    (none_active (jobs v.server) (rw x.idle at serial.owned), x.lent.0, x.lent.1)
