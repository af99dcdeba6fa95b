-- ===== src/Server/Overlap.antt =====
-- Where a lease and a job, or two leases, hold the GPU at once: `_handle_lease` tests the server's
-- state, awaits `ollama.evict()`, and tests nothing again.
use gpuq.Common.{
  ◌≡◌, refl, sym, ap, ◌∙◌, true, false, List, [], ◌∷◌, ◌++◌, none, some, arith, is_some,
  if◌then◌else◌,
}
use gpuq.Common.Text.{Text, text_eq, text_eq_iff, text_eq_refl}
use gpuq.State.{LeaseRecord}
use gpuq.State.Leases.{get_lease, insert_lease}
use gpuq.Protocol.{Lease, Event, Payload}
use gpuq.Server.{Server, Outcome, answers}
use gpuq.Server.Submit.{text_or_none}
use gpuq.Server.Lease.{may_grant, grant, handle_release}
use gpuq.Server.Run.{begin_run, report_evicted, open_logs}
use gpuq.Server.Schedule.{evicting, running, System, Step, Reach, here, next}

abbrev pub new_lease : (lid now : Text) → Lease → LeaseRecord
new_lease lid now req = record {
  id = lid;
  reason = text_or_none req.reason;
  granted_at = some now;
  expires_at = none;
  released_at = none;
}

abbrev pub with_lease : (lid now : Text) → Lease → Server → Server
with_lease lid now req s = record s {
  leases = s.leases ++ new_lease lid now req ∷ [];
  lease_held = true;
  lease_id = some lid;
}

-- A grant with an id that no lease has yet.
grant_fresh :
    (lid now : Text) (req : Lease) (s : Server)
    → get_lease lid s.leases ≡ none
    → grant lid now req s
      ≡ answers (with_lease lid now req s) (Event.result (Payload.granted lid now))
unfolding grant insert_lease
grant_fresh lid now req s h =
    let inserted : insert_lease (new_lease lid now req) s.leases
        ≡ some (s.leases ++ new_lease lid now req ∷ []) =
      rw (h, insert_lease) in
    rw (inserted, grant)

begun_held : (jid : Text) (s : Server) → (begin_run [] [] [] jid s).lease_held ≡ s.lease_held
unfolding begin_run report_evicted open_logs
begun_held jid s = refl

-- From every state in which the scheduler awaits the eviction for a popped job, a lease may be
-- granted and the lease's id is new: steps lead to a state in which a lease is held and the job runs.
pub lease_overlaps_job :
    (w : System) (jid lid : Text) (req : Lease)
    → w.pc ≡ evicting jid
    → may_grant w.server ≡ true
    → get_lease lid w.server.leases ≡ none
    → (v : System) × Reach w v × (v.pc ≡ running jid) × (v.server.lease_held ≡ true)
lease_overlaps_job w jid lid req p m f =
    let after : Server = (grant lid [] req w.server).after in
    let begun : System = record {
      server = begin_run [] [] [] jid after;
      pc = running jid;
      granting = w.granting;
    } in
    let tested = next here (Step.lease_pass req m refl) in
    let granted = next tested (Step.lease_grant [] w.granting req lid [] refl refl) in
    let held : after.lease_held ≡ true = rw (grant_fresh lid [] req w.server f) in
    (begun, next granted (Step.begin jid [] [] [] p refl), refl, begun_held jid after ∙ held)

get_lease-append :
    (lid : Text) (t : List LeaseRecord) (r : LeaseRecord)
    → get_lease lid (t ++ r ∷ []) ≡ (
        if is_some (get_lease lid t)
        then get_lease lid t
        else if text_eq r.id lid
        then some r
        else none)
unfolding get_lease
get_lease-append lid [] r = refl
get_lease-append lid (x ∷ t) r = ground (arith, get_lease-append lid t r)

-- From every state in which a lease may be granted, two requests with different new ids can both be
-- granted, one while the other is held. The server then knows the second alone: the release of the first is answered with
-- `ok: false` and changes nothing.
pub leases_overlap :
    (w : System) (first second now : Text) (req : Lease)
    → may_grant w.server ≡ true
    → get_lease first w.server.leases ≡ none
    → get_lease second w.server.leases ≡ none
    → text_eq first second ≡ false
    → (v : System) × Reach w v
      × (get_lease first v.server.leases ≡ some (new_lease first now req))
      × (get_lease second v.server.leases ≡ some (new_lease second now req))
      × (v.server.lease_id ≡ some second)
      × (handle_release first now v.server ≡ answers v.server (Event.result (Payload.ok false)))
unfolding handle_release
leases_overlap w first second now req m f g ne =
    let s1 : Server = with_lease first now req w.server in
    let s2 : Server = with_lease second now req s1 in
    let e1 = ap (λ (o : Outcome). o.after) (grant_fresh first now req w.server f) in
    let fresh2 : get_lease second s1.leases ≡ none =
      get_lease-append second w.server.leases (new_lease first now req) ∙ rw g (rw ne) in
    let e2 = ap (λ (o : Outcome). o.after) (grant_fresh second now req s1 fresh2) in
    let e = ap (λ (s : Server). (grant second now req s).after) e1 ∙ e2 in
    let first_kept : get_lease first s1.leases ≡ some (new_lease first now req) =
      get_lease-append first w.server.leases (new_lease first now req)
      ∙ rw f (rw (text_eq_refl first)) in
    let other : text_eq second first ≡ false =
      ground (arith, text_eq_iff first second, text_eq_iff second first) in
    (
      record { server = s2; pc = w.pc; granting = w.granting },
      next
          (next (next (next here (Step.lease_pass req m refl)) (Step.lease_pass req m refl))
            (Step.lease_grant [] (req ∷ w.granting) req first now refl refl))
          (Step.lease_grant [] w.granting req second now refl
            (λ i. record { server = sym e i; pc = w.pc; granting = w.granting })),
      get_lease-append first s1.leases (new_lease second now req) ∙ rw first_kept,
      get_lease-append second s1.leases (new_lease second now req)
          ∙ rw fresh2 (rw (text_eq_refl second)),
      refl,
      rw other,
    )
