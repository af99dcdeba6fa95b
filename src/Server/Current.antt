-- ===== src/Server/Current.antt =====
-- `_current_job_id` of src/gpuq/daemon/server.py, after any steps.
use mathlib.Core.Path.{subst}
use gpuq.Common.{
  ◌≡◌, ◌⊎◌, refl, sym, ◌∙◌, List, [], ◌∷◌, Option, Option-cases, none, some, arith, Bool-cases, inl,
  inr,
}
use gpuq.Common.Text.{Text, text}
use gpuq.State.{JobRecord}
use gpuq.Queue.{enqueue}
use gpuq.Queue.Runtime.{Parser}
use gpuq.Protocol.{Lease, Micros, Submit, Retry}
use gpuq.Server.{Server, jobs}
use gpuq.Server.Inspect.{handle_bump}
use gpuq.Server.Submit.{handle_submit, submit_record, handle_retry, retry_enqueue}
use gpuq.Server.Cancel.{cancel_queued}
use gpuq.Server.Repair.{delete_job}
use gpuq.Server.Lease.{grant, handle_release}
use gpuq.Server.Run.{
  begin_run, abort_run, note_pid, mirror_line, finish_run, open_logs, report_evicted,
}
use gpuq.Server.Repair.Kept.{handle_doctor-keeps, handle_prune-keeps}
use gpuq.Server.Schedule.{
  Pc, running, stopped, System, Step, Reach, here, next, popped, after_pop, Client,
}

-- The job whose runner the scheduler awaits.
abbrev pub run_of : Pc → Option Text
run_of (running jid) = some jid
run_of _ = none

-- The handlers of the clients leave `_current_job_id` as it is.
handle_submit-current :
    (parse : Parser) (now : Micros) (jid stamp : Text) (req : Submit) (s : Server)
    → (handle_submit parse now jid stamp req s).after.current_job_id ≡ s.current_job_id
unfolding handle_submit
handle_submit-current parse now jid stamp req s =
    elim (Option-cases (enqueue (submit_record jid stamp req (jobs s)) s.queue)) [
      | inl duplicate ↦ rw (duplicate, handle_submit) refl
      | inr (q, e) ↦ elim (Bool-cases req.detach) [
        | inl detached ↦ rw (e, handle_submit) (rw detached refl)
        | inr streaming ↦ rw (e, handle_submit) (rw streaming refl)
      ]
    ]

handle_retry-current :
    (jid now : Text) (req : Retry) (s : Server)
    → (handle_retry jid now req s).after.current_job_id ≡ s.current_job_id
unfolding handle_retry retry_enqueue
handle_retry-current jid now req s = ground arith

handle_release-current :
    (lid now : Text) (s : Server)
    → (handle_release lid now s).after.current_job_id ≡ s.current_job_id
unfolding handle_release
handle_release-current lid now s = ground arith

grant-current :
    (lid now : Text) (req : Lease) (s : Server)
    → (grant lid now req s).after.current_job_id ≡ s.current_job_id
unfolding grant
grant-current lid now req s = ground arith

Client-current : {s t : Server} → Client s t → t.current_job_id ≡ s.current_job_id
Client-current {s} (Client.submit parse now jid stamp req e) =
    rw e (handle_submit-current parse now jid stamp req s)
Client-current {s} (Client.retry jid now req e) = rw e (handle_retry-current jid now req s)
Client-current {s} (Client.bump jid e) = rw e (unfold handle_bump in refl)
Client-current {s} (Client.cancel now jid h e) = rw e (unfold cancel_queued in refl)
Client-current {s} (Client.doctor w req e) =
    rw e (
      handle_doctor-keeps (λ t. t.current_job_id ≡ s.current_job_id) (λ jid now t h. h) w req s
        refl)
Client-current {s} (Client.prune cutoff req e) = rw e (
    handle_prune-keeps (λ t. t.current_job_id ≡ s.current_job_id)
      (λ jid t h. unfold delete_job in h) cutoff req s refl)
Client-current {s} (Client.release lid now e) = rw e (handle_release-current lid now s)
Client-current {s} (Client.subscribe jid e) = rw e refl
Client-current {s} (Client.unsubscribe jid key e) = rw e refl

report_evicted-current :
    (jid : Text) (models : List Text) (s : Server)
    → (report_evicted jid models s).current_job_id ≡ s.current_job_id
unfolding report_evicted
report_evicted-current jid [] s = refl
report_evicted-current jid (m ∷ models) s = refl

-- `_current_job_id` is the job whose runner is awaited, or None. Where the task was cancelled while it
-- awaited the mirror of a job, that job remains.
abbrev pub HasCurrent : Pc → Option Text → Type 0
HasCurrent (stopped (some c)) current = (current ≡ none) ⊎ (current ≡ some c)
HasCurrent pc current = current ≡ run_of pc

abbrev IsCurrent : System → Type 0
IsCurrent w = HasCurrent w.pc w.server.current_job_id

HasCurrent-same : (pc : Pc) (a b : Option Text) → b ≡ a → HasCurrent pc a → HasCurrent pc b
HasCurrent-same pc a b e h = subst (λ current. HasCurrent pc current) (sym e) h

after_pop-HasCurrent :
    (o : Option JobRecord) (current : Option Text)
    → current ≡ none
    → HasCurrent (after_pop o) current
after_pop-HasCurrent none current h = h
after_pop-HasCurrent (some job) current h = h

Step-IsCurrent : {w v : System} → Step w v → IsCurrent w → IsCurrent v
unfolding begin_run abort_run note_pid mirror_line finish_run open_logs
Step-IsCurrent {w} (Step.client c e) h = rw e (HasCurrent-same w.pc _ _ (Client-current c) h)
Step-IsCurrent {w} (Step.see_lease p n s l e) h = rw e (rw p at h)
Step-IsCurrent {w} (Step.lease_over p l e) h = rw e (rw p at h)
Step-IsCurrent {w} (Step.pop now p m e) h =
    rw e (after_pop-HasCurrent (popped now w.server).0 _ (rw p at h))
Step-IsCurrent {w} (Step.begin jid models now shown p e) h = rw e refl
Step-IsCurrent {w} (Step.abort jid models now p e) h =
    rw e (report_evicted-current jid models w.server ∙ (rw p at h))
Step-IsCurrent {w} (Step.pid jid n p e) h = rw e h
Step-IsCurrent {w} (Step.line jid stream text p e) h = rw e h
Step-IsCurrent {w} (Step.finish jid r now p e) h = rw e refl
Step-IsCurrent {w} (Step.lease_pass req m e) h = rw e h
Step-IsCurrent {w} (Step.lease_grant before rest req lid now g e) h =
    rw e (HasCurrent-same w.pc _ _ (grant-current lid now req w.server) h)
Step-IsCurrent {w} (Step.stop_idle p e) h = elim p [
  | inl top ↦ rw e (rw top at h)
  | inr held ↦ rw e (rw held at h)
]
Step-IsCurrent {w} (Step.stop_evicting jid p e) h = rw e (inl (rw p at h))
Step-IsCurrent {w} (Step.stop_mirroring jid p e) h = rw e (inr (rw p at h))
Step-IsCurrent {w} (Step.stop_running jid now p e) h = rw e refl

pub Reach-IsCurrent : {w v : System} → Reach w v → IsCurrent w → IsCurrent v
Reach-IsCurrent here h = h
Reach-IsCurrent (next r s) h = Step-IsCurrent s (Reach-IsCurrent r h)
