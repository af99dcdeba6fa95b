-- ===== src/Server/Submit/Stored.antt =====
-- What a submission and a retry leave in the store.
use gpuq.State.{state_name}
use gpuq.Common.{arith, ◌⊎◌, Bool, ◌&&◌, ◌||◌, sym, inl, inr, Bool-cases}
use gpuq.Common.{◌≡◌, refl, ap, ◌∙◌, true, false, [], ◌∷◌, ◌++◌, none, some, Bool-cases, inl, inr}
use gpuq.Common.Text.{Text, text}
use gpuq.State.{JobState, queued, done, failed, cancelled, state_eq, JobRecord, Table}
use gpuq.State.Jobs.{get, insert_job, next_queued, above, max_queued_priority}
use gpuq.State.Priority.{next_queued-append}
use gpuq.Queue.{Queue, enqueue}
use gpuq.Queue.Runtime.{Parser}
use gpuq.Protocol.{Submit, Retry, Event, Payload, Micros}
use gpuq.Server.{Server, jobs, answers}
use gpuq.Server.Submit.{
  handle_submit, submit_record, submit_priority, handle_retry, retry_record, retry_allowed,
  retry_enqueue,
}

insert_job_fresh :
    (j : JobRecord) (t : Table) → get j.id t ≡ none → insert_job j t ≡ some (t ++ j ∷ [])
unfolding insert_job
insert_job_fresh j t h = rw (h, insert_job)

pub enqueue_fresh :
    (j : JobRecord) (q : Queue)
    → get j.id q.jobs ≡ none
    → enqueue j q ≡ some (record { jobs = q.jobs ++ j ∷ []; notify = true })
unfolding enqueue
enqueue_fresh j q h = rw (insert_job_fresh j q.jobs h, enqueue)

insert_job_taken :
    (j : JobRecord) (t : Table) (r : JobRecord) → get j.id t ≡ some r → insert_job j t ≡ none
unfolding insert_job
insert_job_taken j t r h = rw (h, insert_job)

enqueue_taken :
    (j : JobRecord) (q : Queue) (r : JobRecord) → get j.id q.jobs ≡ some r → enqueue j q ≡ none
unfolding enqueue
enqueue_taken j q r h = rw (insert_job_taken j q.jobs r h, enqueue)

-- A submission with a fresh id puts the job at the end of the table, wakes the scheduler and answers
-- with one event.
handle_submit-jobs :
    (parse : Parser) (now : Micros) (jid stamp : Text) (req : Submit) (s : Server)
    → get jid (jobs s) ≡ none
    → ((handle_submit parse now jid stamp req s).after.queue
        ≡ record { jobs = jobs s ++ submit_record jid stamp req (jobs s) ∷ []; notify = true })
      × ((handle_submit parse now jid stamp req s).raised ≡ false)
unfolding handle_submit submit_record
handle_submit-jobs parse now jid stamp req s h =
    let rec = submit_record jid stamp req (jobs s) in
    rw (enqueue_fresh rec s.queue h, handle_submit)
      (elim (Bool-cases req.detach) [
        | inl detached ↦ rw detached (refl, refl)
        | inr streaming ↦ rw streaming (refl, refl)
      ])

-- A submission with an id that is taken raises, and leaves the queue as it was.
pub handle_submit_duplicate :
    (parse : Parser) (now : Micros) (jid stamp : Text) (req : Submit) (s : Server) (r : JobRecord)
    → get jid (jobs s) ≡ some r
    → ((handle_submit parse now jid stamp req s).raised ≡ true)
      × ((handle_submit parse now jid stamp req s).after.queue ≡ s.queue)
unfolding handle_submit submit_record
handle_submit_duplicate parse now jid stamp req s r h =
    rw (enqueue_taken (submit_record jid stamp req (jobs s)) s.queue r h, handle_submit)
      (refl, refl)

-- A submission with `next` and a fresh id makes the new job the next one to run, ahead of every
-- queued job.
pub handle_submit_next :
    (parse : Parser) (now : Micros) (jid stamp : Text) (req : Submit) (s : Server)
    → get jid (jobs s) ≡ none
    → req.next_ ≡ true
    → next_queued (jobs (handle_submit parse now jid stamp req s).after)
      ≡ some (submit_record jid stamp req (jobs s))
unfolding submit_record submit_priority state_eq
handle_submit_next parse now jid stamp req s h n =
    let rec = submit_record jid stamp req (jobs s) in
    let stored = ap (λ (q : Queue). q.jobs) (handle_submit-jobs parse now jid stamp req s h).0 in
    let on_top : rec.priority ≡ above (max_queued_priority none (jobs s)) = rw n refl in
    ap next_queued stored ∙ next_queued-append (jobs s) rec refl on_top

retry_enqueue-jobs :
    (jid : Text) (j : JobRecord) (s : Server)
    → get j.id (jobs s) ≡ none
    → (retry_enqueue jid j s).after.queue ≡ record { jobs = jobs s ++ j ∷ []; notify = true }
unfolding retry_enqueue
retry_enqueue-jobs jid j s h = rw (enqueue_fresh j s.queue h, retry_enqueue) refl

-- The states of the jobs that may be retried.
abbrev pub may_retry : (force : Bool) → JobState → Bool
may_retry force s = state_eq s failed || (state_eq s cancelled || (force && state_eq s done))

retry_allowed-may_retry : (force : Bool) (s : JobState) → retry_allowed force s ≡ may_retry force s
unfolding state_eq
retry_allowed-may_retry force s = ground arith

-- What is run again: the command, where and how. The rest of the row is that of a new job.
abbrev pub copy_of : (jid now : Text) → JobRecord → JobRecord
copy_of jid now r = record {
  id = jid;
  cmd = r.cmd;
  cwd = r.cwd;
  env = r.env;
  tag = r.tag;
  priority = r.priority;
  state = queued;
  pid = none;
  exit_code = none;
  submitted_at = now;
  started_at = none;
  finished_at = none;
  parent_id = some r.id;
  description = r.description;
}

-- The retry of a known job under a fresh id: if the job has failed or was cancelled, or is done and
-- the retry is forced, a queued job with its command, directory, environment, tag, priority and
-- description, and with the job as its parent, joins the table behind all rows, and the scheduler is
-- woken. Otherwise nothing changes, and the answer names the state.
pub handle_retry_lem :
    (jid now : Text) (req : Retry) (s : Server) (r : JobRecord)
    → get req.id (jobs s) ≡ some r
    → get jid (jobs s) ≡ none
    → ((may_retry req.force r.state ≡ true)
        × ((handle_retry jid now req s).after.queue
            ≡ record { jobs = jobs s ++ copy_of jid now r ∷ []; notify = true }))
      ⊎ ((may_retry req.force r.state ≡ false)
          × (handle_retry jid now req s
              ≡ answers s (Event.result (Payload.refused (text "state=" ++ state_name r.state)))))
unfolding handle_retry retry_record
handle_retry_lem jid now req s r g h =
    let same = retry_allowed-may_retry req.force r.state in
    elim (Bool-cases (retry_allowed req.force r.state)) [
      | inl allowed ↦ inl (
        sym same ∙ allowed,
        rw (g, handle_retry) (rw allowed (retry_enqueue-jobs jid (retry_record jid now r) s h)),
      )
      | inr refused ↦ inr (sym same ∙ refused, rw (g, handle_retry) (rw refused refl))
    ]
