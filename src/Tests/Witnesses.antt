-- ===== src/Tests/Witnesses.antt =====
-- Each property with hypotheses, applied at the samples.
use gpuq.Protocol.{Submit}
use gpuq.Server.Submit.{handle_submit, submit_record}
use gpuq.Runner.{process}
use gpuq.State.{state_name}
use gpuq.Common.{◌⊎◌, List}
use gpuq.Common.{◌≡◌, refl, [], ◌∷◌, ◌++◌, none, some, true, false, take, not, ◌&&◌, if◌then◌else◌}
use gpuq.Common.Text.{Text, text}
use gpuq.Common.Int.{pos}
use gpuq.State.Jobs.{
  get, bump, next_queued, above, max_queued_priority, set_priority, update_where, apply_change,
}
use gpuq.State.Keys.{IsKeyed}
use gpuq.State.Priority.{bump_front}
use gpuq.Queue.{Queue, new_queue}
use gpuq.Queue.View.{view}
use gpuq.Queue.Fifo.{pops, pops-view}
use gpuq.Protocol.{Retry, Event, Payload, Stream, Cancel, Signal}
use gpuq.Server.{lost_change, answers, reconcile_on_startup}
use gpuq.Server.Submit.{handle_retry}
use gpuq.Server.Submit.Stored.{handle_submit_next, handle_retry_lem, may_retry, copy_of}
use gpuq.Server.Repair.{handle_prune, handle_doctor}
use gpuq.Server.Repair.PruneLaws.{prune_preview, handle_prune_lem, prune_deletes_active, may_go}
use gpuq.Server.Repair.DoctorLaws.{handle_doctor_lem, is_fixed}
use gpuq.Server.Cancel.{Wait, handle_cancel, terminal_at}
use gpuq.Server.Cancel.Ended.{cancel_ok_ended}
use gpuq.Server.Reconcile.{reconcile_lem, reconciled}
use gpuq.Tests.Samples.{
  plain, program, jobs, c, d, e, now, server, prune_all, prune_active, examiner, doctor_all,
  e_queued,
}

jobs-IsKeyed : IsKeyed jobs
unfolding program
jobs-IsKeyed = (refl, (refl, (refl, (refl, tt))))

pub crowd-IsKeyed : IsKeyed server.queue.jobs
unfolding program
crowd-IsKeyed = (refl, jobs-IsKeyed)

bump_front_example :
    let p = above (max_queued_priority (some (text "j_c")) jobs) in
    (bump (text "j_c") jobs ≡ (true, update_where (text "j_c") (set_priority p) jobs))
    × (next_queued (bump (text "j_c") jobs).1 ≡ some (set_priority p c))
unfolding program
bump_front_example = bump_front (text "j_c") jobs c jobs-IsKeyed refl refl

pops-view_example : pops (now ∷ now ∷ []) (new_queue jobs) ≡ take 2 (view (new_queue jobs).jobs)
unfolding program
pops-view_example = pops-view (now ∷ now ∷ []) (new_queue jobs) jobs-IsKeyed

abbrev grown : Queue
grown = record { jobs = jobs ++ e_queued ∷ []; notify = true }

abbrev again : Retry
again = record { id = text "j_d"; force = true }

handle_retry_lem_example :
    ((may_retry again.force d.state ≡ true)
      × ((handle_retry (text "j_z") now again server).after.queue
          ≡ record { jobs = server.queue.jobs ++ copy_of (text "j_z") now d ∷ []; notify = true }))
    ⊎ ((may_retry again.force d.state ≡ false)
        × (handle_retry (text "j_z") now again server
            ≡ answers server
                (Event.result (Payload.refused (text "state=" ++ state_name d.state)))))
unfolding program
handle_retry_lem_example = handle_retry_lem (text "j_z") now again server d refl refl

prune_preview_example :
    let dry = handle_prune now (record prune_all { dry_run = true }) server in
    let real = handle_prune now (record prune_all { dry_run = false }) server in
    (dry.after ≡ server)
    × ((ids : List Text) × (dry.sent ≡ Event.result (Payload.deleted ids true) ∷ [])
        × (real.sent ≡ Event.result (Payload.deleted ids false) ∷ []))
prune_preview_example = prune_preview now prune_all server

abbrev hurried : Submit
hurried = record plain { next_ = true }

handle_submit_next_example :
    next_queued (handle_submit (λ s. none) (pos 0) (text "j_z") now hurried server).after.queue.jobs
    ≡ some (submit_record (text "j_z") now hurried server.queue.jobs)
unfolding program
handle_submit_next_example =
    handle_submit_next (λ s. none) (pos 0) (text "j_z") now hurried server refl refl

handle_prune_lem_example :
    get (text "j_d") (handle_prune now prune_all server).after.queue.jobs
    ≡ (if not prune_all.dry_run && may_go now prune_all d then none else some d)
unfolding program
handle_prune_lem_example = handle_prune_lem now prune_all server (text "j_d") d crowd-IsKeyed refl

prune_deletes_active_example :
    get (text "j_e") (handle_prune now prune_active server).after.queue.jobs ≡ none
unfolding program
prune_deletes_active_example =
    prune_deletes_active now prune_active server (text "j_e") e crowd-IsKeyed refl refl (λ h. cc)
      (refl, _) refl

handle_doctor_lem_example :
    get (text "j_e") (handle_doctor examiner doctor_all server).after.queue.jobs
    ≡ some (
        if doctor_all.fix && is_fixed examiner doctor_all server e
        then apply_change (lost_change now) e
        else e)
unfolding program
handle_doctor_lem_example =
    handle_doctor_lem examiner doctor_all server (text "j_e") e crowd-IsKeyed refl

abbrev nothing_seen : Wait
nothing_seen = record { runner = process none; polls = []; last = server }

abbrev cancel_b : Cancel
cancel_b = record { id = text "j_b"; signal = Signal.term; timeout = pos 10 }

cancel_ok_ended_example :
    terminal_at
      (text "j_b")
      (handle_cancel now cancel_b nothing_seen nothing_seen server).outcome.after
    ≡ true
unfolding program
cancel_ok_ended_example = cancel_ok_ended now cancel_b nothing_seen nothing_seen server refl

abbrev hello : Event
hello = Event.log (text "j_e") Stream.stdout (text "hello")

reconcile_lem_example :
    get (text "j_e") (reconcile_on_startup (λ jid. now) (e ∷ jobs)) ≡ some (reconciled now e)
unfolding program
reconcile_lem_example = reconcile_lem (λ jid. now) (e ∷ jobs) (text "j_e") e crowd-IsKeyed refl
