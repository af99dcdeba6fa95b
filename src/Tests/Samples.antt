-- ===== src/Tests/Samples.antt =====
-- A small table of jobs and a server, and what the store, the queue and the handlers do on them.
use gpuq.Common.{◌≡◌, refl, true, false, [], ◌∷◌, none, some}
use gpuq.Common.Text.{Text, text, text_eq, text_le}
use gpuq.Common.Int.{ℤ, pos, negsuc, ◌+ℤ◌, ◌-ℤ◌, max_ℤ}
use gpuq.Common.Sort.{sort, insert}
use gpuq.State.{JobState, queued, running, done, failed, state_eq, JobRecord, Table}
use gpuq.State.Jobs.{
  get, insert_job, delete, row_le, matches, find, update_where, update_state, max_priority,
  max_queued_priority, above, bump, next_queued, running_jobs,
}
use gpuq.State.Leases.{get_lease}
use gpuq.Queue
use gpuq.Queue.{Queue, new_queue, enqueue, pop, index_from, position}
use gpuq.Queue.View.{view}
use gpuq.Queue.Fifo.{pops}
use gpuq.Queue.Runtime.{
  recent_mean_runtime, mean, durations, has_runtime, finished_later, wedge_signature, wedge_started,
  wedge_pid,
}
use gpuq.Bus
use gpuq.Bus.{new_bus}
use gpuq.Protocol.{Prune, Doctor, Submit}
use gpuq.Server.{Server, start, reconcile_on_startup, fail_all}
use gpuq.Server.Submit.{handle_submit, submit_record, submit_priority, queued_event}
use gpuq.Server.Eta.{compute_eta, running_remaining}
use gpuq.Server.Run.{begin_run, report_evicted, open_logs}
use gpuq.Server.Lease.{may_grant}
use gpuq.Server.Stream.{stream_until_terminal}
use gpuq.Server.Repair.{
  Surroundings, prune_states, is_pruned, sweep, prune_candidates, delete_job, handle_prune,
  candidates, signature_of, treat, examine, handle_doctor,
}
use gpuq.Server.Cancel.{handle_cancel, cancel_queued}

-- Names all that a run computes with.
unfoldable pub program : Unit {0}
unfolding get insert_job delete row_le matches find update_where update_state max_priority max_ℤ
    max_queued_priority above ◌+ℤ◌ ◌-ℤ◌ bump next_queued running_jobs state_eq text_eq text_le sort
    insert new_queue enqueue pop index_from position Queue.cancel view pops get_lease may_grant
    prune_states is_pruned sweep prune_candidates delete_job handle_prune candidates signature_of
    wedge_signature wedge_started wedge_pid treat examine handle_doctor handle_cancel cancel_queued
    Bus.publish Bus.close Bus.put_all stream_until_terminal
program = tt

-- The handlers and the scheduler's steps too.
unfoldable pub run_program : Unit {0}
unfolding program handle_submit submit_record submit_priority queued_event compute_eta
    recent_mean_runtime mean durations running_remaining begin_run report_evicted open_logs start
    reconcile_on_startup fail_all Queue.pop Bus.subscribe Bus.unsubscribe has_runtime finished_later
run_program = tt

abbrev pub job : Text → JobState → ℤ → Text → JobRecord
job id state priority stamp = record {
  id = id;
  cmd = text "true" ∷ [];
  cwd = text "/tmp";
  env = [];
  tag = [];
  priority = priority;
  state = state;
  pid = none;
  exit_code = none;
  submitted_at = stamp;
  started_at = none;
  finished_at = none;
  parent_id = none;
  description = none;
}

abbrev pub a : JobRecord
a = job (text "j_a") queued (pos 0) (text "2026-01-01")

abbrev pub b : JobRecord
b = job (text "j_b") queued (pos 5) (text "2026-01-03")

abbrev pub c : JobRecord
c = job (text "j_c") queued (pos 0) (text "2026-01-02")

abbrev pub d : JobRecord
d = job (text "j_d") done (pos 9) (text "2026-01-01")

abbrev pub jobs : Table
jobs = c ∷ d ∷ a ∷ b ∷ []

-- A job that a daemon started, and no process of it is left.
abbrev pub e : JobRecord
e = record (job (text "j_e") running (pos 0) (text "2026-01-01")) {
  started_at = some (text "2026-01-01");
}

abbrev pub e_queued : JobRecord
e_queued = job (text "j_e") queued (pos 0) (text "2026-01-01")

abbrev pub now : Text
now = text "2026-02-01"

view-jobs : view jobs ≡ b ∷ a ∷ c ∷ []
unfolding program
view-jobs = refl

next_queued-jobs : next_queued jobs ≡ some b
unfolding program
next_queued-jobs = refl

position-jobs : position (text "j_c") (new_queue jobs) ≡ some 3
unfolding program
position-jobs = refl

pops-jobs : pops (now ∷ now ∷ now ∷ now ∷ []) (new_queue jobs) ≡ b ∷ a ∷ c ∷ []
unfolding program
pops-jobs = refl

bump-jobs : next_queued (bump (text "j_c") jobs).1 ≡ some (record c { priority = pos 6 })
unfolding program
bump-jobs = refl

bump-done : (bump (text "j_d") jobs).0 ≡ false
unfolding program
bump-done = refl

insert_job_duplicate : insert_job a jobs ≡ none
unfolding program
insert_job_duplicate = refl

abbrev pub server : Server
server = record {
  queue = record { jobs = e ∷ jobs; notify = true };
  leases = [];
  bus = new_bus;
  current_job_id = none;
  lease_held = false;
  lease_id = none;
  stopping = false;
  log_dirs = [];
}

abbrev pub prune_all : Prune
prune_all = record { older_than_s = pos 0; states = []; keep_tag = []; dry_run = false }

-- `prune --state running`
abbrev pub prune_active : Prune
prune_active = record prune_all { states = running ∷ [] }

abbrev pub examiner : Surroundings
examiner = record {
  parse = λ stamp. some (pos 0);
  now = pos 100;
  log_size = λ jid. none;
  alive = λ pid. false;
  clock = λ jid. now;
}

abbrev pub doctor_all : Doctor
doctor_all = record { fix = true; ids = []; min_age_s = pos 60 }

abbrev pub plain : Submit
plain = record {
  cmd = text "true" ∷ [];
  cwd = text "/tmp";
  env = [];
  tag = [];
  priority = pos 0;
  detach = true;
  next_ = true;
  description = [];
  parent_id = [];
}

-- The wedged job is failed, and the running job is deleted by `prune --state running`.
handle_doctor-server :
    get (text "j_e") (handle_doctor examiner doctor_all server).after.queue.jobs
    ≡ some (record e { state = failed; exit_code = some (negsuc 0); finished_at = some now })
unfolding program
handle_doctor-server = refl

handle_prune-server : (handle_prune now prune_active server).after.queue.jobs ≡ []
unfolding program
handle_prune-server = refl
