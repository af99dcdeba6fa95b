-- ===== src/Server/Schedule.antt =====
-- The daemon as interleaved steps: the scheduler task of `_scheduler` and `_run_job`, and the
-- handlers of its clients (src/gpuq/daemon/server.py). A step is what runs between two awaits.
use gpuq.Common.{ℕ, ◌≡◌, ◌⊎◌, Bool, true, false, ◌&&◌, not, List, [], ◌∷◌, ◌++◌, Option, none, some}
use gpuq.Common.Text.{Text}
use gpuq.State.{JobRecord, Table, LeaseRecord}
use gpuq.Queue
use gpuq.Queue.{Queue}
use gpuq.Queue.Runtime.{Parser}
use gpuq.Queue.Fifo.{waits}
use gpuq.Bus
use gpuq.Protocol.{Submit, Retry, Doctor, Prune, Lease, Stream, Micros}
use gpuq.Server.{Server, jobs, start}
use gpuq.Server.Inspect.{handle_bump}
use gpuq.Server.Submit.{handle_submit, handle_retry}
use gpuq.Server.Cancel.{cancel_queued}
use gpuq.Server.Repair.{Surroundings, handle_doctor, handle_prune}
use gpuq.Server.Lease.{may_grant, grant, handle_release}
use gpuq.Server.Run.{begin_run, abort_run, note_pid, mirror_line, RunResult, crashed, finish_run}

-- Where the scheduler task stands: at the top of its loop, in `_wait_lease_released`, awaiting
-- `ollama.evict()` for a popped job, awaiting the runner of a job or, behind that, its mirror, or
-- cancelled. A task that was cancelled while it awaited the eviction or the mirror leaves the job
-- behind.
pub data Pc : Type 0 where
  waiting lease_wait : Pc
  evicting : (jid : Text) → Pc
  running : (jid : Text) → Pc
  stopped : (left : Option Text) → Pc

-- `granting`: the lease requests that await `ollama.evict()`, their loop behind them.
pub record System : Type 0 where
  pub server : Server
  pub pc : Pc
  pub granting : List Lease

-- What a client's handler does in one step. Handlers that only read the store are left out; the
-- subscriptions that they take and give up change the bus alone.
pub data Client (s : Server) (t : Server) : Type 0 where
  submit :
      (parse : Parser) (now : Micros) (jid stamp : Text) (req : Submit)
      → t ≡ (handle_submit parse now jid stamp req s).after
      → Client s t
  retry : (jid now : Text) (req : Retry) → t ≡ (handle_retry jid now req s).after → Client s t
  bump : (jid : Text) → t ≡ (handle_bump jid s).after → Client s t
  cancel :
      (now jid : Text)
      → waits jid (jobs s) ≡ true
      → t ≡ (cancel_queued now jid s).after
      → Client s t
  doctor : (w : Surroundings) (req : Doctor) → t ≡ (handle_doctor w req s).after → Client s t
  prune : (cutoff : Text) (req : Prune) → t ≡ (handle_prune cutoff req s).after → Client s t
  release : (lid now : Text) → t ≡ (handle_release lid now s).after → Client s t
  subscribe : (jid : Text) → t ≡ record s { bus = (Bus.subscribe jid s.bus).1 } → Client s t
  unsubscribe :
      (jid : Text) (key : ℕ) → t ≡ record s { bus = Bus.unsubscribe jid key s.bus } → Client s t

-- Where the loop of the scheduler goes on after `queue.pop()`.
abbrev pub after_pop : Option JobRecord → Pc
after_pop none = waiting
after_pop (some job) = evicting job.id

abbrev pub popped : (now : Text) → Server → Option JobRecord × Server
popped now s = let (job, q) = Queue.pop now s.queue in (job, record s { queue = q })

-- The scheduler may pop: it was woken, is not stopping, and no lease is held.
abbrev pub may_pop : Server → Bool
may_pop s = s.queue.notify && (not s.stopping && not s.lease_held)

-- `stop` sets the flags; its `cancel()` of the task makes a running job's `finally` block run with
-- `rc` at -1.
abbrev pub stop_flags : Server → Server
stop_flags s = record s { stopping = true; queue = record { jobs = s.queue.jobs; notify = true } }

pub data Step (w : System) (v : System) : Type 0 where
  client : {t : Server} → Client w.server t → v ≡ record w { server = t } → Step w v
  see_lease :
      w.pc ≡ waiting
      → w.server.queue.notify ≡ true
      → w.server.stopping ≡ false
      → w.server.lease_held ≡ true
      → v ≡ record w { pc = lease_wait }
      → Step w v
  lease_over :
      w.pc ≡ lease_wait
      → (w.server.lease_held && not w.server.stopping) ≡ false
      → v ≡ record w { pc = waiting }
      → Step w v
  pop :
      (now : Text)
      → w.pc ≡ waiting
      → may_pop w.server ≡ true
      → v ≡ record w { server = (popped now w.server).1; pc = after_pop (popped now w.server).0 }
      → Step w v
  begin :
      (jid : Text) (models : List Text) (now shown : Text)
      → w.pc ≡ evicting jid
      → v ≡ record w { server = begin_run models now shown jid w.server; pc = running jid }
      → Step w v
  abort :
      (jid : Text) (models : List Text) (now : Text)
      → w.pc ≡ evicting jid
      → v ≡ record w { server = abort_run models now jid w.server; pc = waiting }
      → Step w v
  pid :
      (jid : Text) (pid : ℕ)
      → w.pc ≡ running jid
      → v ≡ record w { server = note_pid pid jid w.server }
      → Step w v
  line :
      (jid : Text) (stream : Stream) (text : Text)
      → w.pc ≡ running jid
      → v ≡ record w { server = mirror_line stream text jid w.server }
      → Step w v
  finish :
      (jid : Text) (r : RunResult) (now : Text)
      → w.pc ≡ running jid
      → v ≡ record w { server = finish_run r now jid w.server; pc = waiting }
      → Step w v
  lease_pass :
      (req : Lease)
      → may_grant w.server ≡ true
      → v ≡ record w { granting = req ∷ w.granting }
      → Step w v
  lease_grant :
      (before rest : List Lease) (req : Lease) (lid now : Text)
      → w.granting ≡ before ++ req ∷ rest
      → v ≡ record w { server = (grant lid now req w.server).after; granting = before ++ rest }
      → Step w v
  stop_idle :
      (w.pc ≡ waiting) ⊎ (w.pc ≡ lease_wait)
      → v ≡ record w { server = stop_flags w.server; pc = stopped none }
      → Step w v
  stop_evicting :
      (jid : Text)
      → w.pc ≡ evicting jid
      → v ≡ record w { server = stop_flags w.server; pc = stopped (some jid) }
      → Step w v
  -- The task is cancelled in the `finally` block, while it awaits `mirror_task`: a CancelledError is
  -- no Exception, and what is left of the block does not run.
  stop_mirroring :
      (jid : Text)
      → w.pc ≡ running jid
      → v ≡ record w { server = stop_flags w.server; pc = stopped (some jid) }
      → Step w v
  stop_running :
      (jid now : Text)
      → w.pc ≡ running jid
      → v
        ≡ record w { server = finish_run crashed now jid (stop_flags w.server); pc = stopped none }
      → Step w v

pub data Reach (w : System) : System → Type 0 where
  here : Reach w w
  next : {u v : System} → Reach w u → Step u v → Reach w v

-- Steps of the scheduler's own task, and no step of a client, a lease request or a stop.
abbrev pub own_step : {w v : System} → Step w v → Bool
own_step (Step.see_lease p n s l e) = true
own_step (Step.lease_over p l e) = true
own_step (Step.pop now p m e) = true
own_step (Step.begin jid models now shown p e) = true
own_step (Step.abort jid models now p e) = true
own_step (Step.pid jid n p e) = true
own_step (Step.line jid stream text p e) = true
own_step (Step.finish jid r now p e) = true
own_step _ = false

pub data Alone (w : System) : System → Type 0 where
  start_alone : Alone w w
  alone : {u v : System} → Alone w u → (st : Step u v) → own_step st ≡ true → Alone w v

-- The daemon right after `start`.
abbrev pub init : (clock : Text → Text) → Table → List LeaseRecord → List Text → System
init clock t leases dirs = record {
  server = start clock t leases dirs;
  pc = waiting;
  granting = [];
}
