-- ===== src/Server/Lease.antt =====
-- `_handle_lease` and `_handle_release` of src/gpuq/daemon/server.py. `_handle_lease` is two pieces
-- of code with an await between them: the test of its loop, and what follows `ollama.evict()`.
use gpuq.Common.{Bool, true, false, not, ◌&&◌, [], Option, none, some, if◌then◌else◌, is_some}
use gpuq.Common.Text.{Text, text_eq}
use gpuq.State.Leases.{insert_lease, release}
use gpuq.Protocol.{Lease, Event, Payload}
use gpuq.Server.{Server, Outcome, answers}
use gpuq.Server.Submit.{text_or_none}

-- The loop `while self._current_job_id is not None or self._lease_held.is_set()` ends.
unfoldable pub may_grant : Server → Bool
may_grant s = not (is_some s.current_job_id) && not s.lease_held

-- After `evict()`: nothing is tested again. `raised` is the IntegrityError of a lease id drawn twice.
unfoldable pub grant : (lid now : Text) → Lease → Server → Outcome
grant lid now req s =
    elim (insert_lease
      (record {
        id = lid;
        reason = text_or_none req.reason;
        granted_at = some now;
        expires_at = none;
        released_at = none;
      })
      s.leases) [
        | none ↦ record { sent = []; after = s; raised = true }
        | some leases ↦
            answers (record s { leases = leases; lease_held = true; lease_id = some lid })
              (Event.result (Payload.granted lid now))
      ]

-- `self._lease_id == req.lease_id`
abbrev pub holds : Text → Option Text → Bool
holds lid none = false
holds lid (some held) = text_eq held lid

unfoldable pub handle_release : (lid now : Text) → Server → Outcome
handle_release lid now s =
    if holds lid s.lease_id
    then answers
        (record s {
          leases = release lid now s.leases;
          lease_held = false;
          lease_id = none;
          queue = record { jobs = s.queue.jobs; notify = true };
        })
        (Event.result (Payload.ok true))
    else answers s (Event.result (Payload.ok false))
