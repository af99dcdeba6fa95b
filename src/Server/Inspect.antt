-- ===== src/Server/Inspect.antt =====
-- `_handle_ps`, `_handle_show` and `_handle_bump` of src/gpuq/daemon/server.py.
use gpuq.Common.{false, List, [], ◌∷◌, map, Option, none, some, if◌then◌else◌}
use gpuq.Common.Text.{Text}
use gpuq.State.{JobState}
use gpuq.State.Jobs.{get, find, bump}
use gpuq.Protocol.{Ps, Event, Payload}
use gpuq.Server.{Server, jobs, with_jobs, Outcome, answers, job_dict, job_dict_or_none}

-- `req.states or None`
abbrev pub states_or_none : List JobState → Option (List JobState)
states_or_none [] = none
states_or_none (s ∷ ss) = some (s ∷ ss)

unfoldable pub handle_ps : Ps → Server → Outcome
handle_ps req s = answers s (
    Event.result (
      Payload.jobs (
        map job_dict (
          find
            (record {
              state = req.state;
              states = states_or_none req.states;
              tag = req.tag;
              since = req.since;
            })
            (jobs s)))))

unfoldable pub handle_show : Text → Server → Outcome
handle_show jid s = answers s (Event.result (Payload.job (job_dict_or_none (get jid (jobs s)))))

unfoldable pub handle_bump : Text → Server → Outcome
handle_bump jid s =
    let (done, t) = bump jid (jobs s) in
    answers (with_jobs s t) (
      Event.result
        (if done then Payload.ok_job (job_dict_or_none (get jid t)) else Payload.ok false))
