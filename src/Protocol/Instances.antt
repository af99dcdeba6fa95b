-- ===== src/Protocol/Instances.antt =====
-- The requests and events as instances of their dataclasses: `asdict`, with the names of the fields
-- as the source spells them, and the dicts that the daemon builds as payloads.
use gpuq.Common.{ℕ, Bool, true, false, List, [], ◌∷◌, Option, none, some, map}
use gpuq.Common.Text.{Text, text}
use gpuq.Common.Int.{ℤ, pos}
use gpuq.State.{JobState, state_name}
use gpuq.Protocol.{Submit, From, Signal, Request, Stream, JobDict, Wedged, Payload, Event, Micros}
use gpuq.Protocol.Json.{
  Json, Items, Fields, end, field, null, bool, int, float, str, arr, obj, nil, cons, texts, or_null,
  text_fields,
}
use gpuq.Protocol.Schema.{Class, Instance}

abbrev pub from_text : From → Text
from_text From.start = text "start"
from_text From.tail = text "tail"
from_text (From.elsewhere s) = s

abbrev pub signal_text : Signal → Text
signal_text Signal.term = text "TERM"
signal_text Signal.kill = text "KILL"
signal_text (Signal.other_signal s) = s

abbrev pub stream_text : Stream → Text
stream_text Stream.stdout = text "stdout"
stream_text Stream.stderr = text "stderr"

abbrev pub opt_text : Option Text → Json
opt_text = or_null str

abbrev pub states_json : List JobState → Json
states_json ss = arr (texts (map state_name ss))

abbrev pub submit_fields : Submit → Fields
submit_fields r = field (text "cmd") (arr (texts r.cmd)) (
    field (text "cwd") (str r.cwd) (
      field (text "env") (obj (text_fields r.env)) (
        field (text "tag") (str r.tag) (
          field (text "priority") (int r.priority) (
            field (text "detach") (bool r.detach) (
              field (text "next_") (bool r.next_) (
                field (text "description") (str r.description)
                  (field (text "parent_id") (str r.parent_id) end))))))))

abbrev one_field : Text → Text → Fields
one_field k v = field k (str v) end

unfoldable pub request_instance : Request → Instance
request_instance (Request.submit r) = record { cls = Class.submit; values = submit_fields r }
request_instance (Request.bump id) = record { cls = Class.bump; values = one_field (text "id") id }
request_instance (Request.attach r) = record {
  cls = Class.attach;
  values = field (text "id") (str r.id) (
      field (text "follow") (bool r.follow)
        (field (text "from_") (str (from_text r.from_)) (field (text "tail") (int r.tail) end)));
}
request_instance (Request.ps r) = record {
  cls = Class.ps;
  values = field (text "tag") (opt_text r.tag) (
      field (text "state") (or_null (λ s. str (state_name s)) r.state) (
        field (text "states") (states_json r.states)
          (field (text "since") (opt_text r.since) end)));
}
request_instance (Request.show id) = record { cls = Class.show; values = one_field (text "id") id }
request_instance (Request.cancel r) = record {
  cls = Class.cancel;
  values = field (text "id") (str r.id) (
      field (text "signal") (str (signal_text r.signal))
        (field (text "timeout") (float r.timeout) end));
}
request_instance (Request.doctor r) = record {
  cls = Class.doctor;
  values =
      field (text "fix") (bool r.fix)
        (field (text "ids") (arr (texts r.ids)) (field (text "min_age_s") (float r.min_age_s) end));
}
request_instance (Request.retry r) = record {
  cls = Class.retry;
  values = field (text "id") (str r.id) (field (text "force") (bool r.force) end);
}
request_instance (Request.prune r) = record {
  cls = Class.prune;
  values = field (text "older_than_s") (float r.older_than_s) (
      field (text "states") (states_json r.states)
        (field (text "keep_tag") (str r.keep_tag) (field (text "dry_run") (bool r.dry_run) end)));
}
request_instance (Request.lease r) = record {
  cls = Class.lease;
  values =
      field (text "duration") (str r.duration)
        (field (text "reason") (str r.reason) (field (text "priority") (int r.priority) end));
}
request_instance (Request.release id) = record {
  cls = Class.release;
  values = one_field (text "lease_id") id;
}
request_instance Request.evict_ollama = record { cls = Class.evict_ollama; values = end }
request_instance Request.restore_ollama = record { cls = Class.restore_ollama; values = end }

abbrev opt_nat : Option ℕ → Json
opt_nat = or_null (λ n. int (pos n))

abbrev opt_int : Option ℤ → Json
opt_int = or_null int

abbrev opt_float : Option Micros → Json
opt_float = or_null float

-- The dict of `_job_dict`.
unfoldable pub job_fields : JobDict → Fields
job_fields j = field (text "id") (str j.id) (
    field (text "cmd") (arr (texts j.cmd)) (
      field (text "cwd") (str j.cwd) (
        field (text "tag") (str j.tag) (
          field (text "priority") (int j.priority) (
            field (text "state") (str (state_name j.state)) (
              field (text "pid") (opt_nat j.pid) (
                field (text "exit_code") (opt_int j.exit_code) (
                  field (text "submitted_at") (str j.submitted_at) (
                    field (text "started_at") (opt_text j.started_at) (
                      field (text "finished_at") (opt_text j.finished_at) (
                        field (text "parent_id") (opt_text j.parent_id)
                          (field (text "description") (opt_text j.description) end))))))))))))

unfoldable pub job_items : List JobDict → Items
job_items [] = nil
job_items (j ∷ js) = cons (obj (job_fields j)) (job_items js)

abbrev opt_job : Option JobDict → Json
opt_job = or_null (λ j. obj (job_fields j))

-- A key that is set only for some entries.
abbrev also {ℓ} : {A : Type ℓ} → Text → (A → Json) → Option A → Fields → Fields
also k f none fs = fs
also k f (some a) fs = field k (f a) fs

unfoldable pub wedged_fields : Wedged → Fields
wedged_fields w = field (text "id") (str w.id) (
    field (text "signature") (str w.signature) (
      field (text "pid") (opt_nat w.pid) (
        field (text "started_at") (opt_text w.started_at)
          (also (text "fixed") bool w.fixed (also (text "reason") str w.reason end)))))

unfoldable pub wedged_items : List Wedged → Items
wedged_items [] = nil
wedged_items (w ∷ ws) = cons (obj (wedged_fields w)) (wedged_items ws)

-- `bool(evicted)`
abbrev some_text : List Text → Bool
some_text [] = false
some_text (x ∷ xs) = true

unfoldable pub payload_fields : Payload → Fields
payload_fields (Payload.jobs js) = field (text "jobs") (arr (job_items js)) end
payload_fields (Payload.job j) = field (text "job") (opt_job j) end
payload_fields (Payload.ok_job j) =
    field (text "ok") (bool true) (field (text "job") (opt_job j) end)
payload_fields (Payload.refused reason) =
    field (text "ok") (bool false) (field (text "reason") (str reason) end)
payload_fields (Payload.ok b) = field (text "ok") (bool b) end
payload_fields (Payload.wedged ws fix) =
    field (text "wedged") (arr (wedged_items ws)) (field (text "fix") (bool fix) end)
payload_fields (Payload.deleted ids dry_run) =
    field (text "deleted") (arr (texts ids)) (field (text "dry_run") (bool dry_run) end)
payload_fields (Payload.granted lid granted_at) =
    field (text "lease_id") (str lid)
      (field (text "granted_at") (str granted_at) (field (text "expires_at") null end))
payload_fields (Payload.evicted models) =
    field (text "evicted") (bool (some_text models))
      (field (text "was_loaded") (arr (texts models)) end)

unfoldable pub event_instance : Event → Instance
event_instance (Event.state ev) = record {
  cls = Class.state_event;
  values = field (text "id") (str ev.id) (
      field (text "state") (str (state_name ev.state)) (
        field (text "position") (opt_nat ev.position) (
          field (text "pid") (opt_nat ev.pid) (
            field (text "started_at") (opt_text ev.started_at) (
              field (text "exit_code") (opt_int ev.exit_code) (
                field (text "duration_s") (opt_float ev.duration_s) (
                  field (text "eta_running_s") (opt_float ev.eta_running_s)
                    (field (text "eta_start_s") (opt_float ev.eta_start_s) end))))))));
}
event_instance (Event.log id stream line) = record {
  cls = Class.log_event;
  values =
      field (text "id") (str id)
        (field (text "stream") (str (stream_text stream)) (field (text "line") (str line) end));
}
event_instance (Event.ollama action models) = record {
  cls = Class.ollama_event;
  values = field (text "action") (str action) (field (text "models") (arr (texts models)) end);
}
event_instance (Event.result payload) = record {
  cls = Class.result_event;
  values = field (text "payload") (obj (payload_fields payload)) end;
}
event_instance (Event.error message) = record {
  cls = Class.error_event;
  values = field (text "message") (str message) (field (text "code") (str (text "error")) end);
}
