-- ===== src/Runner/Job/Handed.antt =====
-- The events of a whole run, as the queue of a client that waits for them gets them.
use mathlib.Core.List.{append_assoc, append-nil}
use gpuq.Common.{
  ℕ, ◌≡◌, refl, ap, sym, ◌∙◌, Bool, true, false, List, [], ◌∷◌, ◌++◌, map, Option, none, some,
  if◌then◌else◌,
}
use gpuq.Common.Text.{Text, text}
use gpuq.Logs.{Entry, JobLogs}
use gpuq.Bus.{Subscription, publish, close, put_all}
use gpuq.Protocol.{Event}
use gpuq.State.{running}
use gpuq.Server.{Server}
use gpuq.Server.Submit.{state_event}
use gpuq.Server.Attach.{log_event}
use gpuq.Server.Attach.Complete.{queued_for, put_all-append}
use gpuq.Server.Run.{
  RunResult, publishes, report_evicted, open_logs, begin_run, note_pid, mirror_line, mirror_all,
  finish_run, final_event,
}
use gpuq.Server.Run.Final.{OpenEvents}
use gpuq.Runner.{run}
use gpuq.Runner.Job.{Course, mirrored, run_job}

-- The newest subscription of the bus is the client's, and holds these events.
abbrev pub Waiting : Server → Text → ℕ → List Event → Type 0
Waiting s jid key evs =
    (others : List Subscription) × (s.bus.subs ≡ others ++ queued_for jid key (map some evs) ∷ [])

map-some-append : (xs ys : List Event) → map some (xs ++ ys) ≡ map some xs ++ map some ys
map-some-append [] ys = refl
map-some-append (x ∷ xs) ys = ap (λ t. some x ∷ t) (map-some-append xs ys)

publishes-Waiting :
    (s : Server) (jid : Text) (key : ℕ) (evs : List Event) (ev : Event)
    → Waiting s jid key evs
    → Waiting (publishes jid ev s) jid key (evs ++ ev ∷ [])
unfolding publish
publishes-Waiting s jid key evs ev (others, e) = (
  put_all jid (some ev) others,
  ap (put_all jid (some ev)) e
      ∙ (put_all-append jid (some ev) others key (map some evs)
          ∙ ap (λ its. put_all jid (some ev) others ++ queued_for jid key its ∷ [])
              (sym (map-some-append evs (ev ∷ [])))),
)

mirror_all-Waiting :
    (jid : Text) (key : ℕ) (entries : List Entry) (s : Server) (evs : List Event)
    → Waiting s jid key evs
    → Waiting (mirror_all jid entries s) jid key (evs ++ map (log_event jid) entries)
unfolding mirror_all mirror_line
mirror_all-Waiting jid key [] s evs h = rw (append-nil evs) h
mirror_all-Waiting jid key ((stream, line) ∷ entries) s evs h =
    let ev = Event.log jid stream line in
    rw⁻¹ (append_assoc evs (ev ∷ []) (map (log_event jid) entries)) (
      mirror_all-Waiting jid key entries (publishes jid ev s) (evs ++ ev ∷ [])
        (publishes-Waiting s jid key evs ev h))

-- The events before the first line.
abbrev pub running_event : Text → (shown : Text) → Event
running_event jid shown = Event.state (record (state_event jid running) { started_at = some shown })

unfoldable pub opening : List Text → (shown : Text) → Text → List Event
opening [] shown jid = running_event jid shown ∷ []
opening (m ∷ models) shown jid =
    Event.ollama (text "evicted") (m ∷ models) ∷ running_event jid shown ∷ []

begin_run-Waiting :
    (evicted : List Text) (now shown jid : Text) (key : ℕ) (s : Server)
    → Waiting s jid key []
    → Waiting (begin_run evicted now shown jid s) jid key (opening evicted shown jid)
unfolding begin_run report_evicted open_logs opening
begin_run-Waiting [] now shown jid key s h =
    publishes-Waiting s jid key [] (running_event jid shown) h
begin_run-Waiting (m ∷ models) now shown jid key s h =
    let ev = Event.ollama (text "evicted") (m ∷ models) in
    publishes-Waiting (publishes jid ev s) jid key (ev ∷ []) (running_event jid shown)
      (publishes-Waiting s jid key [] ev h)

-- The items of the newest subscription.
abbrev pub Handed : Server → Text → ℕ → List (Option Event) → Type 0
Handed s jid key items =
    (others : List Subscription) × (s.bus.subs ≡ others ++ queued_for jid key items ∷ [])

finish_run-Handed :
    (r : RunResult) (now jid : Text) (key : ℕ) (s : Server) (evs : List Event)
    → Waiting s jid key evs
    → Handed (finish_run r now jid s) jid key (map some evs ++ some (final_event r jid) ∷ none ∷ [])
unfolding finish_run publish close
finish_run-Handed r now jid key s evs (others, e) =
    let last = some (final_event r jid) in
    let put = put_all jid last others in
    (
      put_all jid none put,
      ap (λ subs. put_all jid none (put_all jid last subs)) e
          ∙ (ap (put_all jid none) (put_all-append jid last others key (map some evs))
              ∙ (put_all-append jid none put key (map some evs ++ last ∷ [])
                  ∙ ap (λ its. put_all jid none put ++ queued_for jid key its ∷ [])
                      (append_assoc (map some evs) (last ∷ []) (none ∷ [])))),
    )

note_pid-Waiting :
    (b : Bool) (pid : ℕ) (jid : Text) (key : ℕ) (s : Server) (evs : List Event)
    → Waiting s jid key evs
    → Waiting (if b then note_pid pid jid s else s) jid key evs
unfolding note_pid
note_pid-Waiting true pid jid key s evs h = h
note_pid-Waiting false pid jid key s evs h = h

-- What the client is handed in a whole run.
abbrev pub course_events : Course → Text → JobLogs → List Event
course_events c jid l = opening c.evicted c.shown jid ++ map (log_event jid) (mirrored c.child l)

pub run_job-Handed :
    (c : Course) (jid : Text) (l : JobLogs) (key : ℕ) (s : Server)
    → Waiting s jid key []
    → let r = (run c.child l).0 in
      Handed
        (run_job c jid l s)
        jid
        key
        (map some (course_events c jid l) ++ some (final_event r jid) ∷ none ∷ [])
unfolding run_job
run_job-Handed c jid l key s h =
    let r = (run c.child l).0 in
    let s1 = begin_run c.evicted c.started c.shown jid s in
    let begun = begin_run-Waiting c.evicted c.started c.shown jid key s h in
    let noted = note_pid-Waiting c.child.starts c.pid jid key s1 _ begun in
    finish_run-Handed r c.ended jid key _ (course_events c jid l)
      (mirror_all-Waiting jid key (mirrored c.child l) _ (opening c.evicted c.shown jid) noted)

pub log_event-OpenEvents :
    (jid : Text) (entries : List Entry) → OpenEvents (map (log_event jid) entries)
log_event-OpenEvents jid [] = tt
log_event-OpenEvents jid (entry ∷ entries) = (refl, log_event-OpenEvents jid entries)

pub opening-OpenEvents :
    (evicted : List Text) (shown jid : Text) (evs : List Event)
    → OpenEvents evs
    → OpenEvents (opening evicted shown jid ++ evs)
unfolding opening
opening-OpenEvents [] shown jid evs h = (refl, h)
opening-OpenEvents (m ∷ models) shown jid evs h = (refl, (refl, h))
