-- ===== src/Tests/Clients.antt =====
-- The properties of logs and of the command line, applied at the samples.
use gpuq.Logs.{Files, append_all}
use gpuq.Logs.Appended.{append_all_lem, IsConsistent}
use gpuq.Common.{
  leb, length, ◌≡◌, refl, List, [], ◌∷◌, ◌++◌, map, Option, none, some, true, if◌then◌else◌,
}
use gpuq.Common.Text.{text}
use gpuq.Common.Int.{pos}
use gpuq.Logs.{Entry, JobLogs, no_output, tail, read_all}
use gpuq.Logs.Tail.{tail_lem}
use gpuq.Bus.{Subscription}
use gpuq.Protocol.{Stream, Attach, From, Event}
use gpuq.Server.Stream.{stream_until_terminal}
use gpuq.Server.Attach.{handle_attach, log_event}
use gpuq.Server.Attach.Mirror.{Feed, Turn, pumped, mirrored_next, take_turns, pumped_in}
use gpuq.Server.Attach.Complete.{attach_complete}
use gpuq.Cli.{submit_events}
use gpuq.Cli.ExitCodes.{submit_cancelled_exit, cancelled_event}
use gpuq.Queue.Runtime.{wedge_signature}
use gpuq.Queue.Runtime.Wedge.{IsWedged, wedge_signature_iff}
use gpuq.Common.{◌↔◌, false}
use gpuq.Tests.Samples.{server, e}

abbrev output : List Entry
output = (Stream.stdout, text "one\n") ∷ (Stream.stderr, text "two\n") ∷ []

abbrev blank : JobLogs
blank = record { files = some no_output; opened = true; next_key = 0; waiters = [] }

abbrev full : JobLogs
full = record blank { files = some (record no_output { index = output }) }

blank-IsConsistent : IsConsistent no_output
blank-IsConsistent = record { out = refl; err = refl; both = refl }

append_all_lem_example :
    (l' : JobLogs) × (f' : Files) × (append_all output blank ≡ some l')
    × (l'.files ≡ some f')
    × IsConsistent f'
    × (read_all l' ≡ read_all blank ++ output)
append_all_lem_example = append_all_lem output blank no_output refl refl blank-IsConsistent

tail_lem_example :
    ((older : List Entry) × (read_all full ≡ older ++ tail (pos 1) full))
    × (length (tail (pos 1) full)
        ≡ (if leb 1 (length (read_all full)) then 1 else length (read_all full)))
    × (tail (pos 0) full ≡ read_all full)
tail_lem_example = tail_lem 0 full

abbrev from_start : Attach
from_start = record { id = text "j_e"; follow = true; from_ = From.start; tail = pos 200 }

-- The mirror has one line in its queue, and takes its turn between two appended ones.
abbrev turns : List Turn
turns =
    pumped (Stream.stdout, text "three\n")
    ∷ mirrored_next
    ∷ pumped (Stream.stderr, text "four\n")
    ∷ []

abbrev last_printed : List Entry
last_printed = (Stream.stderr, text "two\n") ∷ []

attach_complete_example :
    let o = handle_attach (some full) from_start server in
    (g : Feed) × (others : List Subscription) × (items : List (Option Event)) × (take_turns
        (text "j_e")
        turns
        (record { logs = full; pending = last_printed; server = o.after })
      ≡ some g)
    × (read_all g.logs ≡ read_all full ++ pumped_in turns)
    × (g.server.bus.subs
        ≡ others ++ record { jid = text "j_e"; key = server.bus.next_key; items = items } ∷ [])
    × (o.sent ++ (stream_until_terminal items).0 ++ map (log_event (text "j_e")) g.pending
        ≡ map (log_event (text "j_e")) (read_all full ++ (last_printed ++ pumped_in turns)))
attach_complete_example =
    attach_complete turns full last_printed (record no_output { index = output }) from_start server
      refl refl refl refl

abbrev heard : Event
heard = Event.log (text "j_e") Stream.stdout (text "hello")

submit_cancelled_exit_example :
    (submit_events (
      heard
      ∷ (stream_until_terminal (some heard ∷ some (cancelled_event (text "j_e")) ∷ none ∷ [])).0)).1
    ≡ pos 0
submit_cancelled_exit_example =
    submit_cancelled_exit heard (heard ∷ []) (text "j_e") (refl, tt) (refl, (refl, tt))

wedge_signature_iff_example :
    (wedge_signature (λ stamp. some (pos 0)) none (pos 100) (pos 60) (λ pid. false) e
      ≡ some (text "wedged-no-pid"))
    ↔ IsWedged
        (λ stamp. some (pos 0))
        none
        (pos 100)
        (pos 60)
        (λ pid. false)
        e
        (text "wedged-no-pid")
wedge_signature_iff_example =
    wedge_signature_iff (λ stamp. some (pos 0)) none (pos 100) (pos 60) (λ pid. false) e
      (text "wedged-no-pid")
