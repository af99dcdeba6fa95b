-- ===== src/Server/Stream.antt =====
-- `_stream_until_terminal` of src/gpuq/daemon/server.py: the events that a client is sent, from the
-- items that its queue hands out.
use gpuq.Common.{Bool, true, false, List, [], ◌∷◌, Option, none, some, if◌then◌else◌}
use gpuq.State.{is_terminal}
use gpuq.Protocol.{Event}

-- A state event of a job that has ended.
abbrev pub ends_stream : Event → Bool
ends_stream (Event.state ev) = is_terminal ev.state
ends_stream _ = false

-- The events sent, and whether the stream has ended; if not, the client waits for the next item.
unfoldable pub stream_until_terminal : List (Option Event) → List Event × Bool
stream_until_terminal [] = ([], false)
stream_until_terminal (none ∷ items) = ([], true)
stream_until_terminal (some ev ∷ items) =
    let (sent, ended) = stream_until_terminal items in
    if ends_stream ev then (ev ∷ [], true) else (ev ∷ sent, ended)
