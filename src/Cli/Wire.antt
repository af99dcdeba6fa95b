-- ===== src/Cli/Wire.antt =====
-- `_send` and `_recv_one` of src/gpuq/cli.py: the lines of a connection, and `_send` of
-- src/gpuq/daemon/server.py at its other end.
use gpuq.Common.{
  ◌≡◌, ◌≤◌, ◌∙◌, ◌==◌, ℕ, suc, ltb, length, arith, refl, sym, ap, Bool, true, false, List, [], ◌∷◌,
  ◌++◌, map, Option, none, some, All, if◌then◌else◌,
}
use gpuq.Common.Text.{Text, text, truthy}
use mathlib.Core.List.{append_assoc, append-nil}
use gpuq.Common.Strings.Laws.{Lacks}
use gpuq.Logs.Index.{file_lines}
use gpuq.Protocol.Json.{Json}
use gpuq.Protocol.{Request, Event}
use gpuq.Protocol.Instances.{request_instance, event_instance}
use gpuq.Protocol.Schema.{Instance}
use gpuq.Protocol.Codec.{
  JsonLib, Decoded, decoded, protocol_error, other_error, encode_request, encode_event,
  decode_event,
}
use gpuq.Protocol.RoundTrip.{frame, Restores, decode-encode_event}

-- The characters of a line before its line feed.
abbrev pub body_length : Text → ℕ
body_length [] = 0
body_length (c ∷ line) = if c == 10 then 0 else suc (body_length line)

module _ (lib : JsonLib) where
  -- What a command writes for its request.
  unfoldable pub send_request : Request → Text
  send_request req = encode_request lib (request_instance req)

  -- What the daemon writes for an event.
  unfoldable pub send_event : Event → Text
  send_event ev = encode_event lib (event_instance ev)

  -- `limit` is that of the StreamReader, in bytes: `readline` raises ValueError for a line that has more
  -- of them before its line feed. json.dumps writes ASCII, so that a character is a byte.
  module _ (limit : ℕ) where
    -- `none`: the connection has ended. Else the line's event, or an exception.
    unfoldable pub recv_one : (line : Text) → Option Decoded
    recv_one line =
        if ltb limit (body_length line)
        then some other_error
        else if truthy line
        then some (decode_event lib line)
        else none

    -- `while (ev := await _recv_one(reader)) is not None`, over the lines of the stream: the events, and
    -- whether an exception ended the loop.
    unfoldable pub recv_lines : (lines : List Text) → List Instance × Bool
    recv_lines [] = ([], false)
    recv_lines (line ∷ lines) =
        let (events, raised) = recv_lines lines in
        elim (recv_one line) [
          | none ↦ ([], false)
          | some (decoded i) ↦ (i ∷ events, raised)
          | some (protocol_error message) ↦ ([], true)
          | some other_error ↦ ([], true)
        ]

    -- The same over what was sent before the connection was closed. At its end `readline` returns
    -- an empty line.
    unfoldable pub recv_all : (stream : Text) → List Instance × Bool
    recv_all stream = recv_lines (file_lines [] stream ++ [] ∷ [])

  -- What the daemon writes for some events.
  unfoldable pub sent_text : List Event → Text
  sent_text [] = []
  sent_text (ev ∷ evs) = send_event ev ++ sent_text evs

abbrev pub is_feed : ℕ → Bool
is_feed c = c == 10

abbrev pub event_frame : Event → Json
event_frame ev = frame (text "type") (event_instance ev)

-- json.dumps writes the frame on one line, no longer than the limit, and json.loads restores it.
pub record IsSent (lib : JsonLib) (limit : ℕ) (ev : Event) : Type 0 where
  pub one_line : Lacks is_feed (lib.dumps (event_frame ev))
  pub short : length (lib.dumps (event_frame ev)) ≤ limit
  pub restored : Restores lib (event_frame ev)

body_length-line : (l : Text) → Lacks is_feed l → body_length (l ++ text "\n") ≡ length l
body_length-line [] h = refl
body_length-line (c ∷ l) h = rw (h.0) (ap suc (body_length-line l h.1))

file_lines-line :
    (l rest cur : Text)
    → Lacks is_feed l
    → file_lines cur (l ++ 10 ∷ rest) ≡ (cur ++ l ++ 10 ∷ []) ∷ file_lines [] rest
unfolding file_lines
file_lines-line [] rest cur h = ap (λ t. (t ++ 10 ∷ []) ∷ file_lines [] rest) (sym (append-nil cur))
file_lines-line (c ∷ l) rest cur h = rw (h.0) (
    file_lines-line l rest (cur ++ c ∷ []) h.1
    ∙ ap (λ t. (t ++ 10 ∷ []) ∷ file_lines [] rest) (append_assoc cur (c ∷ []) l))

truthy-line : (s : Text) → truthy (s ++ text "\n") ≡ true
truthy-line [] = refl
truthy-line (c ∷ s) = refl

send_event_lem :
    (lib : JsonLib) (ev : Event) → send_event lib ev ≡ lib.dumps (event_frame ev) ++ text "\n"
unfolding send_event encode_event
send_event_lem lib ev = refl

module _ (lib : JsonLib) (limit : ℕ) where
  recv_one-send_event :
      (ev : Event)
      → IsSent lib limit ev
      → recv_one lib limit (send_event lib ev) ≡ some (decoded (event_instance ev))
  unfolding recv_one encode_event
  recv_one-send_event ev h =
      let sent = lib.dumps (event_frame ev) in
      let fits : ltb limit (body_length (sent ++ text "\n")) ≡ false =
        rw (body_length-line sent h.one_line) (ground (arith, h.short)) in
      let back : decode_event lib (sent ++ text "\n") ≡ decoded (event_instance ev) =
        unfold send_event in decode-encode_event lib ev h.restored in
      rw (send_event_lem lib ev) (rw fits (rw (truthy-line sent) (ap some back)))

  recv_one_end : recv_one lib limit [] ≡ none
  unfolding recv_one
  recv_one_end = let short : ltb limit 0 ≡ false = ground arith in rw short refl

  sent_text-lines :
      (ev : Event) (evs : List Event)
      → IsSent lib limit ev
      → file_lines [] (sent_text lib (ev ∷ evs))
        ≡ send_event lib ev ∷ file_lines [] (sent_text lib evs)
  unfolding sent_text
  sent_text-lines ev evs h =
      let sent = lib.dumps (event_frame ev) in
      rw (send_event_lem lib ev) (
        ap (file_lines []) (append_assoc sent (text "\n") (sent_text lib evs))
        ∙ file_lines-line sent (sent_text lib evs) [] h.one_line)

  -- The events that the daemon sends before it closes the connection are received, in their order and
  -- without an exception, where json.dumps writes each frame on one line, of no more characters than
  -- the reader's limit, and json.loads restores it.
  pub recv_all-send_event :
      (evs : List Event)
      → All (IsSent lib limit) evs
      → recv_all lib limit (sent_text lib evs) ≡ (map event_instance evs, false)
  unfolding recv_all recv_lines
  recv_all-send_event [] h = unfold sent_text file_lines in rw (recv_one_end, recv_lines) refl
  recv_all-send_event (ev ∷ evs) h =
      rw (sent_text-lines ev evs h.0)
        (rw (recv_one-send_event ev h.0, recv_lines) (rw (recv_all-send_event evs h.1) refl))
