-- ===== src/Server/Attach/Complete.antt =====
-- What a client that attaches to a running job is sent.
use mathlib.Core.List.{append_assoc, append-nil}
use gpuq.Common.{
  ℕ, ◌≡◌, refl, ap, sym, ◌∙◌, true, List, [], ◌∷◌, ◌++◌, map, Option, some, if◌then◌else◌,
}
use gpuq.Common.Text.{Text, text_eq, text_eq_refl}
use gpuq.Logs.{Entry, Files, JobLogs, write, read_all}
use gpuq.Logs.Appended.{appended, append_opened, index-write}
use gpuq.Bus.{Subscription, put_all, subscribe, publish}
use gpuq.Protocol.{Attach, From, Event, Stream}
use gpuq.Server.{Server}
use gpuq.Server.Stream.{stream_until_terminal}
use gpuq.Server.Run.{mirror_line}
use gpuq.Server.Attach.Mirror.{
  Feed, Turn, pumped, mirrored_next, pump_line, take_turn, take_turns, pumped_in,
}
use gpuq.Server.Attach.{log_event, history, handle_attach}

abbrev pub queued_for : Text → ℕ → List (Option Event) → Subscription
queued_for jid key items = record { jid = jid; key = key; items = items }

pub put_all-append :
    (jid : Text) (item : Option Event) (subs : List Subscription) (key : ℕ)
    (items : List (Option Event))
    → put_all jid item (subs ++ queued_for jid key items ∷ [])
      ≡ put_all jid item subs ++ queued_for jid key (items ++ item ∷ []) ∷ []
unfolding put_all
put_all-append jid item [] key items = rw (text_eq_refl jid) refl
put_all-append jid item (x ∷ subs) key items =
    ap (λ rest. (if text_eq x.jid jid then record x { items = x.items ++ item ∷ [] } else x) ∷ rest)
      (put_all-append jid item subs key items)

-- The items of a job's log lines.
abbrev pub log_items : Text → List Entry → List (Option Event)
log_items jid entries = map (λ entry. some (log_event jid entry)) entries

stream-log_items :
    (jid : Text) (entries : List Entry)
    → (stream_until_terminal (log_items jid entries)).0 ≡ map (log_event jid) entries
unfolding stream_until_terminal
stream-log_items jid [] = refl
stream-log_items jid (entry ∷ entries) =
    ap (λ rest. log_event jid entry ∷ rest) (stream-log_items jid entries)

map-append :
    (jid : Text) (xs ys : List Entry)
    → map (log_event jid) (xs ++ ys) ≡ map (log_event jid) xs ++ map (log_event jid) ys
map-append jid [] ys = refl
map-append jid (x ∷ xs) ys = ap (λ rest. log_event jid x ∷ rest) (map-append jid xs ys)

-- What some turns do to the newest subscription, the mirror's queue and the logs.
record IsFed (jid : Text) (key : ℕ) (items : List (Option Event)) (f g : Feed) (turns : List Turn)
    : Type 0 where
  published : List Entry
  others : List Subscription
  subs : g.server.bus.subs ≡ others ++ queued_for jid key (items ++ log_items jid published) ∷ []
  order : published ++ g.pending ≡ f.pending ++ pumped_in turns
  index : read_all g.logs ≡ read_all f.logs ++ pumped_in turns

mirror_line-subs :
    (jid : Text) (key : ℕ) (stream : Stream) (line : Text) (s : Server) (subs : List Subscription)
    (items : List (Option Event))
    → s.bus.subs ≡ subs ++ queued_for jid key items ∷ []
    → let item = some (Event.log jid stream line) in
      (mirror_line stream line jid s).bus.subs
      ≡ put_all jid item subs ++ queued_for jid key (items ++ item ∷ []) ∷ []
unfolding mirror_line publish
mirror_line-subs jid key stream line s subs items e =
    let item = some (Event.log jid stream line) in
    ap (put_all jid item) e ∙ put_all-append jid item subs key items

log_items-append :
    (jid : Text) (items : List (Option Event)) (e : Entry) (entries : List Entry)
    → (items ++ some (log_event jid e) ∷ []) ++ log_items jid entries
      ≡ items ++ log_items jid (e ∷ entries)
log_items-append jid items e entries =
    append_assoc items (some (log_event jid e) ∷ []) (log_items jid entries)

index-appended :
    (stream : Stream) (line : Text) (files : Files) (l : JobLogs)
    → l.files ≡ some files
    → read_all (appended stream line files l) ≡ read_all l ++ (stream, line) ∷ []
unfolding read_all
index-appended stream line files l e = rw e (index-write stream line files)

abbrev feed : JobLogs → List Entry → Server → Feed
feed l pending s = record { logs = l; pending = pending; server = s }

take_turns_lem :
    (jid : Text) (key : ℕ) (turns : List Turn) (l : JobLogs) (pending : List Entry) (s : Server)
    (files : Files) (subs : List Subscription) (items : List (Option Event))
    → l.opened ≡ true
    → l.files ≡ some files
    → s.bus.subs ≡ subs ++ queued_for jid key items ∷ []
    → (g : Feed) × (take_turns jid turns (feed l pending s) ≡ some g)
      × IsFed jid key items (feed l pending s) g turns
unfolding take_turns take_turn
take_turns_lem jid key [] l pending s files subs items o e h = (
  feed l pending s,
  refl,
  record {
    published = [];
    others = subs;
    subs = h ∙ ap (λ its. subs ++ queued_for jid key its ∷ []) (sym (append-nil items));
    order = sym (append-nil pending);
    index = sym (append-nil (read_all l));
  },
)
take_turns_lem jid key (pumped (stream, line) ∷ turns) l pending s files subs items o e h =
    let entry : Entry = (stream, line) in
    let l1 = appended stream line files l in
    let (g, run, fed) =
      take_turns_lem jid key turns l1 (pending ++ entry ∷ []) s (write stream line files) subs items
        o refl h in
    let now : pump_line entry (feed l pending s) ≡ some (feed l1 (pending ++ entry ∷ []) s) =
      unfold pump_line in rw (append_opened stream line l files o e) refl in
    (
      g,
      rw now run,
      record {
        published = fed.published;
        others = fed.others;
        subs = fed.subs;
        order = fed.order ∙ append_assoc pending (entry ∷ []) (pumped_in turns);
        index =
            fed.index
            ∙ (ap (λ xs. xs ++ pumped_in turns) (index-appended stream line files l e)
                ∙ append_assoc (read_all l) (entry ∷ []) (pumped_in turns));
      },
    )
take_turns_lem jid key (mirrored_next ∷ turns) l [] s files subs items o e h =
    let (g, run, fed) = take_turns_lem jid key turns l [] s files subs items o e h in
    (
      g,
      run,
      record {
        published = fed.published;
        others = fed.others;
        subs = fed.subs;
        order = fed.order;
        index = fed.index;
      },
    )
take_turns_lem jid key (mirrored_next ∷ turns) l ((stream, line) ∷ rest) s files subs items o e h =
    let entry : Entry = (stream, line) in
    let item = some (log_event jid entry) in
    let (g, run, fed) =
      take_turns_lem jid key turns l rest (mirror_line stream line jid s) files
        (put_all jid item subs) (items ++ item ∷ []) o e
        (mirror_line-subs jid key stream line s subs items h) in
    (
      g,
      run,
      record {
        published = entry ∷ fed.published;
        others = fed.others;
        subs =
            fed.subs
            ∙ ap (λ its. fed.others ++ queued_for jid key its ∷ [])
                (log_items-append jid items entry fed.published);
        order = ap (λ xs. entry ∷ xs) fed.order;
        index = fed.index;
      },
    )

map-append_twice :
    (jid : Text) (xs ys zs : List Entry)
    → map (log_event jid) xs ++ map (log_event jid) ys ++ map (log_event jid) zs
      ≡ map (log_event jid) (xs ++ ys ++ zs)
map-append_twice jid xs ys zs =
    ap (λ rest. rest ++ map (log_event jid) zs) (sym (map-append jid xs ys))
    ∙ sym (map-append jid (xs ++ ys) zs)

-- A client attaches to a job from the start, with `follow`, while the job's logs are open. Whatever
-- lines the pumps then append, and whenever the mirror publishes them: what the client was sent at
-- once, what it is sent from its queue, and the lines that the mirror has yet to publish, make up the
-- log at the time of the attachment, behind it the lines that the mirror had not yet published
-- then, and the lines appended since. So each line of the log is sent once if there were none of
-- these; and they are sent twice.
pub attach_complete :
    (turns : List Turn) (l : JobLogs) (pending : List Entry) (files : Files) (req : Attach)
    (s : Server)
    → l.opened ≡ true
    → l.files ≡ some files
    → req.from_ ≡ From.start
    → req.follow ≡ true
    → let o = handle_attach (some l) req s in
      (g : Feed) × (others : List Subscription) × (items : List (Option Event)) × (take_turns req.id
          turns
          (record { logs = l; pending = pending; server = o.after })
        ≡ some g)
      × (read_all g.logs ≡ read_all l ++ pumped_in turns)
      × (g.server.bus.subs
          ≡ others ++ record { jid = req.id; key = s.bus.next_key; items = items } ∷ [])
      × (o.sent ++ (stream_until_terminal items).0 ++ map (log_event req.id) g.pending
          ≡ map (log_event req.id) (read_all l ++ (pending ++ pumped_in turns)))
unfolding handle_attach history subscribe
attach_complete turns l pending files req s o e from_start follows =
    let joined = (handle_attach (some l) req s).after in
    let subs : joined.bus.subs ≡ s.bus.subs ++ queued_for req.id s.bus.next_key [] ∷ [] =
      rw follows refl in
    let (g, run, fed) =
      take_turns_lem req.id s.bus.next_key turns l pending joined files s.bus.subs [] o e subs in
    (
      g,
      fed.others,
      log_items req.id fed.published,
      run,
      fed.index,
      fed.subs,
      rw from_start (
          rw (stream-log_items req.id fed.published) (
            map-append_twice req.id (read_all l) fed.published g.pending
            ∙ ap (map (log_event req.id)) (
                append_assoc (read_all l) fed.published g.pending
                ∙ ap (λ xs. read_all l ++ xs) fed.order))),
    )
