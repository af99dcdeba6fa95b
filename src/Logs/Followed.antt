-- ===== src/Logs/Followed.antt =====
-- What a follower is handed that joins before the lines are appended.
use mathlib.Core.Option
use mathlib.Core.List.{append_assoc, append-nil}
use gpuq.Common.{◌≡◌, refl, ap, sym, ◌∙◌, true, List, [], ◌∷◌, ◌++◌, map, Option, none, some, ℕ}
use gpuq.Common.Text.{Text}
use gpuq.Protocol.{Stream}
use gpuq.Logs.{Entry, JobLogs, Follower, write, append, put_each, follow, join, eof}
use gpuq.Logs.{append_all}

-- The follower with the items put so far.
abbrev handed : ℕ → List (Option Entry) → Follower
handed key items = record { key = key; items = items }

put_each-append :
    (item : Option Entry) (ws : List Follower) (key : ℕ) (items : List (Option Entry))
    → put_each item (ws ++ handed key items ∷ [])
      ≡ put_each item ws ++ handed key (items ++ item ∷ []) ∷ []
unfolding put_each
put_each-append item [] key items = refl
put_each-append item (w ∷ ws) key items =
    ap (λ rest. record w { items = w.items ++ item ∷ [] } ∷ rest)
      (put_each-append item ws key items)

-- The logs after a line was written, whether the directory is there or not.
abbrev written : Stream → Text → JobLogs → JobLogs
written stream line l = record l {
  files = Option.map (write stream line) l.files;
  waiters = put_each (some (stream, line)) l.waiters;
}

append-written :
    (stream : Stream) (line : Text) (l : JobLogs)
    → l.opened ≡ true
    → append stream line l ≡ some (written stream line l)
unfolding append
append-written stream line l o = rw o refl

append_all-waiters :
    (entries : List Entry) (l : JobLogs) (ws : List Follower) (key : ℕ)
    (items : List (Option Entry))
    → l.opened ≡ true
    → l.waiters ≡ ws ++ handed key items ∷ []
    → (l' : JobLogs) × (ws' : List Follower) × (append_all entries l ≡ some l')
      × (l'.waiters ≡ ws' ++ handed key (items ++ map some entries) ∷ [])
unfolding append_all
append_all-waiters [] l ws key items o e =
    (l, ws, refl, e ∙ ap (λ its. ws ++ handed key its ∷ []) (sym (append-nil items)))
append_all-waiters ((stream, line) ∷ entries) l ws key items o e =
    let item = some (stream, line) in
    let (l', ws', run, waiters) =
      append_all-waiters entries (written stream line l) (put_each item ws) key (items ++ item ∷ [])
        o (ap (put_each item) e ∙ put_each-append item ws key items) in
    (
      l',
      ws',
      rw (append-written stream line l o, append_all) run,
      waiters
          ∙ ap (λ its. ws' ++ handed key its ∷ [])
              (append_assoc items (item ∷ []) (map some entries)),
    )

follow-all : (entries : List Entry) → follow (map some entries ++ none ∷ []) ≡ (entries, true)
unfolding follow
follow-all [] = refl
follow-all (entry ∷ entries) = rw (follow-all entries) refl

-- On open logs, a follower that joins before some lines are appended and then the end of file is
-- handed exactly these lines, in their order and each with its stream, and then returns.
pub follow_lem :
    (entries : List Entry) (l : JobLogs)
    → l.opened ≡ true
    → (l' : JobLogs) × (others : List Follower) × (items : List (Option Entry)) × (append_all
          entries
          (join l).1
        ≡ some l')
      × ((eof l').waiters ≡ others ++ record { key = (join l).0; items = items } ∷ [])
      × (follow items ≡ (entries, true))
unfolding join eof
follow_lem entries l o =
    let (l', ws, run, waiters) =
      append_all-waiters entries (join l).1 l.waiters l.next_key [] o refl in
    (
      l',
      put_each none ws,
      map some entries ++ none ∷ [],
      run,
      ap (put_each none) waiters ∙ put_each-append none ws l.next_key (map some entries),
      follow-all entries,
    )
