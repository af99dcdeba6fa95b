-- ===== src/Logs.antt =====
-- `class JobLogs` of src/gpuq/logs.py. A file is what was written to it: the three plain ones are
-- texts, `index.jsonl` is the list of its records. A follower's asyncio.Queue is named by a number.
pub mod Appended
pub mod Followed
pub mod Tail
pub mod Index
use mathlib.Core.Option
use gpuq.Common.{
  zero, ℕ, suc, ◌-◌, ◌==◌, Bool, true, false, not, List, [], ◌∷◌, ◌++◌, map, Option, none, some,
  filter, drop, length, if◌then◌else◌,
}
use gpuq.Common.Text.{Text}
use gpuq.Common.Int.{ℤ, pos, negsuc}
use gpuq.Protocol.{Stream, stdout, stderr}

abbrev pub Entry : Type 0
Entry = Stream × Text

-- The four files of the directory.
pub record Files : Type 0 where
  pub stdout_log : Text
  pub stderr_log : Text
  pub combined_log : Text
  pub index : List Entry

abbrev pub no_output : Files
no_output = record { stdout_log = []; stderr_log = []; combined_log = []; index = [] }

pub record Follower : Type 0 where
  pub key : ℕ
  pub items : List (Option Entry)

-- `files` is `none` where the directory does not exist; `opened`: the handles are set and not closed.
pub record JobLogs : Type 0 where
  pub files : Option Files
  pub opened : Bool
  pub next_key : ℕ
  pub waiters : List Follower

abbrev pub files_or_new : Option Files → Files
files_or_new none = no_output
files_or_new (some f) = f

-- Mode "a" keeps what a file holds.
unfoldable pub open_files : JobLogs → JobLogs
open_files l = record l { files = some (files_or_new l.files); opened = true }

unfoldable pub write : Stream → Text → Files → Files
write Stream.stdout line f = record f {
  stdout_log = f.stdout_log ++ line;
  combined_log = f.combined_log ++ line;
  index = f.index ++ (Stream.stdout, line) ∷ [];
}
write Stream.stderr line f = record f {
  stderr_log = f.stderr_log ++ line;
  combined_log = f.combined_log ++ line;
  index = f.index ++ (Stream.stderr, line) ∷ [];
}

unfoldable pub put_each : Option Entry → List Follower → List Follower
put_each item ws = map (λ (w : Follower). record w { items = w.items ++ item ∷ [] }) ws

-- `none`: the AssertionError or ValueError of a file that is not open. Where the directory was
-- deleted meanwhile, the writes are lost with it.
unfoldable pub append : Stream → Text → JobLogs → Option JobLogs
append stream line l =
    if l.opened
    then some (record l {
      files = Option.map (write stream line) l.files;
      waiters = put_each (some (stream, line)) l.waiters;
    })
    else none

unfoldable pub eof : JobLogs → JobLogs
eof l = record l { waiters = put_each none l.waiters }

abbrev pub close_files : JobLogs → JobLogs
close_files l = record l { opened = false }

unfoldable pub read_all : JobLogs → List Entry
read_all l = elim l.files [ none ↦ [] | some f ↦ f.index ]

-- `xs[i:]`: a start below 0 counts from the end, and is clipped there.
unfoldable pub slice_from {ℓ} : {A : Type ℓ} → ℤ → List A → List A
slice_from (pos i) xs = drop i xs
slice_from (negsuc i) xs = drop (length xs - suc i) xs

abbrev pub negate : ℤ → ℤ
negate (pos zero) = pos zero
negate (pos (suc n)) = negsuc n
negate (negsuc n) = pos (suc n)

-- `self.read_all()[-n:]`
unfoldable pub tail : ℤ → JobLogs → List Entry
tail n l = slice_from (negate n) (read_all l)

-- The start of `follow`: the new queue's key, and the logs with it.
unfoldable pub join : JobLogs → ℕ × JobLogs
join l = (
  l.next_key,
  record l {
    next_key = suc l.next_key;
    waiters = l.waiters ++ record { key = l.next_key; items = [] } ∷ [];
  },
)

-- What `follow` yields from its queue's items, and whether it has returned.
unfoldable pub follow : List (Option Entry) → List Entry × Bool
follow [] = ([], false)
follow (none ∷ items) = ([], true)
follow (some entry ∷ items) = let (entries, ended) = follow items in (entry ∷ entries, ended)

-- Its `finally` block.
unfoldable pub leave : ℕ → JobLogs → JobLogs
leave key l = record l { waiters = filter (λ w. not (w.key == key)) l.waiters }

-- The lines of a job's output, as `pump` hands them on one after the other.
unfoldable pub append_all : List Entry → JobLogs → Option JobLogs
append_all [] l = some l
append_all ((stream, line) ∷ entries) l = elim (append stream line l) [
  | none ↦ none
  | some l' ↦ append_all entries l'
]
