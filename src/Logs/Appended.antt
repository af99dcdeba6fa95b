-- ===== src/Logs/Appended.antt =====
-- What a run of `append` leaves on disk, and what a follower is handed.
use mathlib.Core.List.{append_assoc, append-nil}
use gpuq.Common.{
  ◌≡◌, refl, ap, sym, ◌∙◌, Bool, true, false, List, [], ◌∷◌, ◌++◌, some, filter, filter-append,
}
use gpuq.Common.Text.{Text}
use gpuq.Protocol.{Stream}
use gpuq.Logs.{append_all, Entry, Files, JobLogs, write, append, put_each, read_all}

-- The lines of some records, one after the other.
abbrev pub lines : List Entry → Text
lines [] = []
lines ((stream, line) ∷ entries) = line ++ lines entries

abbrev pub is_stdout : Entry → Bool
is_stdout (Stream.stdout, line) = true
is_stdout (Stream.stderr, line) = false

abbrev pub is_stderr : Entry → Bool
is_stderr (Stream.stdout, line) = false
is_stderr (Stream.stderr, line) = true

-- The three plain files hold what the index lists.
pub record IsConsistent (f : Files) : Type 0 where
  pub out : f.stdout_log ≡ lines (filter is_stdout f.index)
  pub err : f.stderr_log ≡ lines (filter is_stderr f.index)
  pub both : f.combined_log ≡ lines f.index

lines-append : (xs ys : List Entry) → lines (xs ++ ys) ≡ lines xs ++ lines ys
lines-append [] ys = refl
lines-append ((stream, line) ∷ xs) ys =
    ap (λ rest. line ++ rest) (lines-append xs ys) ∙ sym (append_assoc line (lines xs) (lines ys))

-- One line more, at the end of a selection that takes it.
lines-filter_taken :
    (p : Entry → Bool) (entries : List Entry) (stream : Stream) (line : Text)
    → p (stream, line) ≡ true
    → lines (filter p (entries ++ (stream, line) ∷ [])) ≡ lines (filter p entries) ++ line
lines-filter_taken p entries stream line h =
    ap lines (filter-append p entries ((stream, line) ∷ []))
    ∙ rw h (
        lines-append (filter p entries) ((stream, line) ∷ [])
        ∙ ap (λ rest. lines (filter p entries) ++ rest) (append-nil line))

lines-filter_left :
    (p : Entry → Bool) (entries : List Entry) (stream : Stream) (line : Text)
    → p (stream, line) ≡ false
    → lines (filter p (entries ++ (stream, line) ∷ [])) ≡ lines (filter p entries)
lines-filter_left p entries stream line h =
    ap lines (filter-append p entries ((stream, line) ∷ []))
    ∙ rw h (ap lines (append-nil (filter p entries)))

lines_more :
    (entries : List Entry) (stream : Stream) (line : Text)
    → lines (entries ++ (stream, line) ∷ []) ≡ lines entries ++ line
lines_more entries stream line =
    lines-append entries ((stream, line) ∷ [])
    ∙ ap (λ rest. lines entries ++ rest) (append-nil line)

write-IsConsistent :
    (stream : Stream) (line : Text) (f : Files)
    → IsConsistent f
    → IsConsistent (write stream line f)
unfolding write
write-IsConsistent Stream.stdout line f c = record {
  out =
      ap (λ t. t ++ line) c.out
      ∙ sym (lines-filter_taken is_stdout f.index Stream.stdout line refl);
  err = c.err ∙ sym (lines-filter_left is_stderr f.index Stream.stdout line refl);
  both = ap (λ t. t ++ line) c.both ∙ sym (lines_more f.index Stream.stdout line);
}
write-IsConsistent Stream.stderr line f c = record {
  out = c.out ∙ sym (lines-filter_left is_stdout f.index Stream.stderr line refl);
  err =
      ap (λ t. t ++ line) c.err
      ∙ sym (lines-filter_taken is_stderr f.index Stream.stderr line refl);
  both = ap (λ t. t ++ line) c.both ∙ sym (lines_more f.index Stream.stderr line);
}

pub index-write :
    (stream : Stream) (line : Text) (f : Files)
    → (write stream line f).index ≡ f.index ++ (stream, line) ∷ []
unfolding write
index-write Stream.stdout line f = refl
index-write Stream.stderr line f = refl

-- The logs after a line was written to open files.
abbrev pub appended : Stream → Text → Files → JobLogs → JobLogs
appended stream line f l = record l {
  files = some (write stream line f);
  waiters = put_each (some (stream, line)) l.waiters;
}

pub append_opened :
    (stream : Stream) (line : Text) (l : JobLogs) (f : Files)
    → l.opened ≡ true
    → l.files ≡ some f
    → append stream line l ≡ some (appended stream line f l)
unfolding append
append_opened stream line l f o e = rw o (rw e refl)

-- On logs that are open and consistent, every run of appends succeeds, the three plain files still
-- hold what the index lists, and the replay of the index is longer by exactly the lines appended, in
-- their order and each with its stream.
pub append_all_lem :
    (entries : List Entry) (l : JobLogs) (f : Files)
    → l.opened ≡ true
    → l.files ≡ some f
    → IsConsistent f
    → (l' : JobLogs) × (f' : Files) × (append_all entries l ≡ some l')
      × (l'.files ≡ some f')
      × IsConsistent f'
      × (read_all l' ≡ read_all l ++ entries)
unfolding append_all read_all
append_all_lem [] l f o e c = (l, f, refl, e, c, sym (append-nil (read_all l)))
append_all_lem ((stream, line) ∷ entries) l f o e c =
    let l1 = appended stream line f l in
    let (l', f', run, files, kept, index) =
      append_all_lem entries l1 (write stream line f) o refl (write-IsConsistent stream line f c) in
    let grown : read_all l1 ++ entries ≡ read_all l ++ (stream, line) ∷ entries =
      ap (λ xs. xs ++ entries) (index-write stream line f)
      ∙ (append_assoc f.index ((stream, line) ∷ []) entries ∙ rw e refl) in
    (l', f', rw (append_opened stream line l f o e, append_all) run, files, kept, index ∙ grown)
