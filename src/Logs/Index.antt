-- ===== src/Logs/Index.antt =====
-- index.jsonl of src/gpuq/logs.py as the text that it is: a line of JSON for each record.
use gpuq.Common.{
  ℕ, ◌≡◌, refl, sym, ap, ◌∙◌, Bool, false, ◌==◌, ◌||◌, ◌&&◌, map, List, [], ◌∷◌, ◌++◌, Option, none,
  some, All, arith, if◌then◌else◌, ◌>>=◌,
}
use mathlib.Core.List.{append_assoc, append-nil}
use gpuq.Common.Text.{Text, text, text_eq}
use gpuq.Common.Strings.Laws.{Lacks}
use gpuq.Common.Strings.{last_line}
use gpuq.Protocol.Json.{Json, end, field, str, obj, get_field}
use gpuq.Protocol.Instances.{stream_text}
use gpuq.Protocol.Codec.{JsonLib}
use gpuq.Logs.{Entry}

-- `{"stream": stream, "line": line}`
abbrev pub entry_json : Entry → Json
entry_json (stream, line) =
    obj (field (text "stream") (str (stream_text stream)) (field (text "line") (str line) end))

-- What reading in text mode makes of the line ends: "\r\n" and "\r" are read as "\n".
unfoldable pub universal_newlines : (after_cr : Bool) → Text → Text
universal_newlines after_cr [] = []
universal_newlines after_cr (c ∷ s) =
    let next = universal_newlines (c == 13) s in
    if c == 13 then 10 ∷ next else if after_cr && (c == 10) then next else c ∷ next

-- `for raw in f`: the lines, each with its line feed.
unfoldable pub file_lines : (cur : Text) → Text → List Text
file_lines cur [] = last_line cur
file_lines cur (c ∷ s) =
    let next = (cur ++ c ∷ []) ∷ file_lines [] s in
    let more = file_lines (cur ++ c ∷ []) s in if c == 10 then next else more

-- `(rec["stream"], rec["line"])`: `none` is the KeyError or TypeError of a value without them.
unfoldable pub record_entry : Json → Option (Json × Json)
record_entry (obj fs) = do
  stream ← get_field (text "stream") fs
  line ← get_field (text "line") fs
  some (stream, line)
record_entry _ = none

module _ (lib : JsonLib) where
  -- What `append` writes to the index.
  unfoldable pub index_line : Entry → Text
  index_line e = lib.dumps (entry_json e) ++ text "\n"

  unfoldable pub index_text : List Entry → Text
  index_text [] = []
  index_text (e ∷ entries) = index_line e ++ index_text entries

  -- The loop of `read_all`: `none` is the exception of a line that is no record.
  unfoldable pub read_lines : List Text → Option (List (Json × Json))
  read_lines [] = some []
  read_lines (raw ∷ raws) = do
    v ← lib.loads raw
    entry ← record_entry v
    entries ← read_lines raws
    some (entry ∷ entries)

  unfoldable pub read_index : Text → Option (List (Json × Json))
  read_index s = read_lines (file_lines [] (universal_newlines false s))

abbrev is_newline : ℕ → Bool
is_newline c = (c == 10) || (c == 13)

-- json.dumps writes the record on one line, and json.loads reads that line as the record.
pub record IsLine (lib : JsonLib) (e : Entry) : Type 0 where
  pub one_line : Lacks is_newline (lib.dumps (entry_json e))
  pub restored : lib.loads (lib.dumps (entry_json e) ++ text "\n") ≡ some (entry_json e)

universal_newlines-append :
    (l rest : Text)
    → Lacks is_newline l
    → universal_newlines false (l ++ 10 ∷ rest) ≡ l ++ 10 ∷ universal_newlines false rest
unfolding universal_newlines
universal_newlines-append [] rest h = ground arith
universal_newlines-append (c ∷ l) rest h =
    let later = universal_newlines-append l rest h.1 in ground (arith, h.0, later)

file_lines-append :
    (l rest cur : Text)
    → Lacks is_newline l
    → file_lines cur (l ++ 10 ∷ rest) ≡ (cur ++ l ++ 10 ∷ []) ∷ file_lines [] rest
unfolding file_lines
file_lines-append [] rest cur h =
    ap (λ t. (t ++ 10 ∷ []) ∷ file_lines [] rest) (sym (append-nil cur))
file_lines-append (c ∷ l) rest cur h =
    let no_end : (c == 10) ≡ false = ground (arith, h.0) in
    rw no_end (
      file_lines-append l rest (cur ++ c ∷ []) h.1
      ∙ ap (λ t. (t ++ 10 ∷ []) ∷ file_lines [] rest) (append_assoc cur (c ∷ []) l))

-- What a record is read back as.
abbrev pub entry_values : Entry → Json × Json
entry_values (stream, line) = (str (stream_text stream), str line)

record_entry_json : (e : Entry) → record_entry (entry_json e) ≡ some (entry_values e)
unfolding record_entry get_field text_eq
record_entry_json e = refl

lines_written :
    (lib : JsonLib) (e : Entry) (rest : Text)
    → IsLine lib e
    → file_lines [] (universal_newlines false (index_line lib e ++ rest))
      ≡ index_line lib e ∷ file_lines [] (universal_newlines false rest)
unfolding index_line
lines_written lib e rest h =
    ap (λ t. file_lines [] (universal_newlines false t))
      (append_assoc (lib.dumps (entry_json e)) (text "\n") rest)
    ∙ (ap (file_lines []) (universal_newlines-append (lib.dumps (entry_json e)) rest h.one_line)
        ∙ file_lines-append (lib.dumps (entry_json e)) (universal_newlines false rest) []
            h.one_line)

-- The index that a run of appends writes reads back as the records, in their order, where json.dumps
-- writes each record on one line, without a line feed or carriage return, and json.loads restores it.
pub read_index-index_text :
    (lib : JsonLib) (entries : List Entry)
    → All (IsLine lib) entries
    → read_index lib (index_text lib entries) ≡ some (map entry_values entries)
unfolding read_index index_text index_line read_lines
read_index-index_text lib [] h = unfold file_lines universal_newlines in refl
read_index-index_text lib (e ∷ entries) h =
    ap (read_lines lib) (lines_written lib e (index_text lib entries) h.0)
    ∙ rw (h.0.restored) (rw (record_entry_json e) (rw (read_index-index_text lib entries h.1) refl))
