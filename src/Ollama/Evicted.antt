-- ===== src/Ollama/Evicted.antt =====
-- Which models are evicted.
use gpuq.Common.{◌≡◌, refl, ap, ◌∙◌, List, [], ◌∷◌, ◌++◌, map, some, All}
use gpuq.Common.Text.{Text}
use gpuq.Common.Int.{pos}
use gpuq.Common.Strings.{is_break, rstrip, words, words_from}
use gpuq.Common.Strings.Laws.{Lacks, IsWord, unlines, split_lines-unlines, words-rstrip}
use gpuq.Ollama.{after_titles, name_before, names_in, ended, evict, stop_command}

-- A row of the table: the model's name, a blank, and the other columns.
abbrev pub row : Text × Text → Text
row (name, rest) = name ++ 32 ∷ rest

abbrev pub Row : Text × Text → Type 0
Row r = IsWord r.0 × Lacks is_break (row r)

words-nil : words [] ≡ []
unfolding words words_from
words-nil = refl

name_before-word :
    (line name : Text) (ws names : List Text)
    → words line ≡ name ∷ ws
    → name_before line (some names) ≡ some (name ∷ names)
unfolding name_before
name_before-word [] name ws names e = cc (words-nil)
name_before-word (c ∷ s) name ws names e = rw (e, name_before) refl

names_in-rows :
    (rows : List (Text × Text))
    → All Row rows
    → names_in (map row rows) ≡ some (map (λ (r : Text × Text). r.0) rows)
unfolding names_in
names_in-rows [] h = refl
names_in-rows ((name, rest) ∷ rows) h =
    let (ws, e) = words-rstrip name rest h.0.0 in
    ap (name_before (rstrip (name ++ 32 ∷ rest))) (names_in-rows rows h.1)
    ∙ name_before-word (rstrip (name ++ 32 ∷ rest)) name ws _ e

All-breaks : (rows : List (Text × Text)) → All Row rows → All (Lacks is_break) (map row rows)
All-breaks [] h = tt
All-breaks (r ∷ rows) h = (h.0.1, All-breaks rows h.1)

map-stop_command :
    (rows : List (Text × Text))
    → map stop_command (map (λ (r : Text × Text). r.0) rows)
      ≡ map (λ (r : Text × Text). stop_command r.0) rows
map-stop_command [] = refl
map-stop_command (r ∷ rows) = ap (λ cs. stop_command r.0 ∷ cs) (map-stop_command rows)

-- Where `ollama ps` succeeds with a line of titles and rows that each begin with a model's name,
-- exactly these models are evicted, in the order of the rows, and one stop command is run for each.
pub evict-table :
    (titles : Text) (rows : List (Text × Text))
    → Lacks is_break titles
    → All Row rows
    → evict (ended (pos 0) (unlines (titles ∷ map row rows)))
      ≡ some (map (λ (r : Text × Text). r.0) rows, map (λ (r : Text × Text). stop_command r.0) rows)
unfolding evict
evict-table titles rows t h =
    let lines = split_lines-unlines (titles ∷ map row rows) (t, All-breaks rows h) in
    let names = ap after_titles lines ∙ names_in-rows rows h in
    rw (names, evict)
      (ap (λ cs. some (map (λ (r : Text × Text). r.0) rows, cs)) (map-stop_command rows))
