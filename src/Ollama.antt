-- ===== src/Ollama.antt =====
-- `class OllamaController` and `_parse_ps` of src/gpuq/ollama.py. How the child processes end is an
-- argument.
pub mod Evicted
use gpuq.Common.{
  ℕ, Bool, true, false, List, [], ◌∷◌, ◌++◌, map, Option, none, some, head?, if◌then◌else◌,
}
use gpuq.Common.Text.{Text, text}
use gpuq.Common.Int.{ℤ, pos, eqb_ℤ}
use gpuq.Common.Strings.{split_lines, rstrip, words}

-- A line whose end is stripped, before the names in the other lines: an empty one is passed over.
-- `none`: the IndexError of a line with no word.
unfoldable pub name_before : Text → Option (List Text) → Option (List Text)
name_before [] others = others
name_before (c ∷ s) others = elim (head? (words (c ∷ s))) [
  | none ↦ none
  | some name ↦ elim others [ none ↦ none | some names ↦ some (name ∷ names) ]
]

unfoldable pub names_in : List Text → Option (List Text)
unfolding name_before
names_in [] = some []
names_in (line ∷ lines) = name_before (rstrip line) (names_in lines)

-- The first line holds the titles of the columns.
abbrev pub after_titles : List Text → Option (List Text)
after_titles [] = some []
after_titles (titles ∷ lines) = names_in lines

unfoldable pub parse_ps : Text → Option (List Text)
parse_ps out = after_titles (split_lines out)

-- How `ollama ps` ends: there is no such program, or an exit code and the output.
pub data PsResult : Type 0 where
  not_installed : PsResult
  ended : (returncode : ℤ) → (out : Text) → PsResult

unfoldable pub loaded_models : PsResult → Option (List Text)
unfolding parse_ps
loaded_models not_installed = some []
loaded_models (ended rc out) = if eqb_ℤ rc (pos 0) then parse_ps out else some []

abbrev pub stop_command : Text → List Text
stop_command model = text "ollama" ∷ text "stop" ∷ model ∷ []

-- What `evict` returns and the commands that it runs, in their order; how these end makes no
-- difference. `none` is the IndexError.
unfoldable pub evict : PsResult → Option (List Text × List (List Text))
unfolding loaded_models
evict ps = elim (loaded_models ps) [
  | none ↦ none
  | some models ↦ some (models, map stop_command models)
]
