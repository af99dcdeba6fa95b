-- ===== src/Common/Strings/Laws.antt =====
-- What splitting and stripping leave of texts without separators.
use Prim.Native.Nat.{ℕ}
use mathlib.Core.Path.{◌≡◌, refl, ap, sym, ◌∙◌}
use mathlib.Core.Bool.{Bool, false}
use mathlib.Core.List.{List, [], ◌∷◌, ◌++◌, append_assoc, append-nil}
use native.Mathlib.Omega.{arith}
use gpuq.Common.Tests.{◌==◌}
use gpuq.Common.Lists.{All}
use gpuq.Common.Text.{Text}
use gpuq.Common.Strings.{
  is_space, strip, is_break, lines_from, split_lines, rstrip, words_from, words, parts_from, split,
  keep_unless_end, lstrip, join,
}

-- No character of the text passes the test.
abbrev pub Lacks : (ℕ → Bool) → Text → Type 0
Lacks p s = All (λ c. p c ≡ false) s

lines_from-step :
    (l rest : Text) (cur : Text)
    → Lacks is_break l
    → lines_from false cur (l ++ 10 ∷ rest) ≡ (cur ++ l) ∷ lines_from false [] rest
unfolding lines_from
lines_from-step [] rest cur h = ap (λ t. t ∷ lines_from false [] rest) (sym (append-nil cur))
lines_from-step (c ∷ l) rest cur h = rw (h.0) (
    lines_from-step l rest (cur ++ c ∷ []) h.1
    ∙ ap (λ t. t ∷ lines_from false [] rest) (append_assoc cur (c ∷ []) l))

-- The lines of a text in which each is ended by a line feed.
abbrev pub unlines : List Text → Text
unlines [] = []
unlines (l ∷ ls) = l ++ 10 ∷ unlines ls

pub split_lines-unlines : (ls : List Text) → All (Lacks is_break) ls → split_lines (unlines ls) ≡ ls
unfolding split_lines
split_lines-unlines [] h = unfold lines_from in refl
split_lines-unlines (l ∷ ls) h =
    lines_from-step l (unlines ls) [] h.0 ∙ ap (λ t. l ∷ t) (split_lines-unlines ls h.1)

keep_unless_end-word : (c : ℕ) (s : Text) → is_space c ≡ false → keep_unless_end c s ≡ c ∷ s
keep_unless_end-word c [] h = rw h refl
keep_unless_end-word c (x ∷ s) h = refl

-- Stripping the end leaves a text alone that stands before what is stripped.
pub rstrip-append :
    (c : ℕ) (name rest : Text)
    → Lacks is_space (c ∷ name)
    → rstrip ((c ∷ name) ++ rest) ≡ (c ∷ name) ++ rstrip rest
unfolding rstrip
rstrip-append c [] rest h = keep_unless_end-word c (rstrip rest) h.0
rstrip-append c (d ∷ name) rest h = rw (rstrip-append d name rest h.1) refl

words_from-word :
    (name rest : Text) (cur : Text)
    → Lacks is_space name
    → words_from cur (name ++ rest) ≡ words_from (cur ++ name) rest
unfolding words_from
words_from-word [] rest cur h = ap (λ t. words_from t rest) (sym (append-nil cur))
words_from-word (c ∷ name) rest cur h = rw (h.0) (
    words_from-word name rest (cur ++ c ∷ []) h.1
    ∙ ap (λ t. words_from t rest) (append_assoc cur (c ∷ []) name))

-- A text without whitespace that is not empty.
abbrev pub IsWord : Text → Type 0
IsWord [] = ⊥
IsWord (c ∷ s) = Lacks is_space (c ∷ s)

pub strip-word : (s : Text) → IsWord s → strip s ≡ s
unfolding strip lstrip rstrip
strip-word [] h = absurd h
strip-word (c ∷ s) h =
    let ends : rstrip (c ∷ s) ≡ c ∷ s =
      ap rstrip (sym (append-nil (c ∷ s))) ∙ (rstrip-append c s [] h ∙ append-nil (c ∷ s)) in
    rw ends (rw (h.0) refl)

words_from-blank :
    (c : ℕ) (name s : Text)
    → (ws : List Text) × (words_from (c ∷ name) (keep_unless_end 32 s) ≡ (c ∷ name) ∷ ws)
unfolding words_from
words_from-blank c name [] = ([], refl)
words_from-blank c name (x ∷ s) = (words_from [] (x ∷ s), refl)

-- The first word of a line that begins with one, its end stripped.
pub words-rstrip :
    (name rest : Text)
    → IsWord name
    → (ws : List Text) × (words (rstrip (name ++ 32 ∷ rest)) ≡ name ∷ ws)
unfolding words rstrip
words-rstrip [] rest h = absurd h
words-rstrip (c ∷ name) rest h =
    let (ws, e) = words_from-blank c name (rstrip rest) in
    (
      ws,
      ap (words_from []) (rstrip-append c name (32 ∷ rest) h)
          ∙ (words_from-word (c ∷ name) (keep_unless_end 32 (rstrip rest)) [] h ∙ e),
    )

module _ (sep : ℕ) where
  parts_from-part :
      (p rest cur : Text)
      → Lacks (λ c. c == sep) p
      → parts_from sep cur (p ++ rest) ≡ parts_from sep (cur ++ p) rest
  unfolding parts_from
  parts_from-part [] rest cur h = ap (λ t. parts_from sep t rest) (sym (append-nil cur))
  parts_from-part (c ∷ p) rest cur h = rw (h.0) (
      parts_from-part p rest (cur ++ c ∷ []) h.1
      ∙ ap (λ t. parts_from sep t rest) (append_assoc cur (c ∷ []) p))

  pub split-join :
      (p : Text) (ps : List Text)
      → All (Lacks (λ c. c == sep)) (p ∷ ps)
      → split sep (join sep (p ∷ ps)) ≡ p ∷ ps
  unfolding split parts_from
  split-join p [] h = ap (parts_from sep []) (sym (append-nil p)) ∙ parts_from-part p [] [] h.0
  split-join p (q ∷ ps) h =
      parts_from-part p (sep ∷ join sep (q ∷ ps)) [] h.0 ∙ ground (arith, split-join q ps h.1)
