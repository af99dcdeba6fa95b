-- ===== src/Common/Strings.antt =====
-- Methods of Python's `str`, on code points: isspace, splitlines, rstrip, strip and split.
pub mod Laws
use Prim.Native.Nat.{ℕ}
use mathlib.Core.Bool.{Bool, true, false, not, ◌&&◌, ◌||◌}
use mathlib.Core.List.{List, [], ◌∷◌, ◌++◌}
use gpuq.Common.Tests.{ltb, leb, ◌==◌, if◌then◌else◌}
use gpuq.Common.Text.{Text}

abbrev between : ℕ → ℕ → ℕ → Bool
between lo hi c = leb lo c && leb c hi

unfoldable pub is_space : ℕ → Bool
is_space c =
    between 9 13 c
    || (between 28 32 c
        || (c == 133
            || (c == 160
                || (c == 5760
                    || (between 8192 8202 c
                        || (c == 8232
                            || (c == 8233 || (c == 8239 || (c == 8287 || c == 12288)))))))))

-- Where `splitlines` ends a line.
unfoldable pub is_break : ℕ → Bool
is_break c = between 10 13 c || (between 28 30 c || (c == 133 || (c == 8232 || c == 8233)))

abbrev pub last_line : Text → List Text
last_line [] = []
last_line (c ∷ cur) = (c ∷ cur) ∷ []

-- The lines from the current one on; a line feed behind a carriage return ends no second line.
unfoldable pub lines_from : (after_cr : Bool) (cur : Text) → Text → List Text
unfolding is_break
lines_from after_cr cur [] = last_line cur
lines_from after_cr cur (c ∷ s) =
    let same = lines_from false cur s in
    let next = cur ∷ lines_from (c == 13) [] s in
    let more = lines_from false (cur ++ c ∷ []) s in
    if after_cr && (c == 10) then same else if is_break c then next else more

unfoldable pub split_lines : Text → List Text
split_lines s = lines_from false [] s

abbrev pub keep_unless_end : ℕ → Text → Text
keep_unless_end c [] = if is_space c then [] else c ∷ []
keep_unless_end c (x ∷ s) = c ∷ x ∷ s

unfoldable pub rstrip : Text → Text
unfolding is_space
rstrip [] = []
rstrip (c ∷ s) = keep_unless_end c (rstrip s)

unfoldable pub lstrip : Text → Text
unfolding is_space
lstrip [] = []
lstrip (c ∷ s) = let rest = lstrip s in if is_space c then rest else c ∷ s

unfoldable pub strip : Text → Text
strip s = lstrip (rstrip s)

abbrev pub closed_word : Text → List Text → List Text
closed_word [] ws = ws
closed_word (c ∷ cur) ws = (c ∷ cur) ∷ ws

-- `split()`: the words between runs of whitespace.
unfoldable pub words_from : (cur : Text) → Text → List Text
unfolding is_space
words_from cur [] = closed_word cur []
words_from cur (c ∷ s) =
    let next = closed_word cur (words_from [] s) in
    let more = words_from (cur ++ c ∷ []) s in if is_space c then next else more

unfoldable pub words : Text → List Text
words s = words_from [] s

-- `split(sep)` for one character.
unfoldable pub parts_from : (sep : ℕ) (cur : Text) → Text → List Text
parts_from sep cur [] = cur ∷ []
parts_from sep cur (c ∷ s) =
    let next = cur ∷ parts_from sep [] s in
    let more = parts_from sep (cur ++ c ∷ []) s in if c == sep then next else more

unfoldable pub split : (sep : ℕ) → Text → List Text
split sep s = parts_from sep [] s

-- `sep.join(parts)` for one character.
abbrev pub join : (sep : ℕ) → List Text → Text
join sep [] = []
join sep (p ∷ []) = p
join sep (p ∷ q ∷ ps) = p ++ sep ∷ join sep (q ∷ ps)
