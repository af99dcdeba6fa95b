-- ===== src/Cli/Duration/Laws.antt =====
-- The time that a number with a unit stands for.
use gpuq.Common.{ℕ, ◌≡◌, refl, ap, ◌∙◌, false, [], ◌∷◌, ◌++◌, Option, some, arith}
use gpuq.Common.Text.{Text}
use gpuq.Common.Int.{times_ℤ}
use gpuq.Common.Strings.{is_space}
use gpuq.Common.Strings.Laws.{Lacks, IsWord, strip-word}
use gpuq.Protocol.{Micros}
use gpuq.Cli.Duration.{
  time, split_last, unit_seconds, measure, measure_last, multiple, parse_duration,
}

split_last-append : (c : ℕ) (s : Text) (u : ℕ) → split_last c (s ++ u ∷ []) ≡ (c ∷ s, u)
unfolding split_last
split_last-append c [] u = refl
split_last-append c (d ∷ s) u = rw (split_last-append d s u) refl

unit-no_space : (u k : ℕ) → unit_seconds u ≡ some k → is_space u ≡ false
unfolding is_space unit_seconds
unit-no_space u k h = ground arith

IsWord-last : (s : Text) (u : ℕ) → Lacks is_space s → is_space u ≡ false → IsWord (s ++ u ∷ [])
IsWord-last [] u h e = (e, tt)
IsWord-last (c ∷ s) u h e = (h.0, go s h.1)
  where
    go : (t : Text) → Lacks is_space t → Lacks is_space (t ++ u ∷ [])
    go [] h = (e, tt)
    go (d ∷ t) h = (h.0, go t h.1)

measure-unit :
    (float : Text → Option Micros) (c : ℕ) (s : Text) (u k : ℕ) (x : Micros)
    → unit_seconds u ≡ some k
    → float (c ∷ s) ≡ some x
    → measure float ((c ∷ s) ++ u ∷ []) ≡ time (times_ℤ k x)
unfolding measure
measure-unit float c s u k x unit e =
    ap (measure_last float ((c ∷ s) ++ u ∷ [])) (split_last-append c s u)
    ∙ rw (unit, measure_last) (rw (e, multiple) refl)

-- A number without whitespace and a unit behind it are that many units, where `float` reads the number.
pub parse_duration-unit :
    (float : Text → Option Micros) (number : Text) (u k : ℕ) (x : Micros)
    → IsWord number
    → unit_seconds u ≡ some k
    → float number ≡ some x
    → parse_duration float (number ++ u ∷ []) ≡ time (times_ℤ k x)
unfolding parse_duration
parse_duration-unit float [] u k x word unit e = absurd word
parse_duration-unit float (c ∷ s) u k x word unit e =
    rw (strip-word ((c ∷ s) ++ u ∷ []) (IsWord-last (c ∷ s) u word (unit-no_space u k unit)))
      (measure-unit float c s u k x unit e)
