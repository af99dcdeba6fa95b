-- ===== src/Cli/Duration.antt =====
-- `_parse_duration` and `_fmt_dur` of src/gpuq/cli.py. `float`, which reads a decimal text as
-- seconds, and the format of a number of hours with one decimal are arguments.
pub mod Laws
use Prim.Native.Nat.{◌/◌}
use gpuq.Common.{ℕ, suc, ◌+◌, ◌*◌, ◌==◌, List, [], ◌∷◌, ◌++◌, Option, none, some, if◌then◌else◌}
use gpuq.Common.Text.{Text, text}
use gpuq.Common.Int.{ℤ, pos, negsuc, ltb_ℤ, times_ℤ, ◌-ℤ◌}
use gpuq.Common.Strings.{strip}
use gpuq.Common.Decimal.{int_text}
use gpuq.Protocol.{Micros}

-- What becomes of a text: a time, click's UsageError, or the ValueError of `float`.
pub data Duration : Type 0 where
  time : Micros → Duration
  usage_error value_error : Duration

-- `s[:-1]` and `s[-1]` of a text that is not empty.
unfoldable pub split_last : (first : ℕ) → Text → Text × ℕ
split_last c [] = ([], c)
split_last c (d ∷ s) = let (front, last) = split_last d s in (c ∷ front, last)

-- `units`: the seconds of s, m, h and d.
unfoldable pub unit_seconds : ℕ → Option ℕ
unit_seconds c =
    if c == 115
    then some 1
    else if c == 109
    then some 60
    else if c == 104
    then some 3600
    else if c == 100
    then some 86400
    else none

module _ (float : Text → Option Micros) where
  abbrev pub multiple : (body : Text) → ℕ → Duration
  multiple body k = elim (float body) [ none ↦ usage_error | some x ↦ time (times_ℤ k x) ]

  abbrev pub plain : Text → Duration
  plain s = elim (float s) [ none ↦ value_error | some x ↦ time x ]

  abbrev pub measure_last : Text → Text × ℕ → Duration
  measure_last s (body, last) = elim (unit_seconds last) [
    | none ↦ plain s
    | some k ↦ multiple body k
  ]

  unfoldable pub measure : Text → Duration
  measure [] = usage_error
  measure (c ∷ s) = measure_last (c ∷ s) (split_last c s)

  unfoldable pub parse_duration : Text → Duration
  parse_duration s = measure (strip s)

-- Division that rounds towards zero, as `int` does.
abbrev pub quotient : ℤ → ℕ → ℤ
quotient (pos n) k = pos (n / k)
quotient (negsuc n) k = pos 0 -ℤ pos (suc n / k)

abbrev pub minute : ℕ
minute = 60 * 1000000

unfoldable pub fmt_dur : (hours : Micros → Text) → Micros → Text
fmt_dur hours s =
    if ltb_ℤ s (pos minute)
    then int_text (quotient s 1000000) ++ text "s"
    else if ltb_ℤ s (pos (60 * minute))
    then int_text (quotient s minute) ++ text "m"
    else hours s ++ text "h"
