-- ===== src/Common/Decimal.antt =====
-- The decimal digits of a number, as Python's `str` of an int prints them, and the number that a text
-- of digits denotes.
pub mod Laws
use Prim.Native.Nat.{ℕ, zero, suc, ◌+◌, ◌-◌, ◌*◌, ◌/◌, ◌%◌}
use mathlib.Core.List.{List, [], ◌∷◌, ◌++◌}
use gpuq.Common.Tests.{ltb, if◌then◌else◌}
use gpuq.Common.Text.{Text}
use gpuq.Common.Int.{ℤ, pos, negsuc}

-- On fuel: `n` is enough for `n`, which has no more than `n` digits after the first.
unfoldable pub digits : (fuel : ℕ) → ℕ → Text
digits zero n = (48 + n) ∷ []
digits (suc k) n =
    let front = digits k (n / 10) in if ltb n 10 then (48 + n) ∷ [] else front ++ (48 + n % 10) ∷ []

unfoldable pub decimal : ℕ → Text
decimal n = digits n n

unfoldable pub int_text : ℤ → Text
int_text (pos n) = decimal n
int_text (negsuc n) = 45 ∷ decimal (suc n)

abbrev pub value_from : ℕ → Text → ℕ
value_from acc [] = acc
value_from acc (c ∷ s) = value_from (acc * 10 + (c - 48)) s

abbrev pub value : Text → ℕ
value s = value_from 0 s
