-- ===== src/Common/Decimal/Laws.antt =====
-- A number is the value of its digits.
use Prim.Native.Nat.{ℕ, zero, suc, ◌+◌, ◌-◌, ◌*◌, ◌/◌, ◌%◌, ◌≤◌}
use mathlib.Core.Path.{◌≡◌, refl, ◌∙◌}
use mathlib.Core.List.{[], ◌∷◌, ◌++◌}
use mathlib.Core.Logic.{inl, inr}
use native.Mathlib.Omega.{arith}
use gpuq.Common.Tests.{ltb, Bool-cases}
use gpuq.Common.Text.{Text}
use gpuq.Common.Decimal.{digits, decimal, value_from, value}

value_from-append :
    (acc : ℕ) (s : Text) (c : ℕ) → value_from acc (s ++ c ∷ []) ≡ value_from acc s * 10 + (c - 48)
value_from-append acc [] c = refl
value_from-append acc (d ∷ s) c = value_from-append (acc * 10 + (d - 48)) s c

value-digits : (fuel n : ℕ) → n ≤ fuel → value (digits fuel n) ≡ n
unfolding digits
value-digits zero n h = omega arith
value-digits (suc k) n h = elim (Bool-cases (ltb n 10)) [
  | inl small ↦ rw small (omega arith)
  | inr large ↦ rw large (
      value_from-append 0 (digits k (n / 10)) (48 + n % 10)
      ∙ rw (value-digits k (n / 10) (omega arith)) (omega arith))
]

pub value-decimal : (n : ℕ) → value (decimal n) ≡ n
unfolding decimal
value-decimal n = value-digits n n (omega arith)
