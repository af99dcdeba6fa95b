-- ===== src/Common/Sort.antt =====
-- A stable sort over a Boolean total preorder, for `ORDER BY`.
pub mod Laws
use mathlib.Core.Path.{◌≡◌, refl}
use mathlib.Core.Logic.{◌⊎◌, inl, inr}
use mathlib.Core.Bool.{Bool, true, false}
use mathlib.Core.List.{List, [], ◌∷◌, ◌++◌, Perm}
use mathlib.Core.List.Perm
use native.Mathlib.Omega.{arith}
use gpuq.Common.Tests.{if◌then◌else◌, Bool-cases}
use gpuq.Common.Lists.{All, filter}

module _ {ℓ} {A : Type ℓ} (le : A → A → Bool) where
  -- Puts `x` before the first element that it may precede.
  unfoldable pub insert : A → List A → List A
  insert x [] = x ∷ []
  insert x (y ∷ ys) = if le x y then x ∷ y ∷ ys else y ∷ insert x ys

  -- Elements that compare equal keep their order.
  unfoldable pub sort : List A → List A
  unfolding insert
  sort [] = []
  sort (x ∷ xs) = insert x (sort xs)

  -- Puts `x` behind every element that may precede it.
  unfoldable pub insert_after : A → List A → List A
  insert_after x [] = x ∷ []
  insert_after x (y ∷ ys) = if le y x then y ∷ insert_after x ys else x ∷ y ∷ ys

  abbrev pub IsSorted : List A → Type 0
  IsSorted [] = Unit
  IsSorted (x ∷ xs) = All (λ y. le x y ≡ true) xs × IsSorted xs
