-- ===== src/Common/Sort/Laws.antt =====
-- Laws of the stable sort over a total preorder.
use mathlib.Core.Path.{◌≡◌, refl}
use mathlib.Core.Logic.{◌⊎◌, inl, inr}
use mathlib.Core.Bool.{Bool, true}
use mathlib.Core.List.{List, [], ◌∷◌, ◌++◌, Perm}
use mathlib.Core.List.Perm
use native.Mathlib.Omega.{arith}
use gpuq.Common.Tests.{if◌then◌else◌, Bool-cases}
use gpuq.Common.Lists.{All, filter}
use gpuq.Common.Sort.{insert, sort, insert_after, IsSorted}

module _ {ℓ} {A : Type ℓ} (le : A → A → Bool) where
  pub insert-perm : (x : A) (ys : List A) → Perm (insert le x ys) (x ∷ ys)
  unfolding insert
  insert-perm x [] = Perm.rfl
  insert-perm x (y ∷ ys) = elim (Bool-cases (le x y)) [
    | inl first ↦ rw first Perm.rfl
    | inr later ↦ rw later (Perm.trans (Perm.cons y (insert-perm x ys)) (Perm.swap x y ys))
  ]

  pub sort-perm : (xs : List A) → Perm (sort le xs) xs
  unfolding sort
  sort-perm [] = Perm.rfl
  sort-perm (x ∷ xs) = Perm.trans (insert-perm x (sort le xs)) (Perm.cons x (sort-perm xs))

  pub All-insert {κ} :
      (P : A → Type κ) (x : A) (ys : List A) → P x → All P ys → All P (insert le x ys)
  unfolding insert
  All-insert P x [] p h = (p, tt)
  All-insert P x (y ∷ ys) p h = elim (Bool-cases (le x y)) [
    | inl first ↦ rw first (p, h)
    | inr later ↦ rw later (h.0, All-insert P x ys p h.1)
  ]

  pub All-sort {κ} : (P : A → Type κ) (xs : List A) → All P xs → All P (sort le xs)
  unfolding sort
  All-sort P [] h = tt
  All-sort P (x ∷ xs) h = All-insert P x (sort le xs) h.0 (All-sort P xs h.1)

  module _ (total : (x y : A) → (le x y ≡ true) ⊎ (le y x ≡ true))
      (trans : (x y z : A) → le x y ≡ true → le y z ≡ true → le x z ≡ true) where
    All-le_trans :
        (x y : A) (zs : List A)
        → le x y ≡ true
        → All (λ z. le y z ≡ true) zs
        → All (λ z. le x z ≡ true) zs
    All-le_trans x y [] h k = tt
    All-le_trans x y (z ∷ zs) h k = (trans x y z h k.0, All-le_trans x y zs h k.1)

    insert-IsSorted : (x : A) (ys : List A) → IsSorted le ys → IsSorted le (insert le x ys)
    unfolding insert
    insert-IsSorted x [] s = (tt, tt)
    insert-IsSorted x (y ∷ ys) s = elim (Bool-cases (le x y)) [
      | inl first ↦ rw first ((first, All-le_trans x y ys first s.0), s)
      | inr later ↦ rw later (
        All-insert (λ z. le y z ≡ true) x ys (ground (arith, total x y)) s.0,
        insert-IsSorted x ys s.1,
      )
    ]

    pub sort-IsSorted : (xs : List A) → IsSorted le (sort le xs)
    unfolding sort
    sort-IsSorted [] = tt
    sort-IsSorted (x ∷ xs) = insert-IsSorted x (sort le xs) (sort-IsSorted xs)

    -- An element that was put in first comes before its equals, one put in last behind them.
    insert-insert_after :
        (x y : A) (zs : List A)
        → insert le y (insert_after le x zs) ≡ insert_after le x (insert le y zs)
    unfolding insert insert_after
    insert-insert_after x y [] = ground arith
    insert-insert_after x y (z ∷ zs) =
        ground (arith, insert-insert_after x y zs, total x z, total z y, trans y x z, trans y z x)

    -- A new last element goes behind its equals: first come, first served.
    pub sort-append :
        (xs : List A) (x : A) → sort le (xs ++ x ∷ []) ≡ insert_after le x (sort le xs)
    unfolding sort insert_after
    sort-append [] x = refl
    sort-append (y ∷ xs) x = rw (sort-append xs x) (insert-insert_after x y (sort le xs))

    insert_first : (x : A) (ys : List A) → All (λ z. le x z ≡ true) ys → insert le x ys ≡ x ∷ ys
    unfolding insert
    insert_first x [] h = refl
    insert_first x (y ∷ ys) h = rw (h.0)

    All-filter {κ} : (P : A → Type κ) (p : A → Bool) (xs : List A) → All P xs → All P (filter p xs)
    All-filter P p [] h = tt
    All-filter P p (x ∷ xs) h = elim (Bool-cases (p x)) [
      | inl keep ↦ rw keep (h.0, All-filter P p xs h.1)
      | inr drop ↦ rw drop (All-filter P p xs h.1)
    ]

    filter-insert :
        (p : A → Bool) (x : A) (ys : List A)
        → IsSorted le ys
        → filter p (insert le x ys) ≡ (if p x then insert le x (filter p ys) else filter p ys)
    unfolding insert
    filter-insert p x [] s = ground arith
    filter-insert p x (y ∷ ys) s = ground (
      arith,
      filter-insert p x ys s.1,
      λ (h : le x y ≡ true).
          insert_first x (filter p ys) (All-filter _ p ys (All-le_trans x y ys h s.0)),
    )

    -- Selecting and sorting commute.
    pub filter-sort : (p : A → Bool) (xs : List A) → filter p (sort le xs) ≡ sort le (filter p xs)
    unfolding sort
    filter-sort p [] = refl
    filter-sort p (x ∷ xs) =
        ground (arith, filter-insert p x (sort le xs) (sort-IsSorted xs), filter-sort p xs)
