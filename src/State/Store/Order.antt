-- ===== src/State/Store/Order.antt =====
-- The order in which rows are inserted into the table `jobs` of src/gpuq/state.py is forgotten.
use mathlib.Core.Option
use mathlib.Core.Quot
use mathlib.Core.Quot.{Quot, Quot-set}
use gpuq.Common.{
  ◌≡◌, refl, sym, ap, ◌∙◌, false, [], ◌∷◌, ◌++◌, none, some, ◌>>=◌, Option-cases, inl, inr, arith,
}
use gpuq.Common.Text.{text_eq, text_eq_iff}
use gpuq.State.{JobRecord, Table}
use gpuq.State.Jobs.{get, insert_job}
use gpuq.State.Store.{SameRows, Store, store_insert, get-inserted}

inserted-new :
    (r : JobRecord) (t : Table)
    → get r.id t ≡ none
    → store_insert r (Quot.mk t) ≡ some (Quot.mk (t ++ r ∷ []))
unfolding store_insert insert_job
inserted-new r t new = rw (new, insert_job) refl

inserted-old :
    (r old : JobRecord) (t : Table) → get r.id t ≡ some old → store_insert r (Quot.mk t) ≡ none
unfolding store_insert insert_job
inserted-old r old t e = rw (e, insert_job) refl

-- A row is refused before another one's insertion exactly if it is refused behind it.
other-inserted :
    (a b : JobRecord) (t : Table)
    → text_eq a.id b.id ≡ false
    → get b.id t ≡ none
    → get a.id (t ++ b ∷ []) ≡ get a.id t
other-inserted a b t apart new = get-inserted a.id b t new ∙ rw apart refl

-- Two rows with different ids may be inserted in either order.
insert_comm :
    (a b : JobRecord) (s : Store)
    → text_eq a.id b.id ≡ false
    → (store_insert a s >>= store_insert b) ≡ (store_insert b s >>= store_insert a)
insert_comm a b s apart =
    Quot.ind
      (λ u.
        Option.is_set Quot-set (store_insert a u >>= store_insert b)
          (store_insert b u >>= store_insert a))
      go s
  where
    back : text_eq b.id a.id ≡ false
    back = ground (arith, apart, text_eq_iff a.id b.id, text_eq_iff b.id a.id)

    refused :
        (c d old : JobRecord) (t : Table)
        → text_eq c.id d.id ≡ false
        → get c.id t ≡ some old
        → (store_insert d (Quot.mk t) >>= store_insert c) ≡ none
    refused c d old t h e = elim (Option-cases (get d.id t)) [
      | inl new ↦ rw (inserted-new d t new) (inserted-old c old _ (other-inserted c d t h new ∙ e))
      | inr (other, f) ↦ rw (inserted-old d other t f) refl
    ]

    both_ways :
        (t : Table)
        → get a.id t ≡ none
        → get b.id t ≡ none
        → get a.id (t ++ b ∷ []) ≡ none
        → get b.id (t ++ a ∷ []) ≡ none
        → SameRows ((t ++ a ∷ []) ++ b ∷ []) ((t ++ b ∷ []) ++ a ∷ [])
    both_ways t new fresh a_then b_then j = ground (
      arith,
      get-inserted j a t new,
      get-inserted j b t fresh,
      get-inserted j a (t ++ b ∷ []) a_then,
      get-inserted j b (t ++ a ∷ []) b_then,
      text_eq_iff j a.id,
      text_eq_iff j b.id,
      text_eq_iff a.id b.id,
      apart,
    )

    go :
        (t : Table)
        → (store_insert a (Quot.mk t) >>= store_insert b)
          ≡ (store_insert b (Quot.mk t) >>= store_insert a)
    go t = elim (Option-cases (get a.id t)) [
      | inr (old, e) ↦ rw (inserted-old a old t e) (sym (refused a b old t apart e))
      | inl new ↦ elim (Option-cases (get b.id t)) [
        | inr (old, e) ↦ rw (inserted-old b old t e) (refused b a old t back e)
        | inl fresh ↦
            let a_then = other-inserted a b t apart fresh ∙ new in
            let b_then = other-inserted b a t back new ∙ fresh in
            rw (inserted-new a t new) (
              rw (inserted-new b t fresh) (
                inserted-new b (t ++ a ∷ []) b_then
                ∙ (ap some (Quot.sound (both_ways t new fresh a_then b_then))
                    ∙ sym (inserted-new a (t ++ b ∷ []) a_then))))
      ]
    ]
