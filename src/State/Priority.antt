-- ===== src/State/Priority.antt =====
-- `max_queued_priority` and `bump`: a bumped job is the next one to run.
use mathlib.Core.Path.{fun_ext}
use gpuq.Common.{
  filter-append, ◌++◌, not, ◌&&◌, ◌∙◌, All-map, ◌≡◌, ◌↔◌, refl, inl, inr, true, false, not, ◌&&◌,
  [], ◌∷◌, filter, arith, Option, Option-cases, some, none, All, Bool-cases,
}
use gpuq.Common.Text.{Text, text_eq_iff}
use gpuq.Common.Int.{ℤ, ltb_ℤ, ◌≤ℤ◌, ◌+ℤ◌, max_ℤ}
use gpuq.State.{JobRecord, Table}
use gpuq.State.Jobs.{
  excluded, has_id, get, row_le, is_queued, max_priority, max_queued_priority, above, set_priority,
  update_where, bump, next_queued,
}
use gpuq.State.Order.{best, first_of_two, head?-sort}
use gpuq.State.Keys.{IsKeyed}

-- The bound that a maximum states: NULL bounds no row.
abbrev AtMost : Option ℤ → ℤ → Type 0
AtMost none q = Unit
AtMost (some m) q = m ≤ℤ q

max_priority-All : (t : Table) (q : ℤ) → AtMost (max_priority t) q → All (λ r. r.priority ≤ℤ q) t
unfolding max_priority max_ℤ
max_priority-All [] q h = tt
max_priority-All (x ∷ t) q h = ground (arith, max_priority-All t q)

lt_above : (m a : ℤ) → a ≤ℤ m → ltb_ℤ a (above (some m)) ≡ true
unfolding above ◌+ℤ◌
lt_above m a h = ground arith

max_priority-ne-none : (x : JobRecord) (t : Table) → max_priority (x ∷ t) ≡ none → ⊥
unfolding max_priority
max_priority-ne-none x t h = ground arith

above-All :
    (t : Table) (o : Option ℤ) → max_priority t ≡ o → All (λ r. ltb_ℤ r.priority (above o) ≡ true) t
above-All [] o e = tt
above-All (x ∷ t) none e = absurd (max_priority-ne-none x t e)
above-All (x ∷ t) (some m) e =
    All-map (x ∷ t) (λ r. lt_above m r.priority) (max_priority-All (x ∷ t) m (rw e (omega arith)))

-- `above (max_priority t)` is greater than every priority in `t`.
pub above-max_priority : (t : Table) → All (λ r. ltb_ℤ r.priority (above (max_priority t)) ≡ true) t
above-max_priority t = above-All t (max_priority t) refl

update_where_absent :
    (j : Text) (f : JobRecord → JobRecord) (t : Table) → get j t ≡ none → update_where j f t ≡ t
unfolding get update_where
update_where_absent j f [] h = refl
update_where_absent j f (x ∷ t) h = ground (arith, update_where_absent j f t)

others_absent :
    (j : Text) (t : Table)
    → get j t ≡ none
    → filter (λ x. is_queued x && not (has_id j x)) t ≡ filter is_queued t
unfolding get
others_absent j [] h = refl
others_absent j (x ∷ t) h = ground (arith, others_absent j t)

-- What holds of every row holds of the best one.
abbrev OnSome : (JobRecord → Type 0) → Option JobRecord → Type 0
OnSome P none = Unit
OnSome P (some r) = P r

best-All : (P : JobRecord → Type 0) (t : Table) → All P t → OnSome P (best t)
unfolding best
best-All P [] h = tt
best-All P (x ∷ t) h = elim (Option-cases (best t)) [
  | inl empty ↦ rw empty h.0
  | inr (y, e) ↦ elim (Bool-cases (row_le x y)) [
    | inl first ↦ rw e (rw first h.0)
    | inr later ↦ rw e (rw later (rw e at (best-All P t h.1)))
  ]
]

first_of_two_dominant :
    (r : JobRecord) (p : ℤ) (t : Table)
    → All (λ x. ltb_ℤ x.priority p ≡ true) t
    → first_of_two (set_priority p r) (best t) ≡ set_priority p r
unfolding row_le
first_of_two_dominant r p t h = elim (Option-cases (best t)) [
  | inl empty ↦ rw empty
  | inr (y, e) ↦
      let below : ltb_ℤ y.priority p ≡ true =
        rw e at (best-All (λ x. ltb_ℤ x.priority p ≡ true) t h) in
      rw e (rw below)
]

pub row_le_beaten :
    (x r : JobRecord) (p : ℤ) → ltb_ℤ x.priority p ≡ true → row_le x (set_priority p r) ≡ false
unfolding row_le
row_le_beaten x r p h = ground arith

-- A queued row that is given a priority above those of all other queued rows comes first.
best_dominant :
    (j : Text) (p : ℤ) (t : Table) (r : JobRecord)
    → IsKeyed t
    → get j t ≡ some r
    → is_queued r ≡ true
    → All (λ x. ltb_ℤ x.priority p ≡ true) (filter (λ x. is_queued x && not (has_id j x)) t)
    → best (filter is_queued (update_where j (set_priority p) t)) ≡ some (set_priority p r)
unfolding get update_where best
best_dominant j p [] r k g q h = cc
best_dominant j p (x ∷ t) r k g q h = ground (
  arith,
  best_dominant j p t r k.1,
  update_where_absent j (set_priority p) t,
  others_absent j t,
  text_eq_iff x.id j,
  first_of_two_dominant x p (filter is_queued t),
  row_le_beaten x r p,
)

-- `bump` succeeds exactly for a queued job.
pub bump_iff :
    (j : Text) (t : Table)
    → ((bump j t).0 ≡ true) ↔ ((r : JobRecord) × (get j t ≡ some r) × (is_queued r ≡ true))
unfolding bump
bump_iff j t = (
  λ h. elim (Option-cases (get j t)) [
    | inl absent ↦ ground arith
    | inr (r, e) ↦ (r, e, ground arith)
  ],
  λ (r, g, q). ground arith,
)

-- On a table with distinct ids, the bump of a queued job makes it the next one to run, ahead of every
-- other queued job, and changes nothing but its priority.
pub bump_front :
    (j : Text) (t : Table) (r : JobRecord)
    → IsKeyed t
    → get j t ≡ some r
    → is_queued r ≡ true
    → let p = above (max_queued_priority (some j) t) in
      (bump j t ≡ (true, update_where j (set_priority p) t))
      × (next_queued (bump j t).1 ≡ some (set_priority p r))
unfolding bump next_queued
bump_front j t r k g q =
    let p = above (max_queued_priority (some j) t) in
    let bumped : (bump j t ≡ (true, update_where j (set_priority p) t)) = ground arith in
    (
      bumped,
      rw bumped (
          rw (head?-sort (filter is_queued (update_where j (set_priority p) t))) (
            best_dominant j p t r k g q (
              unfold max_queued_priority in
              above-max_priority (filter (λ x. is_queued x && not (has_id j x)) t)))),
    )

best-append :
    (t : Table) (j : JobRecord)
    → All (λ x. ltb_ℤ x.priority j.priority ≡ true) t
    → best (t ++ j ∷ []) ≡ some j
unfolding best
best-append [] j h = refl
best-append (x ∷ t) j h = rw (best-append t j h.1) (rw (row_le_beaten x j j.priority h.0))

none-excluded : (λ (r : JobRecord). is_queued r && not (excluded none r)) ≡ is_queued
none-excluded = fun_ext (λ r. ground arith)

-- A new queued row with a priority above those of all queued rows is the next one to run.
pub next_queued-append :
    (t : Table) (j : JobRecord)
    → is_queued j ≡ true
    → j.priority ≡ above (max_queued_priority none t)
    → next_queued (t ++ j ∷ []) ≡ some j
unfolding next_queued max_queued_priority
next_queued-append t j q p =
    let highest : All (λ x. ltb_ℤ x.priority j.priority ≡ true) (filter is_queued t) =
      rw p (rw none-excluded (above-max_priority (filter is_queued t))) in
    head?-sort (filter is_queued (t ++ j ∷ []))
    ∙ rw (filter-append is_queued t (j ∷ [])) (rw q (best-append (filter is_queued t) j highest))
