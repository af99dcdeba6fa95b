-- ===== src/Queue/View.antt =====
-- The abstract queue: the queued rows in the order in which they will run.
use mathlib.Core.Path.{fun_ext}
use gpuq.Common.{
  ◌≡◌, refl, sym, Bool, true, false, not, [], ◌∷◌, ◌++◌, filter, none, some, arith, All, head?,
  Bool-cases, inl, inr, filter-append,
}
use gpuq.Common.Text.{Text, text_eq_iff, text_eq_refl}
use gpuq.Common.Sort.{sort, insert, insert_after}
use gpuq.Common.Sort.Laws.{sort-append, filter-sort, All-sort, All-insert}
use gpuq.State.{queued, JobRecord, Table}
use gpuq.State.Jobs.{
  has_id, get, row_le, is_queued, update_where, next_queued, find, matches, no_filters,
}
use gpuq.State.Order.{row_le_total, row_le_trans}
use gpuq.State.Keys.{IsKeyed}

unfoldable pub view : Table → Table
view t = sort row_le (filter is_queued t)

-- The rows without those of one id.
abbrev pub without : Text → Table → Table
without jid t = filter (λ r. not (has_id jid r)) t

pub next_queued-view : (t : Table) → next_queued t ≡ head? (view t)
unfolding next_queued view
next_queued-view t = refl

-- `find(state="queued")` reads the abstract queue.
matches-is_queued : matches (record no_filters { state = some queued }) ≡ is_queued
unfolding matches
matches-is_queued = fun_ext (λ r. ground arith)

pub find-view : (t : Table) → find (record no_filters { state = some queued }) t ≡ view t
unfolding find view
find-view t = rw matches-is_queued refl

-- A queued row that comes last in the table goes behind those of its priority.
pub view-append :
    (t : Table) (j : JobRecord)
    → is_queued j ≡ true
    → view (t ++ j ∷ []) ≡ insert_after row_le j (view t)
unfolding view
view-append t j q =
    rw (filter-append is_queued t (j ∷ []))
      (rw q (sort-append row_le row_le_total row_le_trans (filter is_queued t) j))

filter-update_where :
    (jid : Text) (f : JobRecord → JobRecord) (t : Table)
    → ((r : JobRecord) → is_queued (f r) ≡ false)
    → filter is_queued (update_where jid f t) ≡ without jid (filter is_queued t)
unfolding update_where
filter-update_where jid f [] h = refl
filter-update_where jid f (x ∷ t) h = ground (arith, h x, filter-update_where jid f t h)

-- A row that leaves the state `queued` leaves the abstract queue, and no other row does.
pub view-update_where :
    (jid : Text) (f : JobRecord → JobRecord) (t : Table)
    → ((r : JobRecord) → is_queued (f r) ≡ false)
    → view (update_where jid f t) ≡ without jid (view t)
unfolding view
view-update_where jid f t h = rw (filter-update_where jid f t h) (
    sym
      (filter-sort row_le row_le_total row_le_trans (λ r. not (has_id jid r)) (filter is_queued t)))

-- No other row of the list has the first row's id, and so on down.
abbrev pub Distinct : Table → Type 0
Distinct [] = Unit
Distinct (r ∷ t) = All (λ x. has_id r.id x ≡ false) t × Distinct t

All-absent : (jid : Text) (t : Table) → get jid t ≡ none → All (λ x. has_id jid x ≡ false) t
unfolding get
All-absent jid [] h = tt
All-absent jid (x ∷ t) h = ground (arith, All-absent jid t)

IsKeyed-Distinct : (t : Table) → IsKeyed t → Distinct t
IsKeyed-Distinct [] h = tt
IsKeyed-Distinct (x ∷ t) h = (All-absent x.id t h.0, IsKeyed-Distinct t h.1)

pub All-filter :
    (P : JobRecord → Type 0) (p : JobRecord → Bool) (t : Table) → All P t → All P (filter p t)
All-filter P p [] h = tt
All-filter P p (x ∷ t) h = ground (arith, All-filter P p t)

filter-Distinct : (p : JobRecord → Bool) (t : Table) → Distinct t → Distinct (filter p t)
filter-Distinct p [] h = tt
filter-Distinct p (x ∷ t) h = ground (arith, All-filter _ p t h.0, filter-Distinct p t h.1)

insert-Distinct :
    (x : JobRecord) (t : Table)
    → All (λ y. has_id x.id y ≡ false) t
    → Distinct t
    → Distinct (insert row_le x t)
unfolding insert
insert-Distinct x [] h d = (tt, tt)
insert-Distinct x (y ∷ t) h d = elim (Bool-cases (row_le x y)) [
  | inl first ↦ rw first (h, d)
  | inr later ↦ rw later (
    All-insert row_le (λ z. has_id y.id z ≡ false) x t
        (ground (arith, text_eq_iff x.id y.id, text_eq_iff y.id x.id)) d.0,
    insert-Distinct x t h.1 d.1,
  )
]

sort-Distinct : (t : Table) → Distinct t → Distinct (sort row_le t)
unfolding sort
sort-Distinct [] d = tt
sort-Distinct (x ∷ t) d =
    insert-Distinct x (sort row_le t) (All-sort row_le _ t d.0) (sort-Distinct t d.1)

pub view-Distinct : (t : Table) → IsKeyed t → Distinct (view t)
unfolding view
view-Distinct t k = sort-Distinct _ (filter-Distinct is_queued t (IsKeyed-Distinct t k))

pub without_absent :
    (jid : Text) (t : Table) → All (λ x. has_id jid x ≡ false) t → without jid t ≡ t
without_absent jid [] h = refl
without_absent jid (x ∷ t) h = ground (arith, without_absent jid t)

-- Taking the first row's id out of a list of distinct ids is taking the tail.
pub without_first : (x : JobRecord) (t : Table) → Distinct (x ∷ t) → without x.id (x ∷ t) ≡ t
without_first x t d = ground (arith, text_eq_refl x.id, without_absent x.id t d.0)
