-- ===== src/State/Order.antt =====
-- ORDER BY priority DESC, submitted_at ASC: what `find` returns.
use mathlib.Core.List.{Perm}
use gpuq.Common.{
  ◌≡◌, refl, ◌⊎◌, true, [], ◌∷◌, filter, arith, if◌then◌else◌, Option, head?, some, none,
}
use gpuq.Common.Text.{text_le_total, text_le_trans}
use gpuq.Common.Sort.{sort, insert, IsSorted}
use gpuq.Common.Sort.Laws.{sort-perm, sort-IsSorted}
use gpuq.State.{JobRecord, Table}
use gpuq.State.Jobs.{row_le, matches, find, Filters}

pub row_le_total : (a b : JobRecord) → (row_le a b ≡ true) ⊎ (row_le b a ≡ true)
unfolding row_le
row_le_total a b = ground (arith, text_le_total a.submitted_at b.submitted_at)

pub row_le_trans : (a b c : JobRecord) → row_le a b ≡ true → row_le b c ≡ true → row_le a c ≡ true
unfolding row_le
row_le_trans a b c = ground (arith, text_le_trans a.submitted_at b.submitted_at c.submitted_at)

-- `find` returns exactly the rows that match its filters, each as often as in the table, by falling priority and, within
-- a priority, by rising submission stamp.
pub find_lem :
    (f : Filters) (t : Table) → Perm (find f t) (filter (matches f) t) × IsSorted row_le (find f t)
unfolding find
find_lem f t = (
  sort-perm row_le (filter (matches f) t),
  sort-IsSorted row_le row_le_total row_le_trans (filter (matches f) t),
)

-- The row that comes first, by one pass over the table.
abbrev pub first_of_two : JobRecord → Option JobRecord → JobRecord
first_of_two x none = x
first_of_two x (some y) = if row_le x y then x else y

unfoldable pub best : Table → Option JobRecord
best [] = none
best (x ∷ t) = some (first_of_two x (best t))

head?-insert :
    (x : JobRecord) (l : Table) → head? (insert row_le x l) ≡ some (first_of_two x (head? l))
unfolding insert
head?-insert x [] = refl
head?-insert x (y ∷ l) = ground arith

pub head?-sort : (t : Table) → head? (sort row_le t) ≡ best t
unfolding sort best
head?-sort [] = refl
head?-sort (x ∷ t) = rw (head?-insert x (sort row_le t)) (rw (head?-sort t))
