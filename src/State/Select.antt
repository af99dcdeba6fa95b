-- ===== src/State/Select.antt =====
-- Looking for a row among selected and sorted rows.
use gpuq.Common.{◌≡◌, refl, Bool, false, ◌&&◌, ◌||◌, [], ◌∷◌, none, some, arith, filter, any}
use gpuq.Common.Text.{Text, text_eq_iff}
use gpuq.Common.Sort.{sort, insert}
use gpuq.State.{JobRecord, Table}
use gpuq.State.Jobs.{has_id, get, row_le}
use gpuq.State.Keys.{IsKeyed}

any-insert :
    (p : JobRecord → Bool) (x : JobRecord) (t : Table)
    → any p (insert row_le x t) ≡ (p x || any p t)
unfolding insert
any-insert p x [] = refl
any-insert p x (y ∷ t) = ground (arith, any-insert p x t)

pub any-sort : (p : JobRecord → Bool) (t : Table) → any p (sort row_le t) ≡ any p t
unfolding sort
any-sort p [] = refl
any-sort p (x ∷ t) = ground (arith, any-insert p x (sort row_le t), any-sort p t)

any_absent :
    (j : Text) (m q : JobRecord → Bool) (t : Table)
    → get j t ≡ none
    → any (λ x. has_id j x && q x) (filter m t) ≡ false
unfolding get
any_absent j m q [] h = refl
any_absent j m q (x ∷ t) h = ground (arith, any_absent j m q t)

-- In a keyed table the one row with an id decides whether a selected row with it passes a test.
pub any-filter_keyed :
    (j : Text) (m q : JobRecord → Bool) (t : Table) (r : JobRecord)
    → IsKeyed t
    → get j t ≡ some r
    → any (λ x. has_id j x && q x) (filter m t) ≡ (m r && q r)
unfolding get
any-filter_keyed j m q [] r k g = cc
any-filter_keyed j m q (x ∷ t) r k g =
    ground (arith, any-filter_keyed j m q t r k.1, any_absent j m q t, text_eq_iff x.id j)

pub any-filter : (m p : JobRecord → Bool) (t : Table) → any p (filter m t) ≡ any (λ x. m x && p x) t
any-filter m p [] = refl
any-filter m p (x ∷ t) = ground (arith, any-filter m p t)
