-- ===== src/Server/Reconcile.antt =====
-- `_reconcile_on_startup`: what a daemon that died left behind is failed, and nothing else changes.
use mathlib.Core.Option
use gpuq.Common.{
  ◌≡◌, refl, Bool, true, not, ◌||◌, [], ◌∷◌, none, some, All, All-map, arith, filter, any,
  if◌then◌else◌,
}
use gpuq.Common.Text.{Text, text_eq_iff, text_eq_refl}
use gpuq.State.{state_eq, JobRecord, Table}
use gpuq.State.Jobs.{has_id, get, is_active, update_where, update_state, apply_change, running_jobs}
use gpuq.State.Keys.{IsKeyed, update_state-IsKeyed, get-update_where, any-has_id, get-filter}
use gpuq.Server.{lost_change, fail_all, reconcile_on_startup}
use gpuq.Server.Owned.{IsOwned, All-update_where}

fail_all-IsKeyed :
    (clock : Text → Text) (rows t : Table) → IsKeyed t → IsKeyed (fail_all clock rows t)
unfolding fail_all
fail_all-IsKeyed clock [] t k = k
fail_all-IsKeyed clock (x ∷ rows) t k =
    fail_all-IsKeyed clock rows _ (update_state-IsKeyed x.id (lost_change (clock x.id)) t k)

pub reconcile-IsKeyed :
    (clock : Text → Text) (t : Table) → IsKeyed t → IsKeyed (reconcile_on_startup clock t)
unfolding reconcile_on_startup
reconcile-IsKeyed clock t k = fail_all-IsKeyed clock (running_jobs t) t k

-- An active row's id is among the rows still to be failed.
abbrev is_due : Table → JobRecord → Bool
is_due rows r = not (is_active r) || any (has_id r.id) rows

fail_all-IsOwned :
    (clock : Text → Text) (rows t : Table)
    → All (λ r. is_due rows r ≡ true) t
    → IsOwned none (fail_all clock rows t)
unfolding fail_all update_state
fail_all-IsOwned clock [] t k = All-map t (λ r m. ground arith) k
fail_all-IsOwned clock (x ∷ rows) t k = fail_all-IsOwned clock rows _ (
    All-update_where (is_due (x ∷ rows)) (is_due rows) x.id
      (apply_change (lost_change (clock x.id))) t (λ r e m. unfold state_eq in refl)
      (λ r e m. ground (arith, text_eq_iff r.id x.id, text_eq_iff x.id r.id)) k)

running-is_due : (t : Table) → All (λ r. is_due (filter is_active t) r ≡ true) t
running-is_due [] = tt
running-is_due (x ∷ t) =
    (ground (arith, text_eq_refl x.id), All-map t (λ r m. ground arith) (running-is_due t))

-- After the start no job is `starting` or `running`.
pub reconcile-IsOwned :
    (clock : Text → Text) (t : Table) → IsOwned none (reconcile_on_startup clock t)
unfolding reconcile_on_startup running_jobs
reconcile-IsOwned clock t = fail_all-IsOwned clock (filter is_active t) t (running-is_due t)

-- What the start makes of a row.
abbrev pub reconciled : Text → JobRecord → JobRecord
reconciled now r = if is_active r then apply_change (lost_change now) r else r

get-fail_all :
    (clock : Text → Text) (j : Text) (rows t : Table)
    → get j (fail_all clock rows t) ≡ (
        if any (has_id j) rows
        then Option.map (apply_change (lost_change (clock j))) (get j t)
        else get j t)
unfolding fail_all update_state
get-fail_all clock j [] t = refl
get-fail_all clock j (x ∷ rows) t =
    let c = apply_change (lost_change (clock x.id)) in
    ground (
      arith,
      get-fail_all clock j rows (update_where x.id c t),
      get-update_where j x.id c t (λ r. refl),
      text_eq_iff j x.id,
      text_eq_iff x.id j,
    )

-- On a table with distinct ids, the start fails exactly the jobs that were `starting` or `running`, with exit code -1 and a
-- finishing stamp, and leaves every other row as it was.
pub reconcile_lem :
    (clock : Text → Text) (t : Table) (j : Text) (r : JobRecord)
    → IsKeyed t
    → get j t ≡ some r
    → get j (reconcile_on_startup clock t) ≡ some (reconciled (clock j) r)
unfolding reconcile_on_startup running_jobs
reconcile_lem clock t j r k g = ground (
  arith,
  get-fail_all clock j (filter is_active t) t,
  any-has_id j (filter is_active t),
  get-filter j is_active t {r = r} k g,
)
