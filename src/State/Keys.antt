-- ===== src/State/Keys.antt =====
-- The primary key of the table `jobs`: no two rows share an id, whatever the operations do.
use mathlib.Core.Option
use gpuq.Common.{
  ◌∙◌, ◌≡◌, refl, Bool, not, [], ◌∷◌, ◌++◌, none, some, any, filter, if◌then◌else◌, arith, is_some,
}
use gpuq.Common.Text.{Text, text_eq, text_eq_iff, text_eq_refl}
use gpuq.State.{JobRecord, Table}
use gpuq.State.Jobs.{
  has_id, get, insert_job, delete, update_where, update_state, bump, Change, apply_change,
  set_priority, above, max_queued_priority,
}

-- No row's id occurs again further down.
abbrev pub IsKeyed : Table → Type 0
IsKeyed [] = Unit
IsKeyed (r ∷ t) = (get r.id t ≡ none) × IsKeyed t

-- A change of a row that leaves its id alone.
abbrev pub KeepsId : (JobRecord → JobRecord) → Type 0
KeepsId f = (r : JobRecord) → (f r).id ≡ r.id

pub get-id : (jid : Text) (t : Table) {r : JobRecord} → get jid t ≡ some r → r.id ≡ jid
unfolding get
get-id jid [] h = cc
get-id jid (x ∷ t) {r} h = ground (arith, text_eq_iff x.id jid, get-id jid t {r = r})

pub get-append :
    (jid : Text) (t u : Table)
    → get jid (t ++ u) ≡ (if is_some (get jid t) then get jid t else get jid u)
unfolding get
get-append jid [] u = refl
get-append jid (x ∷ t) u = ground (arith, get-append jid t u)

pub get-append_new :
    (t : Table) (j : JobRecord) → get j.id t ≡ none → get j.id (t ++ j ∷ []) ≡ some j
unfolding get
get-append_new t j h = get-append j.id t (j ∷ []) ∙ rw h (rw (text_eq_refl j.id) refl)

pub append-IsKeyed :
    (t : Table) (j : JobRecord) → IsKeyed t → get j.id t ≡ none → IsKeyed (t ++ j ∷ [])
unfolding get
append-IsKeyed [] j k h = (refl, tt)
append-IsKeyed (x ∷ t) j k h = ground (
  arith,
  get-append x.id t (j ∷ []),
  append-IsKeyed t j k.1,
  text_eq_iff x.id j.id,
  text_eq_iff j.id x.id,
)

pub insert_job-IsKeyed :
    (j : JobRecord) (t : Table) {u : Table} → IsKeyed t → insert_job j t ≡ some u → IsKeyed u
unfolding insert_job
insert_job-IsKeyed j t k h = ground (arith, append-IsKeyed t j k)

-- A read after an update of the row with id `k`.
pub get-update_where :
    (j k : Text) (f : JobRecord → JobRecord) (t : Table)
    → KeepsId f
    → get j (update_where k f t) ≡ (if text_eq j k then Option.map f (get j t) else get j t)
unfolding get update_where
get-update_where j k f [] keep = ground arith
get-update_where j k f (x ∷ t) keep = ground (
  arith,
  keep x,
  text_eq_iff x.id j,
  text_eq_iff x.id k,
  text_eq_iff j k,
  get-update_where j k f t keep,
)

pub update_where-IsKeyed :
    (k : Text) (f : JobRecord → JobRecord) (t : Table)
    → KeepsId f
    → IsKeyed t
    → IsKeyed (update_where k f t)
unfolding update_where
update_where-IsKeyed k f [] keep h = tt
update_where-IsKeyed k f (x ∷ t) keep h =
    ground (arith, keep x, get-update_where x.id k f t keep, update_where-IsKeyed k f t keep h.1)

get-filter-none :
    (j : Text) (p : JobRecord → Bool) (t : Table) → get j t ≡ none → get j (filter p t) ≡ none
unfolding get
get-filter-none j p [] h = refl
get-filter-none j p (x ∷ t) h = ground (arith, get-filter-none j p t)

pub filter-IsKeyed : (p : JobRecord → Bool) (t : Table) → IsKeyed t → IsKeyed (filter p t)
filter-IsKeyed p [] h = tt
filter-IsKeyed p (x ∷ t) h = ground (arith, get-filter-none x.id p t h.0, filter-IsKeyed p t h.1)

-- A read from a selection of rows: `p` decides it, since a keyed table has one row for an id.
pub get-filter :
    (j : Text) (p : JobRecord → Bool) (t : Table) {r : JobRecord}
    → IsKeyed t
    → get j t ≡ some r
    → get j (filter p t) ≡ (if p r then some r else none)
unfolding get
get-filter j p [] k h = cc
get-filter j p (x ∷ t) {r} k h =
    ground (arith, get-filter j p t {r = r} k.1, get-filter-none j p t, text_eq_iff x.id j)

get-filter_other :
    (j k : Text) (t : Table)
    → get j (filter (λ r. not (has_id k r)) t) ≡ (if text_eq j k then none else get j t)
unfolding get
get-filter_other j k [] = ground arith
get-filter_other j k (x ∷ t) =
    ground (arith, text_eq_iff x.id j, text_eq_iff x.id k, text_eq_iff j k, get-filter_other j k t)

pub get-delete :
    (j k : Text) (t : Table) → get j (delete k t).1 ≡ (if text_eq j k then none else get j t)
unfolding delete
get-delete j k t = get-filter_other j k t

pub any-has_id : (k : Text) (t : Table) → any (has_id k) t ≡ is_some (get k t)
unfolding get
any-has_id k [] = refl
any-has_id k (x ∷ t) = ground (arith, any-has_id k t)

pub delete_reports : (k : Text) (t : Table) → (delete k t).0 ≡ is_some (get k t)
unfolding delete
delete_reports k t = any-has_id k t

pub delete-IsKeyed : (k : Text) (t : Table) → IsKeyed t → IsKeyed (delete k t).1
unfolding delete
delete-IsKeyed k t h = filter-IsKeyed _ t h

pub update_state-IsKeyed :
    (k : Text) (c : Change) (t : Table) → IsKeyed t → IsKeyed (update_state k c t)
unfolding update_state
update_state-IsKeyed k c t h = update_where-IsKeyed k (apply_change c) t (λ r. refl) h

pub bump-IsKeyed : (k : Text) (t : Table) → IsKeyed t → IsKeyed (bump k t).1
unfolding bump
bump-IsKeyed k t h =
    let p = above (max_queued_priority (some k) t) in
    ground (arith, update_where-IsKeyed k (set_priority p) t (λ r. refl) h)
