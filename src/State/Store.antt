-- ===== src/State/Store.antt =====
-- The table `jobs` of src/gpuq/state.py as a map from ids to rows: a table up to the order of its
-- rows, and what the methods of JobRepo that go by an id make of it.
pub mod Order
use mathlib.Core.Option
use mathlib.Core.Quot
use mathlib.Core.Quot.{Quot, Quot-set}
use gpuq.Common.{
  ◌≡◌, refl, sym, ap, ◌∙◌, false, [], ◌∷◌, ◌++◌, Option, none, some, is_some, ◌>>=◌, Option-cases,
  inl, inr, if◌then◌else◌, arith,
}
use gpuq.Common.Text.{Text, text_eq, text_eq_iff}
use gpuq.State.{JobRecord, Table}
use gpuq.State.Jobs.{get, insert_job, delete, update_state, Change, apply_change}
use gpuq.State.Keys.{get-update_where, get-delete, get-append}

-- Reads by an id find the same rows.
abbrev pub SameRows : Table → Table → Type 0
SameRows t u = (jid : Text) → get jid t ≡ get jid u

abbrev pub Store : Type 0
Store = Quot SameRows

rows_set : IsSet (Option JobRecord)
rows_set = hlevel

pub lookup : Text → Store → Option JobRecord
lookup jid = Quot.lift rows_set (get jid) (λ t u h. h jid)

update_state-SameRows :
    (jid : Text) (c : Change) (t u : Table)
    → SameRows t u
    → SameRows (update_state jid c t) (update_state jid c u)
unfolding update_state
update_state-SameRows jid c t u h j = ground (
  arith,
  h j,
  get-update_where j jid (apply_change c) t (λ r. refl),
  get-update_where j jid (apply_change c) u (λ r. refl),
)

pub store_update : Text → Change → Store → Store
store_update jid c =
    Quot.lift Quot-set (λ t. Quot.mk (update_state jid c t))
      (λ t u h. Quot.sound (update_state-SameRows jid c t u h))

delete-SameRows :
    (jid : Text) (t u : Table) → SameRows t u → SameRows (delete jid t).1 (delete jid u).1
delete-SameRows jid t u h j = ground (arith, h j, get-delete j jid t, get-delete j jid u)

pub store_delete : Text → Store → Store
store_delete jid =
    Quot.lift Quot-set (λ t. Quot.mk (delete jid t).1)
      (λ t u h. Quot.sound (delete-SameRows jid t u h))

append-SameRows :
    (r : JobRecord) (t u : Table) → SameRows t u → SameRows (t ++ r ∷ []) (u ++ r ∷ [])
append-SameRows r t u h j = ground (arith, h j, get-append j t (r ∷ []), get-append j u (r ∷ []))

abbrev pub inserted : JobRecord → Table → Option Store
inserted r t = Option.map Quot.mk (insert_job r t)

pub insert_job-SameRows : (r : JobRecord) (t u : Table) → SameRows t u → inserted r t ≡ inserted r u
unfolding insert_job
insert_job-SameRows r t u h = elim (Option-cases (get r.id t)) [
  | inl new ↦
      let also : get r.id u ≡ none = sym (h r.id) ∙ new in
      rw (new, insert_job) (rw (also, insert_job) (ap some (Quot.sound (append-SameRows r t u h))))
  | inr (old, e) ↦
      let also : get r.id u ≡ some old = sym (h r.id) ∙ e in
      rw (e, insert_job) (rw (also, insert_job) refl)
]

-- `none`: an IntegrityError.
unfoldable pub store_insert : JobRecord → Store → Option Store
store_insert r = Quot.lift (Option.is_set Quot-set) (inserted r) (insert_job-SameRows r)

-- Two stores with the same rows under every id are one.
store_ext : (s s' : Store) → ((jid : Text) → lookup jid s ≡ lookup jid s') → s ≡ s'
unfolding lookup
store_ext =
    Quot.ind (λ s. hlevel Quot-set) (λ t. Quot.ind (λ s'. hlevel Quot-set) (λ u h. Quot.sound h))

-- Reads after each of the operations.
lookup-store_update :
    (j jid : Text) (c : Change) (s : Store)
    → lookup j (store_update jid c s)
      ≡ (if text_eq j jid then Option.map (apply_change c) (lookup j s) else lookup j s)
unfolding lookup store_update update_state
lookup-store_update j jid c =
    Quot.ind (λ s. rows_set _ _) (λ t. get-update_where j jid (apply_change c) t (λ r. refl))

lookup-store_delete :
    (j jid : Text) (s : Store)
    → lookup j (store_delete jid s) ≡ (if text_eq j jid then none else lookup j s)
unfolding lookup store_delete
lookup-store_delete j jid = Quot.ind (λ s. rows_set _ _) (λ t. get-delete j jid t)

pub get-inserted :
    (j : Text) (r : JobRecord) (t : Table)
    → get r.id t ≡ none
    → get j (t ++ r ∷ []) ≡ (if text_eq j r.id then some r else get j t)
unfolding get
get-inserted j r t new =
    ground (
      arith,
      get-append j t (r ∷ []),
      text_eq_iff r.id j,
      text_eq_iff j r.id,
      ap (λ k. get k t),
      new,
    )

lookup-store_insert :
    (j : Text) (r : JobRecord) (s : Store)
    → Option.map (lookup j) (store_insert r s) ≡ (
        if is_some (lookup r.id s)
        then none
        else some (if text_eq j r.id then some r else lookup j s))
unfolding lookup store_insert insert_job
lookup-store_insert j r =
    Quot.ind (λ s. Option.is_set rows_set _ _)
      (λ t. elim (Option-cases (get r.id t)) [
        | inl new ↦ rw (new, insert_job) (ap some (get-inserted j r t new))
        | inr (old, e) ↦ rw (e, insert_job) refl
      ])

-- On tables up to the order of their rows, where a store is determined by its lookups: UPDATE changes
-- the row with the id and no other, DELETE removes it and no other, and INSERT of a row adds it
-- under its id, where there is none, and is refused where there is one.
pub store_lem :
    (j jid : Text) (c : Change) (r : JobRecord) (s : Store)
    → (lookup j (store_update jid c s)
        ≡ (if text_eq j jid then Option.map (apply_change c) (lookup j s) else lookup j s))
      × (lookup j (store_delete jid s) ≡ (if text_eq j jid then none else lookup j s))
      × (Option.map (lookup j) (store_insert r s) ≡ (
          if is_some (lookup r.id s)
          then none
          else some (if text_eq j r.id then some r else lookup j s)))
store_lem j jid c r s =
    (lookup-store_update j jid c s, lookup-store_delete j jid s, lookup-store_insert j r s)
