-- ===== src/Server/Owned.antt =====
-- Which job the rows in the states `starting` and `running` belong to, under each change of the
-- table.
use gpuq.Common.{
  Option-cases, ◌≡◌, Bool, true, false, not, ◌||◌, [], ◌∷◌, ◌++◌, Option, none, some, All, arith,
  filter, Bool-cases, inl, inr,
}
use gpuq.Common.Text.{Text, text_eq_iff}
use gpuq.State.{JobState, starting, running, state_eq, JobRecord, Table}
use gpuq.State.Jobs.{
  is_queued, get, has_id, is_active, insert_job, update_where, update_state, Change, apply_change,
  bump, set_priority, above, max_queued_priority,
}
use gpuq.Server.Repair.{is_current}

-- An active row has the owner's id.
abbrev pub owned_by : Option Text → JobRecord → Bool
owned_by o r = not (is_active r) || is_current r.id o

abbrev pub IsOwned : Option Text → Table → Type 0
IsOwned o t = All (λ r. owned_by o r ≡ true) t

pub append-IsOwned :
    (o : Option Text) (t : Table) (j : JobRecord)
    → owned_by o j ≡ true
    → IsOwned o t
    → IsOwned o (t ++ j ∷ [])
append-IsOwned o [] j h k = (h, tt)
append-IsOwned o (x ∷ t) j h k = (k.0, append-IsOwned o t j h k.1)

pub filter-IsOwned :
    (o : Option Text) (p : JobRecord → Bool) (t : Table) → IsOwned o t → IsOwned o (filter p t)
filter-IsOwned o p [] k = tt
filter-IsOwned o p (x ∷ t) k = ground (arith, filter-IsOwned o p t)

-- A property of every row before an update of one row, and another after it.
pub All-update_where :
    (P Q : JobRecord → Bool) (jid : Text) (f : JobRecord → JobRecord) (t : Table)
    → ((r : JobRecord) → has_id jid r ≡ true → P r ≡ true → Q (f r) ≡ true)
    → ((r : JobRecord) → has_id jid r ≡ false → P r ≡ true → Q r ≡ true)
    → All (λ r. P r ≡ true) t
    → All (λ r. Q r ≡ true) (update_where jid f t)
unfolding update_where
All-update_where P Q jid f [] same others k = tt
All-update_where P Q jid f (x ∷ t) same others k = elim (Bool-cases (has_id jid x)) [
  | inl this ↦ rw this (same x this k.0, All-update_where P Q jid f t same others k.1)
  | inr other ↦ rw other (others x other k.0, All-update_where P Q jid f t same others k.1)
]

abbrev pub active_state : JobState → Bool
active_state s = state_eq s starting || state_eq s running

-- A row leaves the active states: the owner stays.
pub deactivate-IsOwned :
    (o : Option Text) (jid : Text) (c : Change) (t : Table)
    → active_state c.state ≡ false
    → IsOwned o t
    → IsOwned o (update_state jid c t)
unfolding update_state
deactivate-IsOwned o jid c t h k =
    All-update_where (owned_by o) (owned_by o) jid (apply_change c) t (λ r e m. ground arith)
      (λ r e m. m) k

-- The owner's row leaves them: no row is active any more.
pub disown-IsOwned :
    (jid : Text) (c : Change) (t : Table)
    → active_state c.state ≡ false
    → IsOwned (some jid) t
    → IsOwned none (update_state jid c t)
unfolding update_state
disown-IsOwned jid c t h k =
    All-update_where (owned_by (some jid)) (owned_by none) jid (apply_change c) t
      (λ r e m. ground arith) (λ r e m. ground (arith, text_eq_iff r.id jid, text_eq_iff jid r.id))
      k

-- A row's update under its own owner.
pub activate-IsOwned :
    (jid : Text) (c : Change) (t : Table)
    → IsOwned (some jid) t
    → IsOwned (some jid) (update_state jid c t)
unfolding update_state
activate-IsOwned jid c t k =
    All-update_where (owned_by (some jid)) (owned_by (some jid)) jid (apply_change c) t
      (λ r e m. ground (arith, text_eq_iff r.id jid, text_eq_iff jid r.id)) (λ r e m. m) k

-- Without active rows, a row that becomes active owns the table.
pub own-IsOwned :
    (jid : Text) (c : Change) (t : Table)
    → IsOwned none t
    → IsOwned (some jid) (update_state jid c t)
unfolding update_state
own-IsOwned jid c t k =
    All-update_where (owned_by none) (owned_by (some jid)) jid (apply_change c) t
      (λ r e m. ground (arith, text_eq_iff r.id jid, text_eq_iff jid r.id)) (λ r e m. ground arith)
      k

pub bump-IsOwned :
    (o : Option Text) (jid : Text) (t : Table) → IsOwned o t → IsOwned o (bump jid t).1
unfolding bump
bump-IsOwned o jid t k =
    let p = above (max_queued_priority (some jid) t) in
    let kept =
      All-update_where (owned_by o) (owned_by o) jid (set_priority p) t (λ r e m. m) (λ r e m. m)
        k in
    elim (Option-cases (get jid t)) [
      | inl absent ↦ rw (absent, bump) k
      | inr (r, e) ↦ elim (Bool-cases (is_queued r)) [
        | inl waiting ↦ rw (e, bump) (rw waiting kept)
        | inr other ↦ rw (e, bump) (rw other k)
      ]
    ]

pub insert_job-IsOwned :
    (o : Option Text) (j : JobRecord) (t u : Table)
    → is_active j ≡ false
    → insert_job j t ≡ some u
    → IsOwned o t
    → IsOwned o u
unfolding insert_job
insert_job-IsOwned o j t u h e k = ground (arith, append-IsOwned o t j)
