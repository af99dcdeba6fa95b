-- ===== src/State/Over.antt =====
-- A job that has ended stays ended, under each change that src/gpuq/daemon/server.py makes to other
-- rows, and under each that ends a job.
use gpuq.Common.{
  ◌≡◌, ap, sym, ◌∙◌, Bool, true, false, not, ◌||◌, [], ◌∷◌, ◌++◌, none, some, All, arith, filter,
  Bool-cases, Option-cases, inl, inr, head?,
}
use gpuq.Common.Text.{Text, text_eq, text_eq_iff, text_eq_sound}
use gpuq.Common.Sort.{sort}
use gpuq.Common.Sort.Laws.{All-sort}
use gpuq.State.{JobState, state_eq, is_terminal, JobRecord, Table}
use gpuq.State.Jobs.{
  get, is_queued, insert_job, delete, update_state, Change, apply_change, bump, set_priority, above,
  max_queued_priority, next_queued, row_le,
}
use gpuq.State.Keys.{IsKeyed}
use gpuq.Queue.View.{All-filter}
use gpuq.Queue.Fifo.{waits}
use gpuq.Server.Owned.{All-update_where}

-- A row with the id is in a terminal state.
abbrev pub over_by : Text → JobRecord → Bool
over_by j r = not (text_eq r.id j) || is_terminal r.state

abbrev pub IsOver : Text → Table → Type 0
IsOver j t = All (λ r. over_by j r ≡ true) t

absent-IsOver : (j : Text) (t : Table) → get j t ≡ none → IsOver j t
unfolding get
absent-IsOver j [] h = tt
absent-IsOver j (x ∷ t) h = ground (arith, h, absent-IsOver j t)

pub get-IsOver :
    (j : Text) (t : Table) (r : JobRecord)
    → IsKeyed t
    → get j t ≡ some r
    → is_terminal r.state ≡ true
    → IsOver j t
unfolding get
get-IsOver j [] r k g over = tt
get-IsOver j (x ∷ t) r k g over = elim (Bool-cases (text_eq x.id j)) [
  | inr other ↦ (ground (arith, other), get-IsOver j t r k.1 (rw other at g) over)
  | inl this ↦
      let same : x ≡ r = cc (rw this at g) in
      let ended : is_terminal x.state ≡ true =
        ap (λ (y : JobRecord). is_terminal y.state) same ∙ over in
      let absent : get j t ≡ none = ap (λ k. get k t) (sym (text_eq_sound x.id j this)) ∙ k.0 in
      (ground (arith, ended), absent-IsOver j t absent)
]

pub append-IsOver :
    (j : Text) (t : Table) (r : JobRecord)
    → over_by j r ≡ true
    → IsOver j t
    → IsOver j (t ++ r ∷ [])
append-IsOver j [] r h v = (h, tt)
append-IsOver j (x ∷ t) r h v = (v.0, append-IsOver j t r h v.1)

pub insert_job-IsOver :
    (j : Text) (r : JobRecord) (t u : Table)
    → text_eq r.id j ≡ false
    → insert_job r t ≡ some u
    → IsOver j t
    → IsOver j u
unfolding insert_job
insert_job-IsOver j r t u h e v =
    let new : over_by j r ≡ true = ground (arith, h) in ground (arith, append-IsOver j t r new)

-- An update of another row.
pub update_other-IsOver :
    (j jid : Text) (c : Change) (t : Table)
    → text_eq jid j ≡ false
    → IsOver j t
    → IsOver j (update_state jid c t)
unfolding update_state
update_other-IsOver j jid c t h v =
    All-update_where (over_by j) (over_by j) jid (apply_change c) t
      (λ r e m. ground (arith, text_eq_iff r.id jid, text_eq_iff r.id j, text_eq_iff jid j, h))
      (λ r e m. m) v

-- An update that ends a job.
pub update_end-IsOver :
    (j jid : Text) (c : Change) (t : Table)
    → is_terminal c.state ≡ true
    → IsOver j t
    → IsOver j (update_state jid c t)
unfolding update_state
update_end-IsOver j jid c t h v =
    All-update_where (over_by j) (over_by j) jid (apply_change c) t (λ r e m. ground (arith, h))
      (λ r e m. m) v

pub bump-IsOver : (j jid : Text) (t : Table) → IsOver j t → IsOver j (bump jid t).1
unfolding bump
bump-IsOver j jid t v =
    let p = above (max_queued_priority (some jid) t) in
    let kept =
      All-update_where (over_by j) (over_by j) jid (set_priority p) t (λ r e m. m) (λ r e m. m) v in
    elim (Option-cases (get jid t)) [
      | inl absent ↦ rw (absent, bump) v
      | inr (r, e) ↦ elim (Bool-cases (is_queued r)) [
        | inl waiting ↦ rw (e, bump) (rw waiting kept)
        | inr other ↦ rw (e, bump) (rw other v)
      ]
    ]

pub delete-IsOver : (j jid : Text) (t : Table) → IsOver j t → IsOver j (delete jid t).1
unfolding delete
delete-IsOver j jid t v = All-filter (λ r. over_by j r ≡ true) _ t v

queued-unended : (s : JobState) → state_eq s JobState.queued ≡ true → is_terminal s ≡ false
unfolding state_eq
queued-unended s = ground arith

-- A queued row is another one.
queued_other :
    (j : Text) (r : JobRecord) → is_queued r ≡ true → over_by j r ≡ true → text_eq r.id j ≡ false
queued_other j r w o = ground (arith, queued-unended r.state w, o)

pub waits_other :
    (j jid : Text) (t : Table) → waits jid t ≡ true → IsOver j t → text_eq jid j ≡ false
unfolding get
waits_other j jid [] h v = cc
waits_other j jid (x ∷ t) h v = ground (
  arith,
  h,
  v.0,
  queued_other j x,
  waits_other j jid t,
  text_eq_iff x.id jid,
  text_eq_iff x.id j,
  text_eq_iff jid j,
)

queued-others :
    (j : Text) (t : Table) → IsOver j t → All (λ r. text_eq r.id j ≡ false) (filter is_queued t)
queued-others j [] v = tt
queued-others j (x ∷ t) v = elim (Bool-cases (is_queued x)) [
  | inl waiting ↦ rw waiting (queued_other j x waiting v.0, queued-others j t v.1)
  | inr other ↦ rw other (queued-others j t v.1)
]

All-head :
    (P : JobRecord → Bool) (t : Table) (r : JobRecord)
    → All (λ x. P x ≡ false) t
    → head? t ≡ some r
    → P r ≡ false
All-head P [] r all h = cc
All-head P (x ∷ t) r all h = let same : x ≡ r = cc in sym (ap P same) ∙ all.0

pub next_queued_other :
    (j : Text) (t : Table) (r : JobRecord)
    → next_queued t ≡ some r
    → IsOver j t
    → text_eq r.id j ≡ false
unfolding next_queued
next_queued_other j t r h v =
    All-head (λ x. text_eq x.id j) (sort row_le (filter is_queued t)) r
      (All-sort row_le (λ x. text_eq x.id j ≡ false) (filter is_queued t) (queued-others j t v)) h
