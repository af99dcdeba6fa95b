-- ===== src/Queue/Wakeup.antt =====
-- The flag `notify` of src/gpuq/daemon/queue.py, for which the scheduler waits.
use gpuq.Common.{
  ◌≡◌, refl, true, not, ◌||◌, sym, ◌∙◌, Bool, false, [], ◌∷◌, none, some, arith, any, filter, head?,
  Option-cases, Bool-cases, inl, inr,
}
use gpuq.Common.Text.{Text}
use gpuq.Common.Sort.{sort}
use gpuq.State.{JobState, state_eq, JobRecord, Table}
use gpuq.State.Jobs.{
  is_queued, get, row_le, update_where, update_state, Change, apply_change, next_queued, delete,
  bump, set_priority, above, max_queued_priority,
}
use gpuq.State.Select.{any-sort}
use gpuq.Queue
use gpuq.Queue.{Queue, enqueue, pop, start_change, cancel_change}

-- No job is queued.
abbrev pub IsIdle : Table → Type 0
IsIdle t = any is_queued t ≡ false

-- The flag is clear only if no job is queued.
abbrev pub IsAwake : Queue → Type 0
IsAwake q = q.notify ≡ false → IsIdle q.jobs

-- The same as a test: the flag is set, or no job is queued.
abbrev pub is_awake : Queue → Bool
is_awake q = q.notify || not (any is_queued q.jobs)

pub is_awake-true : (q : Queue) → IsAwake q → is_awake q ≡ true
is_awake-true q a = elim (Bool-cases q.notify) [
  | inl set ↦ rw set refl
  | inr clear ↦ rw clear (rw (a clear) refl)
]

pub is_awake-IsAwake : (q : Queue) → is_awake q ≡ true → IsAwake q
is_awake-IsAwake q h clear = ground (arith, h, clear)

update_where-IsIdle :
    (jid : Text) (f : JobRecord → JobRecord) (t : Table)
    → ((r : JobRecord) → is_queued r ≡ false → is_queued (f r) ≡ false)
    → IsIdle t
    → IsIdle (update_where jid f t)
unfolding update_where
update_where-IsIdle jid f [] keep h = refl
update_where-IsIdle jid f (x ∷ t) keep h = ground (arith, keep x, update_where-IsIdle jid f t keep)

-- A change to another state than `queued` queues no job.
pub update_state-IsIdle :
    (jid : Text) (c : Change) (t : Table)
    → state_eq c.state JobState.queued ≡ false
    → IsIdle t
    → IsIdle (update_state jid c t)
unfolding update_state
update_state-IsIdle jid c t h idle = update_where-IsIdle jid (apply_change c) t (λ r _. h) idle

filter-IsIdle : (p : JobRecord → Bool) (t : Table) → IsIdle t → IsIdle (filter p t)
filter-IsIdle p [] h = refl
filter-IsIdle p (x ∷ t) h = ground (arith, filter-IsIdle p t)

pub delete-IsIdle : (jid : Text) (t : Table) → IsIdle t → IsIdle (delete jid t).1
unfolding delete
delete-IsIdle jid t h = filter-IsIdle _ t h

pub bump-IsIdle : (jid : Text) (t : Table) → IsIdle t → IsIdle (bump jid t).1
unfolding bump
bump-IsIdle jid t h =
    let p = above (max_queued_priority (some jid) t) in
    ground (arith, update_where-IsIdle jid (set_priority p) t (λ r q. q) h)

any-filter_self : (p : JobRecord → Bool) (t : Table) → any p (filter p t) ≡ any p t
any-filter_self p [] = refl
any-filter_self p (x ∷ t) = ground (arith, any-filter_self p t)

head?-none : (t : Table) → head? t ≡ none → any is_queued t ≡ false
head?-none [] e = refl
head?-none (x ∷ t) e = cc

-- `next_queued` finds nothing only where nothing is queued.
next_queued-none : (t : Table) → next_queued t ≡ none → IsIdle t
unfolding next_queued
next_queued-none t e =
    sym (any-sort is_queued (filter is_queued t) ∙ any-filter_self is_queued t)
    ∙ head?-none (sort row_le (filter is_queued t)) e

pub enqueue-IsAwake : (j : JobRecord) (q q' : Queue) → enqueue j q ≡ some q' → IsAwake q'
unfolding enqueue
enqueue-IsAwake j q q' e clear = ground arith

-- `pop` clears the flag only when it found no queued job.
pub pop-IsAwake : (now : Text) (q : Queue) → IsAwake q → IsAwake (pop now q).1
unfolding pop state_eq
pop-IsAwake now q a = elim (Option-cases (next_queued q.jobs)) [
  | inl nothing ↦ rw (nothing, pop) (λ clear. next_queued-none q.jobs nothing)
  | inr (r, e) ↦
      rw (e, pop) (λ clear. update_state-IsIdle r.id (start_change now) q.jobs refl (a clear))
]

pub cancel-IsAwake : (jid now : Text) (q : Queue) → IsAwake q → IsAwake (Queue.cancel jid now q).1
unfolding Queue.cancel state_eq
cancel-IsAwake jid now q a = elim (Option-cases (get jid q.jobs)) [
  | inl absent ↦ rw (absent, Queue.cancel) a
  | inr (r, e) ↦ elim (Bool-cases (is_queued r)) [
    | inl waiting ↦
        rw (e, Queue.cancel)
          (rw waiting (λ clear. update_state-IsIdle jid (cancel_change now) q.jobs refl (a clear)))
    | inr other ↦ rw (e, Queue.cancel) (rw other a)
  ]
]
