-- ===== src/Queue/Fifo.antt =====
-- The methods of `Queue` refine a sorted list: `enqueue` puts a job behind its equals, `pop` takes
-- the head, `cancel` takes one job out, and `position` counts from the head.
use gpuq.Common.{
  ◌⊎◌, ℕ, zero, suc, ◌+◌, ◌≡◌, refl, ap, ◌∙◌, Bool, true, false, List, [], ◌∷◌, Option,
  Option-cases, none, some, arith, head?, tail, Bool-cases, inl, inr, take, get_elem?, length,
}
use gpuq.Common.Text.{Text, text_eq_sound}
use gpuq.Common.Sort.{insert_after}
use gpuq.State.{queued, state_eq, JobRecord, Table}
use gpuq.State.Jobs.{
  has_id, get, insert_job, row_le, is_queued, update_state, next_queued, Change, apply_change,
}
use gpuq.State.Keys.{IsKeyed, update_state-IsKeyed}
use gpuq.Queue.{Queue, enqueue, pop, start_change, index_from, position, cancel, cancel_change}
use gpuq.Queue.View.{
  view, without, next_queued-view, find-view, view-append, view-update_where, view-Distinct,
  without_first,
}

-- A successful `enqueue` of a queued job puts it into the abstract queue behind the jobs that may
-- precede it by priority and submission stamp, and before all others.
pub enqueue-view :
    (j : JobRecord) (q q' : Queue)
    → is_queued j ≡ true
    → enqueue j q ≡ some q'
    → view q'.jobs ≡ insert_after row_le j (view q.jobs)
unfolding enqueue insert_job
enqueue-view j q q' h e = ground (arith, view-append q.jobs j)

pub view-update_state :
    (jid : Text) (c : Change) (t : Table)
    → state_eq c.state queued ≡ false
    → view (update_state jid c t) ≡ without jid (view t)
unfolding update_state
view-update_state jid c t h = view-update_where jid (apply_change c) t (λ r. h)

pub pop_empty :
    (now : Text) (q : Queue) → view q.jobs ≡ [] → pop now q ≡ (none, record q { notify = false })
unfolding pop
pop_empty now q e = let none_next = next_queued-view q.jobs ∙ ap head? e in rw (none_next, pop)

pub pop_first :
    (now : Text) (q : Queue) (r : JobRecord) (rest : Table)
    → view q.jobs ≡ r ∷ rest
    → pop now q ≡ (some r, record q { jobs = update_state r.id (start_change now) q.jobs })
unfolding pop
pop_first now q r rest e = let next = next_queued-view q.jobs ∙ ap head? e in rw (next, pop)

pop-view_of :
    (now : Text) (q : Queue) (l : Table)
    → IsKeyed q.jobs
    → view q.jobs ≡ l
    → ((pop now q).0 ≡ head? l) × (view (pop now q).1.jobs ≡ tail l)
unfolding state_eq
pop-view_of now q [] k e = rw (pop_empty now q e) (refl, e)
pop-view_of now q (r ∷ rest) k e = rw (pop_first now q r rest e) (
  refl,
  view-update_state r.id (start_change now) q.jobs refl
      ∙ (ap (without r.id) e ∙ without_first r rest (rw e at (view-Distinct q.jobs k))),
)

-- On a keyed table, `pop` returns the first job of the abstract queue, and the rest stays queued in
-- its order.
pub pop-view :
    (now : Text) (q : Queue)
    → IsKeyed q.jobs
    → ((pop now q).0 ≡ head? (view q.jobs)) × (view (pop now q).1.jobs ≡ tail (view q.jobs))
pop-view now q k = pop-view_of now q (view q.jobs) k refl

pub pop-IsKeyed : (now : Text) (q : Queue) → IsKeyed q.jobs → IsKeyed (pop now q).1.jobs
unfolding pop
pop-IsKeyed now q k = elim (Option-cases (next_queued q.jobs)) [
  | inl empty ↦ rw (empty, pop) k
  | inr (r, e) ↦ rw (e, pop) (update_state-IsKeyed r.id (start_change now) q.jobs k)
]

-- One `pop` after another, at the given clock readings: the jobs that come out.
abbrev pub collect : Option JobRecord → Table → Table
collect none out = out
collect (some r) out = r ∷ out

unfoldable pub pops : List Text → Queue → Table
pops [] q = []
pops (now ∷ nows) q = let (job, q') = pop now q in collect job (pops nows q')

collect-take : (n : ℕ) (l : Table) → collect (head? l) (take n (tail l)) ≡ take (suc n) l
collect-take zero [] = refl
collect-take (suc n) [] = refl
collect-take n (x ∷ l) = refl

-- On a table with distinct ids, the jobs that successive pops return are those of the abstract queue,
-- from its head and in its order: as many as there were pops, or all of them if there are fewer.
pub pops-view :
    (nows : List Text) (q : Queue) → IsKeyed q.jobs → pops nows q ≡ take (length nows) (view q.jobs)
unfolding pops
pops-view [] q k = refl
pops-view (now ∷ nows) q k =
    let (first, rest) = pop-view now q k in
    rw (pops-view nows (pop now q).1 (pop-IsKeyed now q k))
      (rw first (rw rest (collect-take (length nows) (view q.jobs))))

-- A job is in the table, and queued.
abbrev pub waits : Text → Table → Bool
waits jid t = elim (get jid t) [ none ↦ false | some r ↦ is_queued r ]

-- `cancel` of a job that is queued answers true, and that job leaves the abstract queue and no other
-- does; of any other job, it answers false and changes nothing.
pub cancel-view :
    (jid now : Text) (q : Queue)
    → ((waits jid q.jobs ≡ true)
        × ((cancel jid now q).0 ≡ true)
        × (view (cancel jid now q).1.jobs ≡ without jid (view q.jobs)))
      ⊎ ((waits jid q.jobs ≡ false) × (cancel jid now q ≡ (false, q)))
unfolding cancel state_eq
cancel-view jid now q =
    let gone = view-update_state jid (cancel_change now) q.jobs refl in
    elim (Option-cases (get jid q.jobs)) [
      | inl absent ↦ rw (absent, cancel, waits) (inr (refl, refl))
      | inr (r, e) ↦
          rw (e, cancel, waits)
            (elim (Bool-cases (is_queued r)) [
              | inl waiting ↦ rw waiting (inl (refl, refl, gone))
              | inr other ↦ rw other (inr (refl, refl))
            ])
    ]

-- Counting from `n`, the row with the id stands at its index.
index_from-elem :
    (n : ℕ) (jid : Text) (rows : Table) (i : ℕ)
    → index_from n jid rows ≡ some i
    → (k : ℕ) × (r : JobRecord) × (i ≡ n + k) × (get_elem? rows k ≡ some r) × (r.id ≡ jid)
unfolding index_from
index_from-elem n jid [] i e = cc
index_from-elem n jid (x ∷ rows) i e = elim (Bool-cases (has_id jid x)) [
  | inl here ↦ (0, x, ground arith, refl, text_eq_sound x.id jid here)
  | inr further ↦
      let (k, r, at_k, elem, named) = index_from-elem (n + 1) jid rows i (ground arith) in
      (suc k, r, omega arith, elem, named)
]

-- A position of `p` means that the job is the `p`-th in the abstract queue, counted from one.
pub position-view :
    (jid : Text) (q : Queue) (p : ℕ)
    → position jid q ≡ some p
    → (k : ℕ) × (r : JobRecord) × (p ≡ suc k) × (get_elem? (view q.jobs) k ≡ some r) × (r.id ≡ jid)
unfolding position
position-view jid q p e =
    let (k, r, at_k, elem, named) =
      index_from-elem 1 jid (view q.jobs) p (rw (find-view q.jobs) at e) in
    (k, r, omega arith, elem, named)
