-- ===== src/Server/Drained.antt =====
-- The scheduler of src/gpuq/daemon/server.py, once woken, runs every queued job and then sleeps.
pub mod Round
use mathlib.Core.Option
use gpuq.Common.{
  any, ◌⊎◌, inl, inr, Bool-cases, ◌≡◌, refl, ap, sym, ◌∙◌, true, false, [], ◌∷◌, Option, some,
  arith, All, if◌then◌else◌,
}
use gpuq.Common.Text.{Text, text_eq, text_eq_refl, text_eq_iff}
use gpuq.Common.Sort.Laws.{All-sort}
use gpuq.State.{queued, state_eq, JobRecord, Table}
use gpuq.State.Jobs.{has_id, get, row_le, is_queued, update_state, Change, apply_change}
use gpuq.State.Keys.{IsKeyed, get-update_where}
use gpuq.Queue.{Queue, start_change}
use gpuq.Queue.View.{
  view, without, Distinct, view-Distinct, without_first, without_absent, All-filter,
}
use gpuq.Queue.Fifo.{view-update_state, pop_first, pop_empty}
use gpuq.Server.{Server, jobs}
use gpuq.Server.Run.{
  RunResult, exited, crashed, run_change, final_change, final_state, begin_run, report_evicted,
  open_logs, finish_run,
}
use gpuq.Server.Schedule.{
  waiting, evicting, running, after_pop, may_pop, System, Step, Alone, start_alone, alone,
}
use gpuq.Server.Drained.Round.{
  ran, taken, served, view-get, view-thrice, get-thrice_other, get-thrice_own, jobs-served,
  known-thrice,
}

Alone-trans : {u v w : System} → Alone u v → Alone v w → Alone u w
Alone-trans r start_alone = r
Alone-trans r (alone q st own) = alone (Alone-trans r q) st own

module _ (result : Text → RunResult) (now : Text) where
  -- One job after another, with this list of jobs in the queue.
  record Drained (w v : System) (l : Table) : Type 0 where
    pub steps : Alone w v
    pub top : v.pc ≡ waiting
    pub asleep : v.server.queue.notify ≡ false
    pub empty : view (jobs v.server) ≡ []
    pub ended : All (λ j. get j.id (jobs v.server) ≡ some (ran result now j)) l
    pub others :
        (k : Text) → All (λ j. has_id k j ≡ false) l → get k (jobs v.server) ≡ get k (jobs w.server)

  -- The scheduler may take the next job.
  pub record Ready (w : System) (l : Table) : Type 0 where
    pub pc : w.pc ≡ waiting
    pub may : may_pop w.server ≡ true
    pub queue : view (jobs w.server) ≡ l
    pub distinct : Distinct l
    pub known : All (λ j. get j.id (jobs w.server) ≡ some j) l

  abbrev after_round : JobRecord → System → System
  after_round j w = record w { server = served result now j w.server; pc = waiting }

  round-Alone :
      (w : System) (j : JobRecord) (rest : Table) → Ready w (j ∷ rest) → Alone w (after_round j w)
  round-Alone w j rest h =
      let first = pop_first now w.server.queue j rest h.queue in
      let u : System = record w { server = taken result now j w.server; pc = evicting j.id } in
      let v : System = record w {
        server = begin_run [] now now j.id (taken result now j w.server);
        pc = running j.id;
      } in
      let go = λ (t : Option JobRecord × Queue). record w {
        server = record (w.server) { queue = t.1 };
        pc = after_pop t.0;
      } in
      let popping : Step w u = Step.pop now h.pc h.may (sym (ap go first)) in
      let beginning : Step u v = Step.begin j.id [] now now refl refl in
      alone (alone (alone start_alone popping refl) beginning refl)
        (Step.finish j.id (result j.id) now refl refl) refl

  round-Ready :
      (w : System) (j : JobRecord) (rest : Table)
      → Ready w (j ∷ rest)
      → Ready (after_round j w) rest
  unfolding finish_run begin_run report_evicted open_logs
  round-Ready w j rest h = record {
    pc = refl;
    may = h.may;
    queue = view-thrice result now j rest (jobs w.server) h.queue h.distinct;
    distinct = h.distinct.1;
    known = known-thrice result now j rest (jobs w.server) h.distinct.0 h.known.1;
  }

  sleep : (w : System) → Ready w [] → (v : System) × Drained w v []
  sleep w h =
      let emptied = pop_empty now w.server.queue h.queue in
      let go = λ (t : Option JobRecord × Queue). record w {
        server = record (w.server) { queue = t.1 };
        pc = after_pop t.0;
      } in
      (
        record w {
          server = record (w.server) { queue = record (w.server.queue) { notify = false } };
          pc = waiting;
        },
        record {
          steps = alone start_alone (Step.pop now h.pc h.may (sym (ap go emptied))) refl;
          top = refl;
          asleep = refl;
          empty = h.queue;
          ended = tt;
          others = λ k absent. refl;
        },
      )

  drain : (l : Table) (w : System) → Ready w l → (v : System) × Drained w v l
  drain [] w h = sleep w h
  drain (j ∷ rest) w h =
      let (v, d) = drain rest (after_round j w) (round-Ready w j rest h) in
      (
        v,
        record {
          steps = Alone-trans (round-Alone w j rest h) d.steps;
          top = d.top;
          asleep = d.asleep;
          empty = d.empty;
          ended = (
            d.others j.id h.distinct.0
                ∙ (ap (get j.id) (jobs-served result now j w.server)
                    ∙ get-thrice_own result now j (jobs w.server) h.known.0),
            d.ended,
          );
          others = λ k absent.
              d.others k absent.1
              ∙ (ap (get k) (jobs-served result now j w.server)
                  ∙ get-thrice_other result now k j.id (jobs w.server)
                      (ground (arith, text_eq_iff k j.id, text_eq_iff j.id k, absent.0)));
        },
      )

absent-cases : (k : Text) (l : Table) → (any (has_id k) l ≡ true) ⊎ All (λ j. has_id k j ≡ false) l
absent-cases k [] = inr tt
absent-cases k (x ∷ l) = elim (Bool-cases (has_id k x)) [
  | inl own ↦ inl (rw own refl)
  | inr other ↦ elim (absent-cases k l) [
    | inl there ↦ inl (ground (arith, there, other))
    | inr absent ↦ inr (other, absent)
  ]
]

-- From every state in which the scheduler is at the top of its loop, was woken, is not stopping
-- and no lease is held, on a table with distinct ids: steps of the scheduler's task alone, in
-- which each run ends with the result given for its job, lead to a state in which it sleeps at the
-- top of its loop and no job is queued. Every job that was queued has then been started, run and
-- ended with its result, and no other row has changed.
pub drained :
    (result : Text → RunResult) (now : Text) (w : System)
    → w.pc ≡ waiting
    → may_pop w.server ≡ true
    → IsKeyed (jobs w.server)
    → (v : System) × Alone w v
      × (v.pc ≡ waiting)
      × (v.server.queue.notify ≡ false)
      × (view (jobs v.server) ≡ [])
      × All (λ j. get j.id (jobs v.server) ≡ some (ran result now j)) (view (jobs w.server))
      × ((k : Text)
          → (any (has_id k) (view (jobs w.server)) ≡ true)
            ⊎ (get k (jobs v.server) ≡ get k (jobs w.server)))
drained result now w top may keyed =
    let (v, d) = drain result now (view (jobs w.server)) w (record {
      pc = top;
      may = may;
      queue = refl;
      distinct = view-Distinct (jobs w.server) keyed;
      known = view-get (jobs w.server) keyed;
    }) in
    (
      v,
      d.steps,
      d.top,
      d.asleep,
      d.empty,
      d.ended,
      λ k. elim (absent-cases k (view (jobs w.server))) [
        | inl there ↦ inl there
        | inr absent ↦ inr (d.others k absent)
      ],
    )
