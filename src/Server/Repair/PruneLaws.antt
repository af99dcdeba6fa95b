-- ===== src/Server/Repair/PruneLaws.antt =====
-- What `prune` deletes, keeps and reports.
use mathlib.Core.Path.{fun_ext}
use gpuq.Common.{
  ◌≡◌, ◌≢◌, refl, ap, ◌∙◌, Bool, true, false, not, ◌&&◌, ◌||◌, Option, List, [], ◌∷◌, map, none,
  some, arith, filter, any, All, if◌then◌else◌, Bool-cases, inl, inr,
}
use gpuq.Common.Text.{Text, text_le, text_eq, text_eq_iff}
use gpuq.State.{
  JobState, queued, starting, running, done, failed, cancelled, state_eq, JobRecord, Table,
}
use gpuq.State.Jobs.{has_id, get, find, matches, no_filters, states_filter}
use gpuq.State.Keys.{IsKeyed, get-delete}
use gpuq.State.Select.{any-sort, any-filter_keyed}
use gpuq.Protocol.{Prune, Event, Payload}
use gpuq.Server.{Server, jobs}
use gpuq.Server.Repair.{
  prune_states, may_prune, states_or_default, is_pruned, stamp_of, delete_job, sweep,
  prune_candidates, handle_prune,
}

-- A state that is not queued, starting or running.
abbrev pub is_idle : JobState → Bool
is_idle queued = false
is_idle starting = false
is_idle running = false
is_idle _ = true

-- The states that a prune takes rows of, by the states that it was asked for.
abbrev pub is_chosen : List JobState → JobState → Bool
is_chosen [] s = state_eq s done || (state_eq s failed || state_eq s cancelled)
is_chosen (x ∷ xs) s = if any is_idle (x ∷ xs) then is_idle s && any (state_eq s) (x ∷ xs) else true

abbrev pub last_stamp : (finished : Option Text) (submitted : Text) → Text
last_stamp (some (c ∷ stamp)) submitted = c ∷ stamp
last_stamp _ submitted = submitted

abbrev pub has_kept_tag : (keep tag : Text) → Bool
has_kept_tag [] tag = false
has_kept_tag (c ∷ keep) tag = text_eq tag (c ∷ keep)

-- What a prune deletes, by the request, the cutoff and the row.
abbrev pub may_go : (cutoff : Text) → Prune → JobRecord → Bool
may_go cutoff req r =
    is_chosen req.states r.state
    && (not (has_kept_tag req.keep_tag r.tag)
        && not (text_le cutoff (last_stamp r.finished_at r.submitted_at)))

state_eq_sound : (a b : JobState) → state_eq a b ≡ true → may_prune b ≡ may_prune a
unfolding state_eq
state_eq_sound a b h = ground arith

any-may_prune :
    (r : JobState) (l : List JobState)
    → any (state_eq r) (filter may_prune l) ≡ true
    → may_prune r ≡ true
any-may_prune r [] h = cc
any-may_prune r (x ∷ l) h = ground (arith, any-may_prune r l, state_eq_sound r x)

states_filter-ne_nil :
    (ss : List JobState) (r : JobRecord)
    → ss ≢ []
    → states_filter (some ss) r ≡ any (state_eq r.state) ss
states_filter-ne_nil [] r h = absurd (h refl)
states_filter-ne_nil (s ∷ ss) r h = refl

may_prune-is_idle : (s : JobState) → may_prune s ≡ is_idle s
unfolding state_eq
may_prune-is_idle s = ground arith

any-filter_idle :
    (s : JobState) (l : List JobState)
    → any (state_eq s) (filter may_prune l) ≡ (is_idle s && any (state_eq s) l)
any-filter_idle s [] = ground arith
any-filter_idle s (x ∷ l) =
    ground
      (arith, any-filter_idle s l, state_eq_sound s x, may_prune-is_idle s, may_prune-is_idle x)

states_filter-filter :
    (l : List JobState) (r : JobRecord)
    → states_filter (some (filter may_prune l)) r
      ≡ (if any is_idle l then any (state_eq r.state) (filter may_prune l) else true)
states_filter-filter [] r = refl
states_filter-filter (x ∷ l) r = ground (arith, states_filter-filter l r, may_prune-is_idle x)

states_filter-chosen :
    (ss : List JobState) (r : JobRecord)
    → states_filter (some (filter may_prune (states_or_default ss))) r ≡ is_chosen ss r.state
unfolding state_eq
states_filter-chosen [] r = ground arith
states_filter-chosen (x ∷ ss) r =
    states_filter-filter (x ∷ ss) r ∙ rw (any-filter_idle r.state (x ∷ ss)) refl

stamp_of-last_stamp : (r : JobRecord) → stamp_of r ≡ last_stamp r.finished_at r.submitted_at
stamp_of-last_stamp r = go r.finished_at
  where
    go :
        (f : Option Text)
        → (elim f [ none ↦ r.submitted_at | some [] ↦ r.submitted_at | some stamp ↦ stamp ])
          ≡ last_stamp f r.submitted_at
    go none = refl
    go (some []) = refl
    go (some (c ∷ stamp)) = refl

module _ (cutoff : Text) (req : Prune) where
  get-delete_job :
      (j x : Text) (s : Server)
      → get j (jobs (delete_job x s)) ≡ (if text_eq j x then none else get j (jobs s))
  unfolding delete_job
  get-delete_job j x s = get-delete j x (jobs s)

  get-sweep :
      (j : Text) (rows : Table) (s : Server)
      → get j (jobs (sweep cutoff req rows s).1) ≡ (
          if not req.dry_run && any (λ x. has_id j x && is_pruned cutoff req x) rows
          then none
          else get j (jobs s))
  unfolding sweep
  get-sweep j [] s = ground arith
  get-sweep j (x ∷ rows) s = elim (Bool-cases (is_pruned cutoff req x)) [
    | inr kept ↦ rw kept (ground (arith, get-sweep j rows s))
    | inl old ↦ elim (Bool-cases req.dry_run) [
      | inl dry ↦ rw old (rw dry (ground (arith, get-sweep j rows s)))
      | inr real ↦ rw old (
          rw real (
            ground (
              arith,
              get-sweep j rows (delete_job x.id s),
              get-delete_job j x.id s,
              text_eq_iff x.id j,
              text_eq_iff j x.id,
            )))
    ]
  ]

  matches-states :
      matches (record no_filters { states = some (prune_states req) })
      ≡ states_filter (some (prune_states req))
  unfolding matches
  matches-states = fun_ext (λ r. ground arith)

  -- Whether a row is among the candidates and passes the tests of the loop.
  abbrev pub is_swept : JobRecord → Bool
  is_swept r = states_filter (some (prune_states req)) r && is_pruned cutoff req r

  any-candidates :
      (s : Server) (j : Text) (r : JobRecord)
      → IsKeyed (jobs s)
      → get j (jobs s) ≡ some r
      → any (λ x. has_id j x && is_pruned cutoff req x) (prune_candidates req s) ≡ is_swept r
  unfolding prune_candidates find
  any-candidates s j r k g =
      let m = matches (record no_filters { states = some (prune_states req) }) in
      any-sort (λ x. has_id j x && is_pruned cutoff req x) (filter m (jobs s))
      ∙ (any-filter_keyed j m (is_pruned cutoff req) (jobs s) r k g
          ∙ ap (λ (f : JobRecord → Bool). f r && is_pruned cutoff req r) matches-states)

  swept_lem : (r : JobRecord) → is_swept r ≡ may_go cutoff req r
  unfolding is_pruned prune_states
  swept_lem r =
      let chosen = states_filter-chosen req.states r in
      let stamp = stamp_of-last_stamp r in rw chosen (rw stamp (ground arith))

  handle_prune-is_swept :
      (s : Server) (j : Text) (r : JobRecord)
      → IsKeyed (jobs s)
      → get j (jobs s) ≡ some r
      → get j (jobs (handle_prune cutoff req s).after)
        ≡ (if not req.dry_run && is_swept r then none else some r)
  unfolding handle_prune
  handle_prune-is_swept s j r k g =
      get-sweep j (prune_candidates req s) s ∙ rw (any-candidates s j r k g) (rw g refl)

  -- On a table with distinct ids, a prune that is no dry run deletes exactly these rows: those
  -- without the kept tag, where one is named, whose stamp (of their end or, where there is none,
  -- of their submission) is before the cutoff, and whose state is among the requested ones that
  -- are not queued, starting or running. The states done, failed and cancelled stand for an empty
  -- request; and where states are requested and each of them is queued, starting or running, a row
  -- of any state will do. No other row changes, and in a dry run none.
  pub handle_prune_lem :
      (s : Server) (j : Text) (r : JobRecord)
      → IsKeyed (jobs s)
      → get j (jobs s) ≡ some r
      → get j (jobs (handle_prune cutoff req s).after)
        ≡ (if not req.dry_run && may_go cutoff req r then none else some r)
  handle_prune_lem s j r k g = handle_prune-is_swept s j r k g ∙ rw (swept_lem r) refl

  sweep-ids :
      (rows : Table) (s : Server)
      → (sweep cutoff req rows s).0 ≡ map (λ x. x.id) (filter (is_pruned cutoff req) rows)
  unfolding sweep
  sweep-ids [] s = refl
  sweep-ids (x ∷ rows) s = elim (Bool-cases (is_pruned cutoff req x)) [
    | inr kept ↦ rw kept (sweep-ids rows s)
    | inl old ↦ rw old (ap (λ ids. x.id ∷ ids) (sweep-ids rows _))
  ]

  sweep_dry : (rows : Table) (s : Server) → req.dry_run ≡ true → (sweep cutoff req rows s).1 ≡ s
  unfolding sweep
  sweep_dry [] s h = refl
  sweep_dry (x ∷ rows) s h = elim (Bool-cases (is_pruned cutoff req x)) [
    | inr kept ↦ rw kept (sweep_dry rows s h)
    | inl old ↦ rw old (rw h (sweep_dry rows s h))
  ]

-- A dry run changes nothing, and reports exactly the ids that the real run reports, in its order.
pub prune_preview :
    (cutoff : Text) (req : Prune) (s : Server)
    → let dry = handle_prune cutoff (record req { dry_run = true }) s in
      let real = handle_prune cutoff (record req { dry_run = false }) s in
      (dry.after ≡ s)
      × ((ids : List Text) × (dry.sent ≡ Event.result (Payload.deleted ids true) ∷ [])
          × (real.sent ≡ Event.result (Payload.deleted ids false) ∷ []))
unfolding handle_prune is_pruned prune_candidates prune_states
prune_preview cutoff req s =
    let dry : Prune = record req { dry_run = true } in
    let real : Prune = record req { dry_run = false } in
    let rows = prune_candidates dry s in
    (
      sweep_dry cutoff dry rows s refl,
      (
        map (λ x. x.id) (filter (is_pruned cutoff dry) rows),
        ap (λ ids. Event.result (Payload.deleted ids true) ∷ []) (sweep-ids cutoff dry rows s),
        ap (λ ids. Event.result (Payload.deleted ids false) ∷ [])
            (sweep-ids cutoff real (prune_candidates real s) s),
      ),
    )

-- On a table with distinct ids, as long as one requested state may be pruned, or none was named, no
-- queued, starting or running job is deleted or changed.
pub prune_keeps :
    (cutoff : Text) (req : Prune) (s : Server) (j : Text) (r : JobRecord)
    → IsKeyed (jobs s)
    → get j (jobs s) ≡ some r
    → prune_states req ≢ []
    → may_prune r.state ≡ false
    → get j (jobs (handle_prune cutoff req s).after) ≡ some r
unfolding prune_states
prune_keeps cutoff req s j r k g some_state live =
    let exact = handle_prune-is_swept cutoff req s j r k g in
    let named = states_filter-ne_nil (prune_states req) r some_state in
    ground (arith, exact, named, any-may_prune r.state (states_or_default req.states))

filter-may_prune : (l : List JobState) → All (λ s. may_prune s ≡ false) l → filter may_prune l ≡ []
filter-may_prune [] h = refl
filter-may_prune (s ∷ l) h = rw (h.0) (filter-may_prune l h.1)

prune_states-active :
    (req : Prune)
    → req.states ≢ []
    → All (λ s. may_prune s ≡ false) req.states
    → prune_states req ≡ []
unfolding prune_states
prune_states-active req some_state active =
    let none_left = filter-may_prune req.states active in ground (arith, none_left, some_state)

-- On a table with distinct ids: if states are requested, and each of them is queued, starting or
-- running, then a prune that is no dry run deletes every job that is old enough and without the kept
-- tag, whatever its state.
pub prune_deletes_active :
    (cutoff : Text) (req : Prune) (s : Server) (j : Text) (r : JobRecord)
    → IsKeyed (jobs s)
    → get j (jobs s) ≡ some r
    → req.dry_run ≡ false
    → req.states ≢ []
    → All (λ s. may_prune s ≡ false) req.states
    → is_pruned cutoff req r ≡ true
    → get j (jobs (handle_prune cutoff req s).after) ≡ none
prune_deletes_active cutoff req s j r k g real some_state active old =
    let no_state = prune_states-active req some_state active in
    handle_prune-is_swept cutoff req s j r k g ∙ rw no_state (rw old (rw real))
