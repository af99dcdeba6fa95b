-- ===== src/Server/Drained/Round.antt =====
-- What one round of the scheduler, from the pop of a job to the end of its run, does to the table.
use mathlib.Core.Option
use gpuq.Common.{◌≡◌, refl, ap, ◌∙◌, false, [], ◌∷◌, some, arith, All, if◌then◌else◌}
use gpuq.Common.Text.{Text, text_eq, text_eq_refl, text_eq_iff}
use gpuq.Common.Sort.Laws.{All-sort}
use gpuq.State.{queued, state_eq, JobRecord, Table}
use gpuq.State.Jobs.{has_id, get, row_le, is_queued, update_state, Change, apply_change}
use gpuq.State.Keys.{IsKeyed, get-update_where}
use gpuq.Queue.{start_change}
use gpuq.Queue.View.{view, without, Distinct, without_first, without_absent, All-filter}
use gpuq.Queue.Fifo.{view-update_state}
use gpuq.Server.{Server, jobs}
use gpuq.Server.Run.{
  RunResult, exited, crashed, run_change, final_change, final_state, begin_run, report_evicted,
  open_logs, finish_run,
}

get-update_state :
    (j k : Text) (c : Change) (t : Table)
    → get j (update_state k c t)
      ≡ (if text_eq j k then Option.map (apply_change c) (get j t) else get j t)
unfolding update_state
get-update_state j k c t = get-update_where j k (apply_change c) t (λ r. refl)

get-update_own :
    (jid : Text) (c : Change) (t : Table) (r : JobRecord)
    → get jid t ≡ some r
    → get jid (update_state jid c t) ≡ some (apply_change c r)
get-update_own jid c t r e =
    get-update_state jid jid c t ∙ rw (text_eq_refl jid) (ap (Option.map (apply_change c)) e)

get-update_other :
    (k jid : Text) (c : Change) (t : Table)
    → text_eq k jid ≡ false
    → get k (update_state jid c t) ≡ get k t
get-update_other k jid c t ne = get-update_state k jid c t ∙ rw ne refl

final_state-left : (r : RunResult) → state_eq (final_state r) queued ≡ false
unfolding final_state state_eq
final_state-left (exited rc dur) = ground arith
final_state-left crashed = refl

All-imp : (P Q : JobRecord → Type 0) (l : Table) → ((j : JobRecord) → P j → Q j) → All P l → All Q l
All-imp P Q [] f h = tt
All-imp P Q (x ∷ l) f h = (f x h.0, All-imp P Q l f h.1)

All-get : (t : Table) → IsKeyed t → All (λ j. get j.id t ≡ some j) t
unfolding get
All-get [] k = tt
All-get (x ∷ t) k = (
  rw (text_eq_refl x.id) refl,
  All-imp _ _ t (λ j h. ground (arith, h, k.0, text_eq_iff x.id j.id)) (All-get t k.1),
)

pub view-get : (t : Table) → IsKeyed t → All (λ j. get j.id t ≡ some j) (view t)
unfolding view
view-get t k = All-sort row_le _ _ (All-filter _ is_queued t (All-get t k))

module _ (result : Text → RunResult) (now : Text) where
  -- The row of a job after its run.
  abbrev pub ran : JobRecord → JobRecord
  ran j =
      apply_change (final_change (result j.id) now)
        (apply_change (run_change now) (apply_change (start_change now) j))

  abbrev pub taken : JobRecord → Server → Server
  taken j s = record s {
    queue = record s.queue { jobs = update_state j.id (start_change now) (jobs s) };
  }

  abbrev pub served : JobRecord → Server → Server
  served j s = finish_run (result j.id) now j.id (begin_run [] now now j.id (taken j s))

  abbrev pub thrice : Text → Table → Table
  thrice jid t =
      update_state jid (final_change (result jid) now)
        (update_state jid (run_change now) (update_state jid (start_change now) t))

  pub jobs-served : (j : JobRecord) (s : Server) → jobs (served j s) ≡ thrice j.id (jobs s)
  unfolding finish_run begin_run report_evicted open_logs
  jobs-served j s = refl

  pub view-thrice :
      (j : JobRecord) (rest t : Table)
      → view t ≡ j ∷ rest
      → Distinct (j ∷ rest)
      → view (thrice j.id t) ≡ rest
  unfolding state_eq
  view-thrice j rest t e d =
      let again = without_absent j.id rest d.0 in
      let started =
        view-update_state j.id (start_change now) t refl
        ∙ (ap (without j.id) e ∙ without_first j rest d) in
      let begun =
        view-update_state j.id (run_change now) _ refl ∙ (ap (without j.id) started ∙ again) in
      view-update_state j.id (final_change (result j.id) now) _ (final_state-left (result j.id))
      ∙ (ap (without j.id) begun ∙ again)

  pub get-thrice_other :
      (k jid : Text) (t : Table) → text_eq k jid ≡ false → get k (thrice jid t) ≡ get k t
  get-thrice_other k jid t ne =
      get-update_other k jid (final_change (result jid) now) _ ne
      ∙ (get-update_other k jid (run_change now) _ ne
          ∙ get-update_other k jid (start_change now) t ne)

  pub get-thrice_own :
      (j : JobRecord) (t : Table) → get j.id t ≡ some j → get j.id (thrice j.id t) ≡ some (ran j)
  get-thrice_own j t e =
      get-update_own j.id (final_change (result j.id) now) _ _
        (get-update_own j.id (run_change now) _ _ (get-update_own j.id (start_change now) t j e))

  pub known-thrice :
      (j : JobRecord) (rest t : Table)
      → All (λ x. has_id j.id x ≡ false) rest
      → All (λ x. get x.id t ≡ some x) rest
      → All (λ x. get x.id (thrice j.id t) ≡ some x) rest
  known-thrice j [] t d h = tt
  known-thrice j (x ∷ rest) t d h =
      (get-thrice_other x.id j.id t d.0 ∙ h.0, known-thrice j rest t d.1 h.1)
