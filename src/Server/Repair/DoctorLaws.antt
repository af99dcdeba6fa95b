-- ===== src/Server/Repair/DoctorLaws.antt =====
-- What `doctor` fixes, and what it leaves alone.
use mathlib.Core.Option
use mathlib.Core.Path.{fun_ext}
use gpuq.Common.{
  ◌≡◌, refl, ap, ◌∙◌, Bool, not, ◌&&◌, [], ◌∷◌, Option, Option-cases, some, arith, filter, any,
  if◌then◌else◌, Bool-cases, inl, inr, is_some,
}
use gpuq.Common.Text.{Text, text_eq_iff}
use gpuq.Common.Sort.{sort}
use gpuq.State.{running, state_eq, JobRecord, Table}
use gpuq.State.Jobs.{has_id, get, find, matches, row_le, no_filters, update_state, apply_change}
use gpuq.State.Keys.{IsKeyed, get-update_where}
use gpuq.State.Select.{any-sort, any-filter, any-filter_keyed}
use gpuq.Protocol.{Doctor}
use gpuq.Server.{Server, jobs, lost_change}
use gpuq.Server.Repair.{
  Surroundings, is_current, listed, candidates, signature_of, treat, examine, handle_doctor,
}

module _ (w : Surroundings) (req : Doctor) where
  -- A wedged row that is not the current job's.
  abbrev pub is_lost : Option Text → JobRecord → Bool
  is_lost current r = is_some (signature_of w req r) && not (is_current r.id current)

  treat-current :
      (x : JobRecord) (sig : Text) (s : Server)
      → (treat w req x sig s).1.current_job_id ≡ s.current_job_id
  unfolding treat
  treat-current x sig s = ground arith

  get-treat :
      (j : Text) (x : JobRecord) (sig : Text) (cur : Option Text) (s : Server)
      → s.current_job_id ≡ cur
      → get j (jobs (treat w req x sig s).1) ≡ (
          if req.fix && (has_id j x && not (is_current x.id cur))
          then Option.map (apply_change (lost_change (w.clock j))) (get j (jobs s))
          else get j (jobs s))
  unfolding treat update_state
  get-treat j x sig cur s h =
      let updated =
        get-update_where j x.id (apply_change (lost_change (w.clock x.id))) (jobs s) (λ r. refl) in
      elim (Bool-cases req.fix) [
        | inr report ↦ rw report refl
        | inl fix ↦ elim (Bool-cases (is_current x.id cur)) [
          | inl current ↦ rw fix (rw h (rw current (ground arith)))
          | inr lost ↦
              rw fix
                (rw h (rw lost (ground (arith, updated, text_eq_iff x.id j, text_eq_iff j x.id))))
        ]
      ]

  get-examine :
      (j : Text) (cur : Option Text) (rows : Table) (s : Server)
      → s.current_job_id ≡ cur
      → get j (jobs (examine w req rows s).1) ≡ (
          if req.fix && any (λ x. has_id j x && is_lost cur x) rows
          then Option.map (apply_change (lost_change (w.clock j))) (get j (jobs s))
          else get j (jobs s))
  unfolding examine
  get-examine j cur [] s h = ground arith
  get-examine j cur (x ∷ rows) s h = elim (Option-cases (signature_of w req x)) [
    | inl well ↦ rw (well, examine) (ground (arith, get-examine j cur rows s h))
    | inr (sig, e) ↦
        let rest = get-examine j cur rows (treat w req x sig s).1 (treat-current x sig s ∙ h) in
        rw (e, examine) (rest ∙ ground (arith, get-treat j x sig cur s h))
  ]

  matches-running :
      matches (record no_filters { state = some running }) ≡ (λ r. state_eq r.state running)
  unfolding matches
  matches-running = fun_ext (λ r. ground arith)

  any-candidates :
      (s : Server) (j : Text) (q : JobRecord → Bool) (r : JobRecord)
      → IsKeyed (jobs s)
      → get j (jobs s) ≡ some r
      → any (λ x. has_id j x && q x) (candidates req s)
        ≡ (state_eq r.state running && (listed req.ids r && q r))
  unfolding candidates find
  any-candidates s j q r k g =
      let m = matches (record no_filters { state = some running }) in
      let p : JobRecord → Bool = λ x. has_id j x && q x in
      let swap : (λ (x : JobRecord). listed req.ids x && p x)
          ≡ (λ x. has_id j x && (listed req.ids x && q x)) =
        fun_ext (λ x. ground arith) in
      any-filter (listed req.ids) p (sort row_le (filter m (jobs s)))
      ∙ (any-sort (λ x. listed req.ids x && p x) (filter m (jobs s))
          ∙ (ap (λ f. any f (filter m (jobs s))) swap
              ∙ (any-filter_keyed j m (λ x. listed req.ids x && q x) (jobs s) r k g
                  ∙ ap (λ (f : JobRecord → Bool). f r && (listed req.ids r && q r))
                      matches-running)))

  -- The rows that `doctor --fix` fails: running, listed if ids were given, wedged, and not the job
  -- that the daemon runs.
  abbrev pub is_fixed : Server → JobRecord → Bool
  is_fixed s r = state_eq r.state running && (listed req.ids r && is_lost s.current_job_id r)

  -- On a table with distinct ids: with `fix`, `doctor` fails exactly the running, listed, wedged jobs that are not the current one,
  -- with exit code -1 and a finishing stamp. It changes no other row, and without `fix` none.
  pub handle_doctor_lem :
      (s : Server) (j : Text) (r : JobRecord)
      → IsKeyed (jobs s)
      → get j (jobs s) ≡ some r
      → get j (jobs (handle_doctor w req s).after)
        ≡ some (if req.fix && is_fixed s r then apply_change (lost_change (w.clock j)) r else r)
  unfolding handle_doctor
  handle_doctor_lem s j r k g =
      get-examine j s.current_job_id (candidates req s) s refl
      ∙ rw (any-candidates s j (is_lost s.current_job_id) r k g) (rw g (ground arith))
