-- ===== src/Server/Eta/Bounds.antt =====
-- The bounds of the start that `_compute_eta` of src/gpuq/daemon/server.py estimates.
use gpuq.Common.{
  All, filter, Option-cases, inl, inr, ◌∷◌, ◌≡◌, ◌∙◌, refl, ◌≤◌, ℕ, Option, none, some, or_else,
  arith, [], ◌-◌, ◌*◌,
}
use gpuq.Common.Text.{Text}
use gpuq.Common.Int.{ℤ, pos, negsuc, ◌≤ℤ◌, ◌+ℤ◌, ◌-ℤ◌, times_ℤ, max_ℤ_bounds}
use gpuq.State.{JobRecord, Table}
use gpuq.State.Jobs.{get}
use gpuq.Queue.Runtime.{Parser, has_runtime, recent_mean_runtime}
use gpuq.Queue.Runtime.Mean.{IsBetween, RanWithin, recent_mean_runtime-bounds}
use gpuq.Protocol.{Micros}
use gpuq.Server.{Server, jobs}
use gpuq.Server.Eta.{left_since, age, remaining_of, running_remaining, compute_eta}

left_since-nonneg :
    (parse : Parser) (now mean : Micros) (stamp : Option Text)
    → pos 0 ≤ℤ left_since parse now mean stamp
left_since-nonneg parse now mean none = omega arith
left_since-nonneg parse now mean (some []) = omega arith
left_since-nonneg parse now mean (some (c ∷ stamp)) =
    (max_ℤ_bounds (mean -ℤ age now (parse (c ∷ stamp))) (pos 0)).1

remaining_of-nonneg :
    (parse : Parser) (now mean : Micros) (cur : Option JobRecord)
    → pos 0 ≤ℤ remaining_of parse now mean cur
remaining_of-nonneg parse now mean none = omega arith
remaining_of-nonneg parse now mean (some cur) = left_since-nonneg parse now mean cur.started_at

running_remaining-nonneg :
    (parse : Parser) (now mean : Micros) (s : Server) → pos 0 ≤ℤ running_remaining parse now mean s
unfolding running_remaining
running_remaining-nonneg parse now mean s = elim (Option-cases s.current_job_id) [
  | inl idle ↦ rw (idle, running_remaining) (omega arith)
  | inr (jid, e) ↦ rw (e, running_remaining) (remaining_of-nonneg parse now mean (get jid (jobs s)))
]

mul_mono : (j k m : ℕ) → j ≤ k → j * m ≤ k * m
mul_mono j k m h = grind arith

add_times_mono : (a : ℤ) (j k m : ℕ) → j ≤ k → a +ℤ times_ℤ j (pos m) ≤ℤ a +ℤ times_ℤ k (pos m)
unfolding ◌+ℤ◌ times_ℤ
add_times_mono a j k m h = ground (arith, mul_mono j k m)

times_mono : (a : ℤ) (k m n : ℕ) → m ≤ n → a +ℤ times_ℤ k (pos m) ≤ℤ a +ℤ times_ℤ k (pos n)
unfolding ◌+ℤ◌ times_ℤ
times_mono a k m n h = let scaled : k * m ≤ k * n = grind arith in ground arith

-- The mean that `_compute_eta` takes: that of the job's tag, or of all jobs.
mean_of-IsBetween :
    (lo hi : ℕ) (parse : Parser) (tag : Text) (t : Table) (mean : Micros)
    → All (RanWithin lo hi parse) (filter (has_runtime []) t)
    → or_else (recent_mean_runtime parse tag 10 t) (recent_mean_runtime parse [] 10 t) ≡ some mean
    → IsBetween lo hi mean
mean_of-IsBetween lo hi parse tag t mean h e =
    elim (Option-cases (recent_mean_runtime parse tag 10 t)) [
      | inl few ↦ recent_mean_runtime-bounds lo hi parse [] 10 t mean h (rw few at e)
      | inr (m, own) ↦ recent_mean_runtime-bounds lo hi parse tag 10 t mean h (own ∙ rw own at e)
    ]

-- Where a mean is known and every run that counts for one took at least lo and at most hi, a job at
-- place p has an estimate: what is left of the current run, which is not negative, and a start that
-- is behind the end of that run by at least p - 1 times lo and at most p - 1 times hi, and no later
-- than the start of a job at a place q that is p or further back.
pub compute_eta_bounds :
    (parse : Parser) (now mean : Micros) (rec : JobRecord) (lo hi p q : ℕ) (s : Server)
    → or_else
        (recent_mean_runtime parse rec.tag 10 (jobs s))
        (recent_mean_runtime parse [] 10 (jobs s))
      ≡ some mean
    → All (RanWithin lo hi parse) (filter (has_runtime []) (jobs s))
    → p ≤ q
    → (left : Micros) × (start : Micros) × (later : Micros) × (compute_eta parse now rec (some p) s
        ≡ (some left, some start))
      × (compute_eta parse now rec (some q) s ≡ (some left, some later))
      × (pos 0 ≤ℤ left)
      × (left +ℤ times_ℤ (p - 1) (pos lo) ≤ℤ start)
      × (start ≤ℤ left +ℤ times_ℤ (p - 1) (pos hi))
      × (start ≤ℤ later)
unfolding compute_eta
compute_eta_bounds parse now (pos m) rec lo hi p q s e h le =
    let left = running_remaining parse now (pos m) s in
    let between = mean_of-IsBetween lo hi parse rec.tag (jobs s) (pos m) h e in
    (
      left,
      left +ℤ times_ℤ (p - 1) (pos m),
      left +ℤ times_ℤ (q - 1) (pos m),
      rw (e, compute_eta) refl,
      rw (e, compute_eta) refl,
      running_remaining-nonneg parse now (pos m) s,
      times_mono left (p - 1) lo m (omega (arith, between.0)),
      times_mono left (p - 1) m hi (omega (arith, between.1)),
      add_times_mono left (p - 1) (q - 1) m (omega arith),
    )
compute_eta_bounds parse now (negsuc m) rec lo hi p q s e h le =
    absurd (omega (arith, (mean_of-IsBetween lo hi parse rec.tag (jobs s) (negsuc m) h e).0))
