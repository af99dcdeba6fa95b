-- ===== src/Queue/Runtime/Mean.antt =====
-- The bounds of the mean of `recent_mean_runtime` in src/gpuq/daemon/queue.py.
use gpuq.Common.{
  ℕ, if◌then◌else◌, false, ◌≡◌, refl, ◌≤◌, ◌<◌, ◌*◌, suc, Bool, true, Bool-cases, inl, inr, List,
  [], ◌∷◌, Option, none, some, arith, All, All-take, filter, length, take, ltb,
}
use Prim.Native.Nat.{◌/◌}
use native.Mathlib.Nat.{div-le_of_le-mul, le-div_iff_mul-le}
use gpuq.Common.Text.{Text}
use gpuq.Common.Int.{ℤ, pos, negsuc, ◌≤ℤ◌, ◌+ℤ◌, ◌-ℤ◌, div_ℤ}
use gpuq.Common.Sort.{sort}
use gpuq.Common.Sort.Laws.{All-sort}
use gpuq.State.{JobRecord, Table}
use gpuq.Protocol.{Micros}
use gpuq.Queue.Runtime.{
  Parser, has_runtime, finished_later, duration_of, durations, sum, mean, recent_mean_runtime,
  text_or_empty,
}

has_runtime-any : (tag : Text) (r : JobRecord) → has_runtime tag r ≡ true → has_runtime [] r ≡ true
unfolding has_runtime
has_runtime-any tag r h = ground arith

module _ (lo hi : ℕ) where
  abbrev pub IsBetween : Micros → Type 0
  IsBetween d = (pos lo ≤ℤ d) × (d ≤ℤ pos hi)

  -- A run that took at least `lo` and at most `hi`; a stamp that does not parse says nothing.
  abbrev pub IsSpan : Option Micros → Option Micros → Type 0
  IsSpan (some s) (some f) = IsBetween (f -ℤ s)
  IsSpan _ _ = Unit

  abbrev pub RanWithin : Parser → JobRecord → Type 0
  RanWithin parse r =
      IsSpan (parse (text_or_empty r.started_at)) (parse (text_or_empty r.finished_at))

  sum-bounds :
      (ds : List Micros)
      → All IsBetween ds
      → (pos (length ds * lo) ≤ℤ sum ds) × (sum ds ≤ℤ pos (length ds * hi))
  unfolding ◌+ℤ◌
  sum-bounds [] h = (omega arith, omega arith)
  sum-bounds (d ∷ ds) h =
      let ih = sum-bounds ds h.1 in (ground (arith, ih.0, h.0.0), ground (arith, ih.1, h.0.1))

  div_ℤ-bounds :
      (n : ℕ) (d : ℤ) → pos (suc n * lo) ≤ℤ d → d ≤ℤ pos (suc n * hi) → IsBetween (div_ℤ d (suc n))
  unfolding div_ℤ
  div_ℤ-bounds n (pos d) l h =
      let positive : 0 < suc n = omega arith in
      let least : lo * suc n ≤ d = grind arith in
      let most : d ≤ suc n * hi = omega arith in
      let floor : lo ≤ d / suc n = (le-div_iff_mul-le positive).1 least in
      let top : d / suc n ≤ hi = div-le_of_le-mul (suc n) most in (omega arith, omega arith)
  div_ℤ-bounds n (negsuc d) l h = absurd (omega arith)

  mean-bounds : (ds : List Micros) (m : Micros) → All IsBetween ds → mean ds ≡ some m → IsBetween m
  unfolding mean
  mean-bounds [] m h e = cc
  mean-bounds (d ∷ ds) m h e = elim (Bool-cases (ltb (length (d ∷ ds)) 3)) [
    | inl few ↦ let gone : mean (d ∷ ds) ≡ none = rw few refl in cc
    | inr enough ↦
        let total = sum (d ∷ ds) in
        let got : mean (d ∷ ds) ≡ some (div_ℤ total (length (d ∷ ds))) = rw enough refl in
        let same : div_ℤ total (length (d ∷ ds)) ≡ m = cc in
        let b = sum-bounds (d ∷ ds) h in rw same at (div_ℤ-bounds (length ds) total b.0 b.1)
  ]

  durations-bounds :
      (parse : Parser) (t : Table) → All (RanWithin parse) t → All IsBetween (durations parse t)
  unfolding durations
  durations-bounds parse [] h = tt
  durations-bounds parse (r ∷ t) h =
      joined (parse (text_or_empty r.started_at)) (parse (text_or_empty r.finished_at))
        (durations parse t) h.0 (durations-bounds parse t h.1)
    where
      joined :
          (s f : Option Micros) (ds : List Micros)
          → IsSpan s f
          → All IsBetween ds
          → All IsBetween (duration_of s f ds)
      joined (some s) (some f) ds x y = (x, y)
      joined (some s) none ds x y = y
      joined none f ds x y = y

  -- The filter on tags only takes rows away.
  tagged-RanWithin :
      (parse : Parser) (tag : Text) (t : Table)
      → All (RanWithin parse) (filter (has_runtime []) t)
      → All (RanWithin parse) (filter (has_runtime tag) t)
  tagged-RanWithin parse tag [] h = tt
  tagged-RanWithin parse tag (r ∷ t) h = elim (Bool-cases (has_runtime tag r)) [
    | inl counts ↦
        let any_tag = has_runtime-any tag r counts in
        let both : All (RanWithin parse) (r ∷ filter (has_runtime []) t) = rw any_tag at h in
        rw counts (both.0, tagged-RanWithin parse tag t both.1)
    | inr other ↦ rw other (tagged-RanWithin parse tag t (rest _ (has_runtime [] r) h))
  ]
    where
      rest :
          (rows : Table) (counts : Bool)
          → All (RanWithin parse) (if counts then r ∷ rows else rows)
          → All (RanWithin parse) rows
      rest rows true x = x.1
      rest rows false x = x

  -- A run that `recent_mean_runtime` may count, whatever the tag, was at least `lo` and at most `hi`.
  pub recent_mean_runtime-bounds :
      (parse : Parser) (tag : Text) (limit : ℕ) (t : Table) (m : Micros)
      → All (RanWithin parse) (filter (has_runtime []) t)
      → recent_mean_runtime parse tag limit t ≡ some m
      → IsBetween m
  unfolding recent_mean_runtime
  recent_mean_runtime-bounds parse tag limit t m h e =
      let counted = filter (has_runtime tag) t in
      let sorted =
        All-sort finished_later (RanWithin parse) counted (tagged-RanWithin parse tag t h) in
      let rows = take limit (sort finished_later counted) in
      mean-bounds (durations parse rows) m
        (durations-bounds parse rows
          (All-take (RanWithin parse) limit (sort finished_later counted) sorted))
        e
