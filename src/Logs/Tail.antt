-- ===== src/Logs/Tail.antt =====
-- What `tail` returns.
use gpuq.Common.{
  ℕ, zero, suc, ◌-◌, leb, if◌then◌else◌, ◌∙◌, ◌≡◌, refl, ap, List, [], ◌∷◌, ◌++◌, arith, length,
  take, drop,
}
use gpuq.Common.Int.{pos}
use gpuq.Logs.{Entry, JobLogs, slice_from, tail, read_all}

take-drop : (k : ℕ) (xs : List Entry) → xs ≡ take k xs ++ drop k xs
take-drop zero xs = refl
take-drop (suc k) [] = refl
take-drop (suc k) (x ∷ xs) = ap (λ t. x ∷ t) (take-drop k xs)

length-drop : (k : ℕ) (xs : List Entry) → length (drop k xs) ≡ length xs - k
length-drop zero xs = omega arith
length-drop (suc k) [] = omega arith
length-drop (suc k) (x ∷ xs) = omega (arith, length-drop k xs)

-- For a positive `n`, `tail` returns the last `n` lines of the replay, or all of them if there are
-- fewer. For 0 it returns all of them.
pub tail_lem :
    (n : ℕ) (l : JobLogs)
    → ((older : List Entry) × (read_all l ≡ older ++ tail (pos (suc n)) l))
      × (length (tail (pos (suc n)) l)
          ≡ (if leb (suc n) (length (read_all l)) then suc n else length (read_all l)))
      × (tail (pos zero) l ≡ read_all l)
unfolding tail slice_from
tail_lem n l =
    let k = length (read_all l) - suc n in
    (
      (take k (read_all l), take-drop k (read_all l)),
      length-drop k (read_all l) ∙ ground arith,
      refl,
    )
