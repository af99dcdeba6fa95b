-- ===== src/Ids.antt =====
-- src/gpuq/ids.py: the ids of jobs and leases. What `secrets.choice` picks is an argument: the
-- position in the alphabet of the i-th choice.
use gpuq.Common.{ℕ, ◌≡◌, ◌≢◌, ap, arith, zero, suc, List, [], ◌∷◌, ◌++◌, map}
use gpuq.Common.Text.{Text, text}

abbrev alphabet : Text
alphabet = text "0123456789abcdefghijklmnopqrstuvwxyz"

-- The character at a position; a choice is never past the end.
abbrev char_at : Text → ℕ → ℕ
char_at [] i = 0
char_at (c ∷ s) zero = c
char_at (c ∷ s) (suc i) = char_at s i

abbrev pub six : List ℕ
six = 0 ∷ 1 ∷ 2 ∷ 3 ∷ 4 ∷ 5 ∷ []

unfoldable pub short : (choice : ℕ → ℕ) → (prefix : Text) → Text
short choice prefix = prefix ++ map (λ i. char_at alphabet (choice i)) six

unfoldable pub new_job_id : (choice : ℕ → ℕ) → Text
unfolding short
new_job_id choice = short choice (text "j_")

unfoldable pub new_lease_id : (choice : ℕ → ℕ) → Text
unfolding short
new_lease_id choice = short choice (text "l_")

-- An id of a job is no id of a lease.
pub new_job_id-new_lease_id : (c d : ℕ → ℕ) → new_job_id c ≢ new_lease_id d
unfolding new_job_id new_lease_id
new_job_id-new_lease_id c d e =
    let letters : 106 ≡ 108 = ap (λ (t : Text). char_at t 0) e in omega (arith, letters)
