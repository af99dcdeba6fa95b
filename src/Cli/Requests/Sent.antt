-- ===== src/Cli/Requests/Sent.antt =====
-- What the options of `prune` become in the request.
use gpuq.Common.{
  ◌*◌, ◌⊎◌, inl, inr, ℕ, ◌≡◌, refl, ap, ◌∙◌, List, [], ◌∷◌, ◌++◌, Option, some, map, filter, All,
  ◌==◌,
}
use gpuq.Common.Text.{Text, text, truthy}
use gpuq.Common.Int.{times_ℤ}
use gpuq.Common.Strings.{strip, join}
use gpuq.Common.Strings.Laws.{Lacks, IsWord, strip-word, split-join}
use gpuq.Protocol.{Request, Micros}
use gpuq.Protocol.Typed.{state_of}
use gpuq.Cli.Duration.{unit_seconds}
use gpuq.Cli.Duration.Laws.{parse_duration-unit}
use gpuq.Cli.Requests.{send, PruneOptions, named_states, names_of, prune_request}

-- A word without a comma.
abbrev pub IsName : Text → Type 0
IsName s = IsWord s × Lacks (λ c. c == 44) s

no_commas : (names : List Text) → All IsName names → All (Lacks (λ c. c == 44)) names
no_commas [] h = tt
no_commas (n ∷ names) h = (h.0.1, no_commas names h.1)

stripped : (names : List Text) → All IsName names → filter truthy (map strip names) ≡ names
stripped [] h = refl
stripped ([] ∷ names) h = absurd (h.0.0)
stripped ((c ∷ n) ∷ names) h =
    rw (strip-word (c ∷ n) h.0.0) (ap (λ t. (c ∷ n) ∷ t) (stripped names h.1))

names_of-join :
    (n : Text) (names : List Text)
    → All IsName (n ∷ names)
    → names_of (join 44 (n ∷ names)) ≡ n ∷ names
unfolding names_of
names_of-join n names h =
    ap (λ ps. filter truthy (map strip ps)) (split-join 44 n names (no_commas (n ∷ names) h))
    ∙ stripped (n ∷ names) h

named_states-join :
    (n : Text) (names : List Text)
    → All IsName (n ∷ names)
    → named_states (some (join 44 (n ∷ names))) ≡ some (map state_of (n ∷ names))
named_states-join [] names h = absurd (h.0.0)
named_states-join (c ∷ n) [] h = ap (λ t. some (map state_of t)) (names_of-join (c ∷ n) [] h)
named_states-join (c ∷ n) (m ∷ names) h =
    ap (λ t. some (map state_of t)) (names_of-join (c ∷ n) (m ∷ names) h)

-- The units of an age, s, m, h and d, and how many seconds each has.
abbrev pub HasSeconds : ℕ → ℕ → Type 0
HasSeconds u k =
    ((u ∷ [] ≡ text "s") × (k ≡ 1))
    ⊎ (((u ∷ [] ≡ text "m") × (k ≡ 60))
        ⊎ (((u ∷ [] ≡ text "h") × (k ≡ 60 * 60)) ⊎ ((u ∷ [] ≡ text "d") × (k ≡ 24 * 60 * 60))))

abbrev first_char : Text → ℕ
first_char [] = 0
first_char (c ∷ s) = c

unit_seconds-HasSeconds : (u k : ℕ) → HasSeconds u k → unit_seconds u ≡ some k
unfolding unit_seconds
unit_seconds-HasSeconds u k (inl (e, n)) =
    let code : u ≡ 115 = ap first_char e in rw code (rw n refl)
unit_seconds-HasSeconds u k (inr (inl (e, n))) =
    let code : u ≡ 109 = ap first_char e in rw code (rw n refl)
unit_seconds-HasSeconds u k (inr (inr (inl (e, n)))) =
    let code : u ≡ 104 = ap first_char e in rw code (rw n refl)
unit_seconds-HasSeconds u k (inr (inr (inr (e, n)))) =
    let code : u ≡ 100 = ap first_char e in rw code (rw n refl)

-- `gpuq prune` with an age that is a number and one of the units s, m, h and d, and with one or
-- more states, words without a comma, joined by commas: it sends the age in seconds, the number as
-- `float` reads it times 1, 60, 3600 or 86400, and exactly these states in their order.
pub prune_request_lem :
    (float : Text → Option Micros) (o : PruneOptions) (number : Text) (u k : ℕ) (x : Micros)
    (n : Text) (names : List Text)
    → o.older_than ≡ number ++ u ∷ []
    → IsWord number
    → HasSeconds u k
    → float number ≡ some x
    → o.states_csv ≡ some (join 44 (n ∷ names))
    → All IsName (n ∷ names)
    → prune_request float o
      ≡ send (
          Request.prune (record {
            older_than_s = times_ℤ k x;
            states = map state_of (n ∷ names);
            keep_tag = o.keep_tag;
            dry_run = o.dry_run;
          }))
unfolding prune_request
prune_request_lem float o number u k x n names age word seconds reads csv named =
    let unit = unit_seconds-HasSeconds u k seconds in
    rw age (
      rw (parse_duration-unit float number u k x word unit reads)
        (rw csv (rw (named_states-join n names named) refl)))
