-- ===== src/Runner/Environment.antt =====
-- What the child finds in its environment.
use gpuq.Common.{◌≡◌, refl, [], ◌∷◌, none, some, or_else, arith, if◌then◌else◌}
use gpuq.Common.Text.{Text, text, text_eq, text_eq_iff}
use gpuq.Runner.{Env, get_key, set_key, update, set_default, full_env}

-- No key twice.
abbrev pub IsDict : Env → Type 0
IsDict [] = Unit
IsDict ((k, v) ∷ env) = (get_key k env ≡ none) × IsDict env

get_key-set_key :
    (j k v : Text) (env : Env)
    → get_key j (set_key k v env) ≡ (if text_eq k j then some v else get_key j env)
unfolding get_key set_key
get_key-set_key j k v [] = refl
get_key-set_key j k v ((i, w) ∷ env) =
    ground (arith, text_eq_iff k j, text_eq_iff i k, text_eq_iff i j, get_key-set_key j k v env)

get_key-update :
    (j : Text) (env other : Env)
    → IsDict other
    → get_key j (update env other) ≡ or_else (get_key j other) (get_key j env)
unfolding get_key update
get_key-update j env [] d = refl
get_key-update j env ((k, v) ∷ other) d = ground (
  arith,
  d.0,
  get_key-set_key j k v env,
  get_key-update j (set_key k v env) other d.1,
  text_eq_iff k j,
)

-- Where the job's environment has no key twice, the child finds under a key what that environment has,
-- else what the daemon's has, else "0" under CUDA_VISIBLE_DEVICES, else nothing.
pub get_key-full_env :
    (j : Text) (environ env : Env)
    → IsDict env
    → get_key j (full_env environ env)
      ≡ or_else (get_key j env) (
          or_else
            (get_key j environ)
            (if text_eq (text "CUDA_VISIBLE_DEVICES") j then some (text "0") else none))
unfolding full_env set_default
get_key-full_env j environ env d = ground (
  arith,
  get_key-update j environ env d,
  get_key-update (text "CUDA_VISIBLE_DEVICES") environ env d,
  get_key-set_key j (text "CUDA_VISIBLE_DEVICES") (text "0") (update environ env),
  text_eq_iff (text "CUDA_VISIBLE_DEVICES") j,
)
