-- ===== src/Protocol/Json.antt =====
-- Python's values of JSON, as json.loads makes them. A float is a whole number of microseconds, as
-- every float of the protocol is a time in seconds.
use gpuq.Common.{Bool, List, [], ◌∷◌, Option, none, some, if◌then◌else◌}
use gpuq.Common.Text.{Text, text_eq}
use gpuq.Common.Int.{ℤ}

mutual
  pub data Json : Type 0 where
    null : Json
    bool : Bool → Json
    int : ℤ → Json
    float : ℤ → Json
    str : Text → Json
    arr : Items → Json
    obj : Fields → Json

  pub data Items : Type 0 where
    nil : Items
    cons : Json → Items → Items

  pub data Fields : Type 0 where
    end : Fields
    field : Text → Json → Fields → Fields

-- `d.get(k)`, `none` where the key is missing.
unfoldable pub get_field : Text → Fields → Option Json
unfolding text_eq
get_field k end = none
get_field k (field j v fs) = if text_eq j k then some v else get_field k fs

-- `d[k] = v`: in the place of an old value, else at the end.
unfoldable pub set_field : Text → Json → Fields → Fields
unfolding text_eq
set_field k v end = field k v end
set_field k v (field j w fs) = if text_eq j k then field j v fs else field j w (set_field k v fs)

-- `{k: v for k, v in d.items() if p(k)}`
unfoldable pub select : (Text → Bool) → Fields → Fields
select p end = end
select p (field k v fs) = if p k then field k v (select p fs) else select p fs

-- `{f(k): v for k, v in d.items()}`, where no two keys fall together.
unfoldable pub rename_keys : (Text → Text) → Fields → Fields
rename_keys f end = end
rename_keys f (field k v fs) = field (f k) v (rename_keys f fs)

-- A list of strings, an optional value, and a dict of strings.
unfoldable pub texts : List Text → Items
texts [] = nil
texts (x ∷ xs) = cons (str x) (texts xs)

unfoldable pub or_null {ℓ} : {A : Type ℓ} → (A → Json) → Option A → Json
or_null f none = null
or_null f (some a) = f a

unfoldable pub text_fields : List (Text × Text) → Fields
text_fields [] = end
text_fields ((k, v) ∷ env) = field k (str v) (text_fields env)
