-- ===== src/Protocol/Fields.antt =====
-- Looking up keys in the dicts that decode_request of src/gpuq/protocol.py makes.
use gpuq.Common.{
  ◌≡◌, refl, sym, ap, Bool, true, false, not, none, some, Option, or_else, ◌||◌, ◌∙◌, arith,
  Bool-cases, Option-cases, inl, inr, if◌then◌else◌,
}
use gpuq.Common.Text.{Text, text, text_eq, text_eq_sound, text_eq_iff}
use gpuq.Protocol.Json.{Json, Fields, end, field, get_field, set_field, select}
use gpuq.Protocol.Codec.{move_field, without_key, request_kwargs}

-- Equal keys have equal values under any function.
same_key {ℓ} : {A : Type ℓ} (f : Text → A) (j k : Text) → text_eq j k ≡ true → f j ≡ f k
same_key f j k h = ap f (text_eq_sound j k h)

pub get_field-select :
    (k : Text) (p : Text → Bool) (fs : Fields)
    → get_field k (select p fs) ≡ (if p k then get_field k fs else none)
unfolding get_field select
get_field-select k p end = ground arith
get_field-select k p (field j v fs) = elim (Bool-cases (p j)) [
  | inl kept ↦ rw kept (ground (arith, kept, same_key p j k, get_field-select k p fs))
  | inr left ↦ rw left (ground (arith, left, same_key p j k, get_field-select k p fs))
]

get_field-set_field :
    (k j : Text) (v : Json) (fs : Fields)
    → get_field k (set_field j v fs) ≡ (if text_eq j k then some v else get_field k fs)
unfolding get_field set_field
get_field-set_field k j v end = refl
get_field-set_field k j v (field i w fs) =
    ground (arith, text_eq_iff i j, text_eq_iff i k, text_eq_iff j k, get_field-set_field k j v fs)

-- A key that is moved is found under its new name alone.
get_field-move_field :
    (k from to : Text) (fs : Fields)
    → text_eq to from ≡ false
    → get_field k (move_field from to fs) ≡ (
        if text_eq to k
        then or_else (get_field from fs) (get_field to fs)
        else if text_eq from k
        then none
        else get_field k fs)
unfolding move_field
get_field-move_field k from to fs apart = elim (Option-cases (get_field from fs)) [
  | inl absent ↦
      rw (absent, move_field)
        (ground (
          arith,
          absent,
          same_key (λ j. get_field j fs) from k,
          same_key (λ j. get_field j fs) to k,
        ))
  | inr (v, e) ↦
      rw (e, move_field)
        (ground (
          arith,
          get_field-set_field k to v (select (λ j. not (text_eq j from)) fs),
          get_field-select k (λ j. not (text_eq j from)) fs,
          text_eq_iff k from,
          text_eq_iff from k,
          text_eq_iff to from,
        ))
]

-- What a frame gives for a field: the values under "from" and "next" are those of `from_` and
-- `next_`, and come before values under these names themselves.
abbrev pub given : Text → Fields → Option Json
given name fs =
    if text_eq (text "from_") name
    then or_else (get_field (text "from") fs) (get_field (text "from_") fs)
    else if text_eq (text "next_") name
    then or_else (get_field (text "next") fs) (get_field (text "next_") fs)
    else get_field name fs

-- A key of the frame that is no field's name.
abbrev pub is_wire_key : Text → Bool
is_wire_key k = text_eq (text "op") k || (text_eq (text "from") k || text_eq (text "next") k)

moved_from :
    (name : Text) (fs : Fields)
    → get_field name (move_field (text "from") (text "from_") (without_key (text "op") fs)) ≡ (
        if text_eq (text "from_") name
        then or_else (get_field (text "from") fs) (get_field (text "from_") fs)
        else if text_eq (text "from") name
        then none
        else if text_eq name (text "op")
        then none
        else get_field name fs)
unfolding without_key
moved_from name fs =
    get_field-move_field name (text "from") (text "from_") (without_key (text "op") fs)
      (unfold text_eq in refl)
    ∙ ground (
      arith,
      get_field-select (text "from") (λ k. not (text_eq k (text "op"))) fs,
      get_field-select (text "from_") (λ k. not (text_eq k (text "op"))) fs,
      get_field-select name (λ k. not (text_eq k (text "op"))) fs,
    )

abbrev moved : Fields → Fields
moved fs = move_field (text "from") (text "from_") (without_key (text "op") fs)

moved_next : (fs : Fields) → get_field (text "next") (moved fs) ≡ get_field (text "next") fs
moved_next fs = moved_from (text "next") fs ∙ (unfold text_eq in refl)

moved_next_ : (fs : Fields) → get_field (text "next_") (moved fs) ≡ get_field (text "next_") fs
moved_next_ fs = moved_from (text "next_") fs ∙ (unfold text_eq in refl)

-- No name is both.
apart : (name : Text) → text_eq (text "next_") name ≡ true → text_eq (text "from_") name ≡ false
apart name h =
    sym (same_key (text_eq (text "from_")) (text "next_") name h) ∙ (unfold text_eq in refl)

pub get_field-request_kwargs :
    (name : Text) (fs : Fields)
    → is_wire_key name ≡ false
    → get_field name (request_kwargs fs) ≡ given name fs
unfolding request_kwargs
get_field-request_kwargs name fs plain =
    get_field-move_field name (text "next") (text "next_") (moved fs) (unfold text_eq in refl)
    ∙ ground (
      arith,
      moved_next fs,
      moved_next_ fs,
      moved_from name fs,
      plain,
      apart name,
      text_eq_iff (text "op") name,
      text_eq_iff name (text "op"),
    )
