-- ===== src/State/Leases.antt =====
-- `class LeaseRepo` of src/gpuq/state.py.
use gpuq.Common.{List, [], ◌∷◌, ◌++◌, Option, none, some, if◌then◌else◌, is_some}
use gpuq.Common.Text.{Text, text_eq}
use gpuq.State.{LeaseRecord}

unfoldable pub get_lease : Text → List LeaseRecord → Option LeaseRecord
get_lease lid [] = none
get_lease lid (r ∷ t) = if text_eq r.id lid then some r else get_lease lid t

-- `none` is the IntegrityError of a second row with the id.
unfoldable pub insert_lease : LeaseRecord → List LeaseRecord → Option (List LeaseRecord)
insert_lease r t = if is_some (get_lease r.id t) then none else some (t ++ r ∷ [])

unfoldable pub release : Text → Text → List LeaseRecord → List LeaseRecord
release lid when [] = []
release lid when (r ∷ t) =
    (if text_eq r.id lid then record r { released_at = some when } else r) ∷ release lid when t
