-- ===== src/State/Rows/LeaseRows.antt =====
-- The rows of the table `leases` of src/gpuq/state.py as SQLite keeps them.
use gpuq.Common.{◌≡◌, refl, List, [], ◌∷◌, map, Option, some, ◌>>=◌}
use gpuq.Common.Text.{Text, text, text_eq}
use gpuq.State.{LeaseRecord}
use gpuq.State.Rows.{Row, Cell, get_cell, cell_of, string, as_string, as_opt_string}
use gpuq.State.Rows.RoundTrip.{as_opt_string-cell_of}

-- The columns of `leases` in `_SCHEMA`.
abbrev lease_columns : List Text
lease_columns =
    text "id" ∷ text "reason" ∷ text "granted_at" ∷ text "expires_at" ∷ text "released_at" ∷ []

-- The columns and values of the INSERT.
unfoldable pub lease_to_row : LeaseRecord → Row
lease_to_row lr =
    (text "id", string lr.id)
    ∷ (text "reason", cell_of string lr.reason)
    ∷ (text "granted_at", cell_of string lr.granted_at)
    ∷ (text "expires_at", cell_of string lr.expires_at)
    ∷ (text "released_at", cell_of string lr.released_at)
    ∷ []

-- `_row_to_lease`
unfoldable pub row_to_lease : Row → Option LeaseRecord
row_to_lease r = do
  id ← get_cell (text "id") r >>= as_string
  reason ← get_cell (text "reason") r >>= as_opt_string
  granted ← get_cell (text "granted_at") r >>= as_opt_string
  expires ← get_cell (text "expires_at") r >>= as_opt_string
  released ← get_cell (text "released_at") r >>= as_opt_string
  some (record {
    id = id;
    reason = reason;
    granted_at = granted;
    expires_at = expires;
    released_at = released;
  })

-- The row that the INSERT writes has the table's columns, and reads back as the lease.
row_to_lease-lease_to_row :
    (lr : LeaseRecord)
    → (map (λ (c : Text × Cell). c.0) (lease_to_row lr) ≡ lease_columns)
      × (row_to_lease (lease_to_row lr) ≡ some lr)
unfolding row_to_lease lease_to_row get_cell text_eq
row_to_lease-lease_to_row lr = (
  refl,
  rw (as_opt_string-cell_of lr.reason) (
      rw (as_opt_string-cell_of lr.granted_at) (
        rw (as_opt_string-cell_of lr.expires_at) (rw (as_opt_string-cell_of lr.released_at) refl))),
)
