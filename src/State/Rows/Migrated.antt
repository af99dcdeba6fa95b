-- ===== src/State/Rows/Migrated.antt =====
-- What `Store.init` of src/gpuq/state.py does to a database that is already there.
use gpuq.Common.{◌&&◌, Bool, List, some, if◌then◌else◌}
use gpuq.Common.Text.{Text, text}
use gpuq.State.Rows.{Row, Database, add_column, has_column}

abbrev made : Bool → List Text → List Row → Database
made indexed cols rows = record { columns = some cols; indexed = indexed; rows = rows }

abbrev add_unless : Bool → Text → Database → Database
add_unless b col d = if b then d else add_column col d

abbrev pub has_indexed_columns : Database → Bool
has_indexed_columns d =
    has_column (text "state") d
    && (has_column (text "priority") d && has_column (text "submitted_at") d)
