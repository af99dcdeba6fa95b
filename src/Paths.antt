-- ===== src/Paths.antt =====
-- src/gpuq/paths.py: where the daemon keeps its files. pathlib's `Path(s)` and its `/` are fields of a
-- record.
use gpuq.Common.{[], ◌∷◌, Option, none, some}
use gpuq.Common.Text.{Text, text}
use gpuq.Runner.{Env, get_key}

pub record PathLib : Type 1 where
  pub Name : Type 0
  pub of_text : Text → Name
  pub under : Name → Text → Name

-- `none` is the KeyError of an environment without HOME.
module _ (lib : PathLib) where
  abbrev in_home : Option Text → Option lib.Name
  in_home none = none
  in_home (some home) =
      some (lib.under (lib.under (lib.of_text home) (text ".local")) (text "state"))

  unfoldable pub xdg_state_home : Env → Option lib.Name
  xdg_state_home environ = elim (get_key (text "XDG_STATE_HOME") environ) [
    | none ↦ in_home (get_key (text "HOME") environ)
    | some [] ↦ in_home (get_key (text "HOME") environ)
    | some (c ∷ raw) ↦ some (lib.of_text (c ∷ raw))
  ]

  abbrev beneath : Text → Option lib.Name → Option lib.Name
  beneath k none = none
  beneath k (some p) = some (lib.under p k)

  unfoldable pub state_dir : Env → Option lib.Name
  state_dir environ = beneath (text "gpuq") (xdg_state_home environ)

  unfoldable pub socket_path : Env → Option lib.Name
  socket_path environ = beneath (text "gpuq.sock") (state_dir environ)

  unfoldable pub db_path : Env → Option lib.Name
  db_path environ = beneath (text "state.db") (state_dir environ)

  unfoldable pub log_dir : Env → (job_id : Text) → Option lib.Name
  log_dir environ job_id = beneath job_id (beneath (text "logs") (state_dir environ))

  -- The directory that `ensure` makes with its parents.
  unfoldable pub ensured : Env → Option lib.Name
  ensured environ = beneath (text "logs") (state_dir environ)
