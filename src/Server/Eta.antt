-- ===== src/Server/Eta.antt =====
-- `_compute_eta` of src/gpuq/daemon/server.py.
pub mod Bounds
use gpuq.Common.Text.{Text}
use gpuq.Common.{◌∷◌, ℕ, ◌-◌, [], Option, none, some, or_else}
use gpuq.Common.Int.{pos, ◌+ℤ◌, ◌-ℤ◌, times_ℤ, max_ℤ}
use gpuq.State.{JobRecord}
use gpuq.State.Jobs.{get}
use gpuq.Queue.Runtime.{Parser, recent_mean_runtime}
use gpuq.Protocol.{Micros}
use gpuq.Server.{Server, jobs}

-- The age of the current job: 0 if its stamp does not parse.
abbrev pub age : (now : Micros) → Option Micros → Micros
age now none = pos 0
age now (some started) = now -ℤ started

-- What is left of a mean runtime from the stamp of its start. An empty stamp is falsy.
abbrev pub left_since : Parser → (now mean : Micros) → Option Text → Micros
left_since parse now mean none = pos 0
left_since parse now mean (some []) = pos 0
left_since parse now mean (some (c ∷ stamp)) = max_ℤ (mean -ℤ age now (parse (c ∷ stamp))) (pos 0)

abbrev pub remaining_of : Parser → (now mean : Micros) → Option JobRecord → Micros
remaining_of parse now mean none = pos 0
remaining_of parse now mean (some cur) = left_since parse now mean cur.started_at

unfoldable pub running_remaining : Parser → (now mean : Micros) → Server → Micros
running_remaining parse now mean s = elim s.current_job_id [
  | none ↦ pos 0
  | some jid ↦ remaining_of parse now mean (get jid (jobs s))
]

-- `max((pos or 1) - 1, 0)`
abbrev pub ahead : Option ℕ → ℕ
ahead none = 0
ahead (some p) = p - 1

unfoldable pub compute_eta :
    Parser → (now : Micros) → JobRecord → Option ℕ → Server → Option Micros × Option Micros
compute_eta parse now rec pos_in_queue s =
    elim (or_else (recent_mean_runtime parse rec.tag 10 (jobs s))
      (recent_mean_runtime parse [] 10 (jobs s))) [
        | none ↦ (none, none)
        | some mean ↦
            let left = running_remaining parse now mean s in
            (some left, some (left +ℤ times_ℤ (ahead pos_in_queue) mean))
      ]
