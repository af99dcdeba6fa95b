-- ===== src/Tests/Races.antt =====
-- A cancellation during which the job ends and its row is pruned, and the next job starts: the second
-- signal of `_handle_cancel` (src/gpuq/daemon/server.py) goes to the next job's process.
use gpuq.Runner.{Posix, process, signal}
use gpuq.Common.{none, ◌≡◌, refl, [], ◌∷◌, some}
use gpuq.Common.Text.{text}
use gpuq.Common.Int.{pos, negsuc}
use gpuq.Protocol.{Cancel, Signal}
use gpuq.Server.{Server}
use gpuq.Server.Run.{begin_run, finish_run, final_state, exited}
use gpuq.Server.Schedule.{popped}
use gpuq.Server.Repair.{handle_prune}
use gpuq.Server.Cancel.{handle_cancel, cancel_running, wait_terminal}
use gpuq.Tests.Samples.{run_program, server, now, prune_all}

abbrev busy : Server
busy = record server { current_job_id = some (text "j_e") }

abbrev ended : Server
ended = finish_run (exited (negsuc 14) (pos 1)) now (text "j_e") busy

abbrev pruned : Server
pruned = (handle_prune (text "2026-03-01") prune_all ended).after

abbrev moved_on : Server
moved_on = begin_run [] now now (text "j_b") (popped now pruned).1

abbrev request : Cancel
request = record { id = text "j_e"; signal = Signal.term; timeout = pos 10000000 }

-- The cancelled job has ended before the first wait is over, and the next job is killed.
cancel_during_prune :
    (handle_cancel now request
      (record { runner = process none; polls = busy ∷ []; last = moved_on })
      (record { runner = process none; polls = []; last = moved_on })
      busy).signals
    ≡ (text "j_e", Posix.sigterm) ∷ (text "j_b", Posix.sigkill) ∷ []
unfolding run_program finish_run final_state cancel_running wait_terminal signal
cancel_during_prune = refl
