-- ===== src/Server/Repair/Kept.antt =====
-- What `_handle_doctor` and `_handle_prune` of src/gpuq/daemon/server.py keep: whatever the failing of a
-- job and the deleting of a job keep.
use gpuq.Common.{[], ◌∷◌, Option-cases, Bool-cases, inl, inr}
use gpuq.Common.Text.{Text}
use gpuq.State.{JobRecord, Table}
use gpuq.State.Jobs.{update_state}
use gpuq.Protocol.{Doctor, Prune}
use gpuq.Server.{Server, jobs, with_jobs, lost_change}
use gpuq.Server.Repair.{
  Surroundings, handle_doctor, treat, examine, candidates, signature_of, handle_prune, sweep,
  delete_job, is_pruned, is_current, prune_candidates,
}

module _ {κ} (P : Server → Type κ) where
  module _
      (fails : (jid now : Text) (s : Server)
        → P s
        → P (with_jobs s (update_state jid (lost_change now) (jobs s))))
      (w : Surroundings) (req : Doctor) where
    treat-keeps : (j : JobRecord) (sig : Text) (s : Server) → P s → P (treat w req j sig s).1
    unfolding treat
    treat-keeps j sig s h = elim (Bool-cases req.fix) [
      | inr report ↦ rw report h
      | inl fix ↦ elim (Bool-cases (is_current j.id s.current_job_id)) [
        | inl current ↦ rw fix (rw current h)
        | inr lost ↦ rw fix (rw lost (fails j.id (w.clock j.id) s h))
      ]
    ]

    examine-keeps : (rows : Table) (s : Server) → P s → P (examine w req rows s).1
    unfolding examine
    examine-keeps [] s h = h
    examine-keeps (j ∷ rows) s h = elim (Option-cases (signature_of w req j)) [
      | inl well ↦ rw (well, examine) (examine-keeps rows s h)
      | inr (sig, e) ↦
          rw (e, examine) (examine-keeps rows (treat w req j sig s).1 (treat-keeps j sig s h))
    ]

    pub handle_doctor-keeps : (s : Server) → P s → P (handle_doctor w req s).after
    unfolding handle_doctor
    handle_doctor-keeps s h = examine-keeps (candidates req s) s h

  module _ (deletes : (jid : Text) (s : Server) → P s → P (delete_job jid s)) (cutoff : Text)
      (req : Prune) where
    sweep-keeps : (rows : Table) (s : Server) → P s → P (sweep cutoff req rows s).1
    unfolding sweep
    sweep-keeps [] s h = h
    sweep-keeps (j ∷ rows) s h = elim (Bool-cases (is_pruned cutoff req j)) [
      | inr kept ↦ rw kept (sweep-keeps rows s h)
      | inl old ↦ elim (Bool-cases req.dry_run) [
        | inl dry ↦ rw old (rw dry (sweep-keeps rows s h))
        | inr real ↦ rw old (rw real (sweep-keeps rows (delete_job j.id s) (deletes j.id s h)))
      ]
    ]

    pub handle_prune-keeps : (s : Server) → P s → P (handle_prune cutoff req s).after
    unfolding handle_prune
    handle_prune-keeps s h = sweep-keeps (prune_candidates req s) s h
