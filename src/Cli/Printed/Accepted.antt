-- ===== src/Cli/Printed/Accepted.antt =====
-- What `bump` and `retry` print and exit with, for what the daemon does.
use gpuq.Common.{
  ◌≡◌, refl, ◌↔◌, inl, inr, true, Bool-cases, Option-cases, [], ◌∷◌, ◌++◌, none, some, head?,
  if◌then◌else◌,
}
use gpuq.Common.Text.{Text, text}
use gpuq.Common.Int.{pos}
use gpuq.State.{JobRecord, state_name}
use gpuq.State.Jobs.{is_queued, get, bump}
use gpuq.State.Keys.{get-append_new}
use gpuq.Protocol.{Retry}
use gpuq.Server.{Server, jobs}
use gpuq.Server.Inspect.{handle_bump}
use gpuq.Server.Submit.{handle_retry, retry_allowed, retry_record, retry_enqueue}
use gpuq.Server.Submit.Stored.{enqueue_fresh}
use gpuq.State.Priority.{bump_iff}
use gpuq.Cli.Printed.{Printed, printed, bump_printed, retry_printed}

bump_code :
    (id : Text) (s : Server)
    → (bump_printed id (head? (handle_bump id s).sent)).code
      ≡ (if (bump id (jobs s)).0 then pos 0 else pos 1)
unfolding bump_printed handle_bump
bump_code id s = elim (Bool-cases (bump id (jobs s)).0) [
  | inl done ↦ rw (done, handle_bump) refl
  | inr refused ↦ rw (refused, handle_bump) refl
]

-- `gpuq bump` exits with 0 exactly if the job was in the table and queued when the daemon answered.
pub bump_exit :
    (id : Text) (s : Server)
    → ((bump_printed id (head? (handle_bump id s).sent)).code ≡ pos 0)
      ↔ ((r : JobRecord) × (get id (jobs s) ≡ some r) × (is_queued r ≡ true))
bump_exit id s = elim (Bool-cases (bump id (jobs s)).0) [
  | inl done ↦ rw (bump_code id s) (rw done (λ h. (bump_iff id (jobs s)).0 done, λ h. refl))
  | inr refused ↦
      rw (bump_code id s)
        (rw refused (λ h. cc, λ (r, g, q). let done = (bump_iff id (jobs s)).1 (r, g, q) in cc))
]

abbrev pub refusal : Text → Text → Printed
refusal id reason = record {
  out = [];
  err = (text "[gpuq] could not retry " ++ id ++ text ": " ++ reason) ∷ [];
  code = pos 1;
}

retry_enqueue-printed :
    (id : Text) (j : JobRecord) (s : Server)
    → get j.id (jobs s) ≡ none
    → retry_printed id (head? (retry_enqueue j.id j s).sent) ≡ printed (j.id ∷ [])
unfolding retry_printed retry_enqueue
retry_enqueue-printed id j s fresh =
    rw (enqueue_fresh j s.queue fresh, retry_enqueue) (rw (get-append_new (jobs s) j fresh) refl)

-- `gpuq retry` under a fresh id: if the job is known and its state allows a retry, the command prints
-- the new job's id and exits with 0. Otherwise it prints nothing on stdout, names the state of a known
-- job on stderr, and exits with 1.
pub retry_exit :
    (jid now : Text) (req : Retry) (s : Server)
    → get jid (jobs s) ≡ none
    → retry_printed req.id (head? (handle_retry jid now req s).sent) ≡ elim (get req.id (jobs s)) [
      | none ↦ refusal req.id (text "unknown")
      | some r ↦
          if retry_allowed req.force r.state
          then printed (jid ∷ [])
          else refusal req.id (text "state=" ++ state_name r.state)
    ]
unfolding handle_retry retry_record
retry_exit jid now req s fresh = elim (Option-cases (get req.id (jobs s))) [
  | inl unknown ↦ rw (unknown, handle_retry) (unfold retry_printed in refl)
  | inr (r, g) ↦
      rw (g, handle_retry)
        (elim (Bool-cases (retry_allowed req.force r.state)) [
          | inl allowed ↦ rw allowed (retry_enqueue-printed req.id (retry_record jid now r) s fresh)
          | inr refused ↦ rw refused (unfold retry_printed in refl)
        ])
]
