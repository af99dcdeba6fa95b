-- ===== src/Queue/Runtime/Wedge.antt =====
-- Which jobs `wedge_signature` finds wedged.
use gpuq.Common.{
  ℕ, ◌≡◌, ◌↔◌, ◌⊎◌, refl, ap, sym, ◌∙◌, Bool, true, false, Option, none, some, arith, Option-cases,
  Bool-cases, inl, inr,
}
use gpuq.Common.Text.{Text, text}
use gpuq.Common.Int.{◌-ℤ◌, ltb_ℤ}
use gpuq.State.{running, state_eq, JobRecord}
use gpuq.Protocol.{Micros}
use gpuq.Queue.Runtime.{Parser, wedge_signature, wedge_started, wedge_pid, has_output}

module _ (parse : Parser) (log_size : Option ℕ) (now min_age : Micros) (alive : ℕ → Bool) where
  -- A running job that started long enough ago, has written nothing, and has no live process; the
  -- signature says whether it has a pid at all.
  pub record IsWedged (job : JobRecord) (sig : Text) : Type 0 where
    pub stamp : Text
    pub started : Micros
    pub runs : state_eq job.state running ≡ true
    pub stamped : job.started_at ≡ some stamp
    pub parsed : parse stamp ≡ some started
    pub old : ltb_ℤ (now -ℤ started) min_age ≡ false
    pub silent : has_output log_size ≡ false
    pub dead :
        ((job.pid ≡ none) × (sig ≡ text "wedged-no-pid"))
        ⊎ ((pid : ℕ) × (job.pid ≡ some pid) × (alive pid ≡ false) × (sig ≡ text "wedged-dead-pid"))

  wedge_pid-dead :
      (p : Option ℕ) (sig : Text)
      → wedge_pid alive p ≡ some sig
      → ((p ≡ none) × (sig ≡ text "wedged-no-pid"))
        ⊎ ((pid : ℕ) × (p ≡ some pid) × (alive pid ≡ false) × (sig ≡ text "wedged-dead-pid"))
  unfolding wedge_pid
  wedge_pid-dead none sig = λ h. inl (refl, cc)
  wedge_pid-dead (some pid) sig = elim (Bool-cases (alive pid)) [
    | inl lives ↦ rw lives (λ h. cc)
    | inr died ↦ rw died (λ h. inr (pid, refl, died, cc))
  ]

  wedge_started-IsWedged :
      (job : JobRecord) (sig stamp : Text) (started : Micros)
      → state_eq job.state running ≡ true
      → job.started_at ≡ some stamp
      → parse stamp ≡ some started
      → wedge_started log_size now min_age alive job (some started) ≡ some sig
      → IsWedged job sig
  unfolding wedge_started
  wedge_started-IsWedged job sig stamp started r s p =
      elim (Bool-cases (ltb_ℤ (now -ℤ started) min_age)) [
        | inl young ↦ rw (young, wedge_started) (λ h. cc)
        | inr old ↦ elim (Bool-cases (has_output log_size)) [
          | inl spoke ↦ rw (old, wedge_started) (rw (spoke, wedge_started) (λ h. cc))
          | inr silent ↦
              rw (old, wedge_started)
                (rw (silent, wedge_started)
                  (λ h. record {
                    stamp = stamp;
                    started = started;
                    runs = r;
                    stamped = s;
                    parsed = p;
                    old = old;
                    silent = silent;
                    dead = wedge_pid-dead job.pid sig h;
                  }))
        ]
      ]

  IsWedged-dead :
      (job : JobRecord) (sig : Text) → IsWedged job sig → wedge_pid alive job.pid ≡ some sig
  unfolding wedge_pid
  IsWedged-dead job sig w = elim (w.dead) [
    | inl (no_pid, e) ↦ rw (no_pid, wedge_pid) (rw e refl)
    | inr (pid, has_pid, died, e) ↦ rw (has_pid, wedge_pid) (rw (died, wedge_pid) (rw e refl))
  ]

  wedge_signature-started :
      (job : JobRecord) (stamp : Text)
      → job.started_at ≡ some stamp
      → state_eq job.state running ≡ true
      → wedge_signature parse log_size now min_age alive job
        ≡ wedge_started log_size now min_age alive job (parse stamp)
  unfolding wedge_signature
  wedge_signature-started job stamp s r = ground (arith, s, r)

  wedge_signature-IsWedged :
      (job : JobRecord) (sig : Text)
      → wedge_signature parse log_size now min_age alive job ≡ some sig
      → IsWedged job sig
  unfolding wedge_signature wedge_started
  wedge_signature-IsWedged job sig h = elim (Option-cases job.started_at) [
    | inl absent ↦
        let unstarted : wedge_signature parse log_size now min_age alive job ≡ none =
          rw (absent, wedge_signature) refl in
        cc
    | inr (stamp, s) ↦ elim (Bool-cases (state_eq job.state running)) [
      | inr other ↦
          let not_running : wedge_signature parse log_size now min_age alive job ≡ none =
            rw (s, wedge_signature) (rw other refl) in
          cc
      | inl r ↦
          let path = wedge_signature-started job stamp s r in
          elim (Option-cases (parse stamp)) [
            | inl bad ↦ let unparsed = ap (wedge_started log_size now min_age alive job) bad in cc
            | inr (started, p) ↦
                wedge_started-IsWedged job sig stamp started r s p
                  (sym (path ∙ ap (wedge_started log_size now min_age alive job) p) ∙ h)
          ]
    ]
  ]

  IsWedged-signature :
      (job : JobRecord) (sig : Text)
      → IsWedged job sig
      → wedge_signature parse log_size now min_age alive job ≡ some sig
  unfolding wedge_started
  IsWedged-signature job sig w =
      wedge_signature-started job w.stamp w.stamped w.runs
      ∙ (ap (wedge_started log_size now min_age alive job) w.parsed
          ∙ rw (w.old) (rw (w.silent) (IsWedged-dead job sig w)))

  -- A job gets a signature exactly if it is wedged: it runs, its start is parsed and long enough ago,
  -- its log is empty or missing, and it has no pid or the pid of no live process; the signature says
  -- which.
  pub wedge_signature_iff :
      (job : JobRecord) (sig : Text)
      → (wedge_signature parse log_size now min_age alive job ≡ some sig) ↔ IsWedged job sig
  wedge_signature_iff job sig = (wedge_signature-IsWedged job sig, IsWedged-signature job sig)
