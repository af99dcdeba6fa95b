-- ===== src/Server/Cancel/Timed/Ends.antt =====
-- The waits of `_handle_cancel` (src/gpuq/daemon/server.py) end.
use gpuq.Common.{
  ℕ, zero, suc, ◌+◌, ◌-◌, ◌*◌, ◌≤◌, ◌≡◌, refl, ◌∙◌, Bool, true, false, not, ◌&&◌, List, [], ◌∷◌,
  some, ltb, arith, Bool-cases, Option-cases, inl, inr,
}
use gpuq.Common.Text.{Text}
use gpuq.Common.Int.{pos_part}
use gpuq.State.{is_terminal}
use gpuq.State.Jobs.{get, is_active, is_queued}
use gpuq.Protocol.{Cancel}
use gpuq.Server.{Server, jobs}
use gpuq.Server.Repair.{is_current}
use gpuq.Server.Cancel.{
  terminal_at, Wait, not_kill, cancel_running, wait_terminal, handle_cancel, escalate,
}
use gpuq.Server.Cancel.Timed.{
  World, turns, wait_terminal_timed, after_first, cancel_running_timed, handle_cancel_timed,
  second_timeout,
}

-- The servers that a wait sees, from its first turn, after `n` sleeps, to the one before its last.
pub servers : World → (n count : ℕ) → List Server
servers w n zero = []
servers w n (suc count) = w.server_at n ∷ servers w (suc n) count

-- What a wait sees that begins after `n` sleeps and ends after `m`.
abbrev pub seen : World → (n m : ℕ) → Wait
seen w n m = record { runner = w.runner_at n; polls = servers w n (m - n); last = w.server_at m }

-- A wait that begins after `n` sleeps and ends after `m`: the loop's answer, and that of the wait on
-- the servers which it has seen.
record IsOver (w : World) (fuel n : ℕ) (jid : Text) (deadline count : ℕ) : Type 0 where
  m : ℕ
  later : m ≡ n + count
  answer : turns fuel n jid deadline w ≡ some (terminal_at jid (w.server_at m), m)
  same :
      wait_terminal jid (servers w n count) (w.server_at m)
      ≡ (terminal_at jid (w.server_at m), w.server_at m)

turns-over :
    (fuel n : ℕ) (jid : Text) (deadline : ℕ) (w : World)
    → ltb (w.clock n) deadline ≡ true
    → terminal_at jid (w.server_at n) ≡ true
    → turns (suc fuel) n jid deadline w ≡ some (terminal_at jid (w.server_at n), n)
unfolding turns
turns-over fuel n jid deadline w before over = rw before (rw over refl)

turns-going :
    (fuel n : ℕ) (jid : Text) (deadline : ℕ) (w : World)
    → ltb (w.clock n) deadline ≡ true
    → terminal_at jid (w.server_at n) ≡ false
    → turns (suc fuel) n jid deadline w ≡ turns fuel (suc n) jid deadline w
unfolding turns
turns-going fuel n jid deadline w before going = rw before (rw going (ground arith))

module _ (w : World) (step : ℕ) (advances : (n : ℕ) → w.clock n + step ≤ w.clock (suc n)) where
  turns_end :
      (k n : ℕ) (jid : Text) (deadline : ℕ)
      → deadline ≤ w.clock n + k * step
      → (count : ℕ) × (count ≤ k) × IsOver w (suc k) n jid deadline count
  unfolding turns wait_terminal servers
  turns_end zero n jid deadline h =
      (0, omega arith, record { m = n; later = omega arith; answer = ground arith; same = refl })
  turns_end (suc k) n jid deadline h = elim (Bool-cases (ltb (w.clock n) deadline)) [
    | inr past ↦
        (0, omega arith, record { m = n; later = omega arith; answer = rw past refl; same = refl })
    | inl before ↦ elim (Bool-cases (terminal_at jid (w.server_at n))) [
      | inl over ↦ (
        0,
        omega arith,
        record {
          m = n;
          later = omega arith;
          answer = turns-over (suc k) n jid deadline w before over;
          same = rw over refl;
        },
      )
      | inr going ↦
          let (count, few, rest) =
            turns_end k (suc n) jid deadline (omega (arith, advances n, h)) in
          (
            suc count,
            omega arith,
            record {
              m = rest.m;
              later = omega (arith, rest.later);
              answer = turns-going (suc k) n jid deadline w before going ∙ rest.answer;
              same = rw going rest.same;
            },
          )
    ]
  ]

  -- The wait begins after `n` sleeps.
  record IsAnswered (k n : ℕ) (jid : Text) (timeout m : ℕ) : Type 0 where
    since : n ≤ m
    few : m ≤ n + k
    answer : wait_terminal_timed (suc k) n jid timeout w ≡ some (terminal_at jid (w.server_at m), m)
    same :
        wait_terminal jid (seen w n m).polls (seen w n m).last
        ≡ (terminal_at jid (w.server_at m), w.server_at m)

  wait_ends :
      (k n : ℕ) (jid : Text) (timeout : ℕ)
      → w.set_at n ≤ w.clock n
      → timeout ≤ k * step
      → (m : ℕ) × IsAnswered k n jid timeout m
  unfolding wait_terminal_timed
  wait_ends k n jid timeout set h =
      let (count, few, over) = turns_end k n jid (w.set_at n + timeout) (omega (arith, set, h)) in
      let between : over.m - n ≡ count = omega (arith, over.later) in
      (
        over.m,
        record {
          since = omega (arith, over.later);
          few = omega (arith, over.later, few);
          answer = over.answer;
          same = rw between over.same;
        },
      )

  module _ (set_before : (n : ℕ) → w.set_at n ≤ w.clock n) where
    after_first_lem :
        (k : ℕ) (req : Cancel)
        → pos_part req.timeout ≤ k * step
        → (n : ℕ) (ended : Bool)
        → wait_terminal req.id (seen w 0 n).polls (seen w 0 n).last ≡ (ended, w.server_at n)
        → (m : ℕ) × (m ≤ n + k)
          × (after_first (suc k) req w (ended, n)
              ≡ some (cancel_running req (seen w 0 n) (seen w n m)))
    unfolding after_first cancel_running
    after_first_lem k req h n ended first = elim (Bool-cases (not ended && not_kill req.signal)) [
      | inr over ↦ (n, omega arith, rw first (rw over refl))
      | inl again ↦ elim (Option-cases (w.server_at n).current_job_id) [
        | inl idle ↦ (n, omega arith, rw first (rw again (rw (idle, escalate) refl)))
        | inr (c, e) ↦
            let (m, second) =
              wait_ends k n req.id (second_timeout (pos_part req.timeout)) (set_before n)
                (ground (arith, h)) in
            (
              m,
              second.few,
              rw first (rw again (rw (e, escalate) (rw second.answer (rw second.same refl)))),
            )
      ]
    ]

    cancel_running_timed_lem :
        (k : ℕ) (req : Cancel)
        → pos_part req.timeout ≤ k * step
        → (n m : ℕ) × (n ≤ k)
          × (m ≤ n + k)
          × (cancel_running_timed (suc k) req w
              ≡ some (cancel_running req (seen w 0 n) (seen w n m)))
    unfolding cancel_running_timed
    cancel_running_timed_lem k req h =
        let (n, first) = wait_ends k 0 req.id (pos_part req.timeout) (set_before 0) h in
        let (m, few, same) =
          after_first_lem k req h n (terminal_at req.id (w.server_at n)) first.same in
        (n, m, omega (arith, first.few), few, rw first.answer same)

-- The handler of cancel ends, where the clock advances by at least some step at each sleep and the
-- requested timeout is at most k steps, whatever happens meanwhile: with fuel k + 1 for the turns
-- of each wait it returns, and with what the handler does that sees the servers of its polls; the
-- first wait sleeps at most k times, and the second at most k times more.
pub handle_cancel_ends :
    (w : World) (step k : ℕ) (now : Text) (req : Cancel)
    → ((n : ℕ) → w.clock n + step ≤ w.clock (suc n))
    → ((n : ℕ) → w.set_at n ≤ w.clock n)
    → pos_part req.timeout ≤ k * step
    → (n m : ℕ) × (n ≤ k)
      × (m ≤ n + k)
      × (handle_cancel_timed (suc k) now req w
          ≡ some (handle_cancel now req (seen w 0 n) (seen w n m) (w.server_at 0)))
unfolding handle_cancel_timed handle_cancel
handle_cancel_ends w step k now req advances set_before h =
    let s = w.server_at 0 in
    let (n, m, few, then_few, same) = cancel_running_timed_lem w step advances set_before k req h in
    (
      n,
      m,
      few,
      then_few,
      elim (Option-cases (get req.id (jobs s))) [
        | inl absent ↦ rw (absent, handle_cancel, handle_cancel_timed) refl
        | inr (r, g) ↦
            rw (g, handle_cancel, handle_cancel_timed)
              (elim (Bool-cases (is_queued r)) [
                | inl waiting ↦ rw waiting refl
                | inr other ↦
                    rw other
                      (elim (Bool-cases (is_active r && is_current req.id s.current_job_id)) [
                        | inl ours ↦ rw ours same
                        | inr not_ours ↦ rw not_ours (elim (Bool-cases (is_terminal r.state)) [
                          | inl over ↦ rw over refl
                          | inr going ↦ rw going refl
                        ])
                      ])
              ])
      ],
    )
