-- ===== src/Server/Attach/Waits.antt =====
-- What a client is sent that follows a job which has ended (`_handle_attach` of
-- src/gpuq/daemon/server.py): nothing, whatever the daemon does.
use mathlib.Core.Option
use gpuq.Common.{ℕ, ◌≡◌, refl, Bool, true, false, [], Option, Option-cases, none, some, inl, inr}
use gpuq.Common.Text.{Text, text, text_eq}
use gpuq.State.{is_terminal, JobRecord}
use gpuq.State.Jobs.{get, next_queued}
use gpuq.State.Over.{get-IsOver, update_other-IsOver, next_queued_other}
use gpuq.Queue
use gpuq.Queue.{Queue, start_change}
use gpuq.Bus
use gpuq.Bus.{Bus, subscribe}
use gpuq.Bus.Queues.{queue_of, queue_of-append_new}
use gpuq.Protocol.{Attach}
use gpuq.Server.{Server, jobs}
use gpuq.Server.Stream.{stream_until_terminal}
use gpuq.Server.Repair.{is_current}
use gpuq.State.Keys.{IsKeyed}
use gpuq.Logs.{JobLogs}
use gpuq.Server.Run.{note_pid, mirror_line, pid_change, crashed}
use gpuq.Server.Serial.{owner}
use gpuq.Server.Schedule.{System, Step, popped, after_pop, stop_flags}
use gpuq.Server.Attach.{handle_attach}
use gpuq.Server.Attach.Ran.{
  begin_run-IsSilent, abort_run-IsSilent, finish_run-IsSilent, grant-IsSilent, stop_flags-IsSilent,
}
use gpuq.Server.Attach.Silent.{IsSilent, spares_client, publish-silent, Client-IsSilent}

-- The step is none of a client's that draws the job's id or ends the subscription.
abbrev pub spares : (j : Text) (key : ℕ) {w v : System} → Step w v → Bool
spares j key (Step.client c e) = spares_client j key c
spares j key _ = true

-- Any such steps.
pub data Spared (j : Text) (key : ℕ) (w : System) : System → Type 0 where
  at_first : Spared j key w w
  then_step :
      {u v : System}
      → Spared j key w u
      → (st : Step u v) → spares j key st ≡ true
      → Spared j key w v

module _ (j : Text) (key : ℕ) where
  -- And the scheduler is not at the job.
  record IsAloof (w : System) : Type 0 where
    apart : is_current j (owner w.pc) ≡ false
    silence : IsSilent j key w.server

  popped-IsAloof :
      (now : Text) (s : Server)
      → IsSilent j key s
      → (is_current j (owner (after_pop (popped now s).0)) ≡ false)
        × IsSilent j key (popped now s).1
  unfolding Queue.pop
  popped-IsAloof now s v = elim (Option-cases (next_queued (jobs s))) [
    | inl empty ↦ rw (empty, Queue.pop) (refl, record { over = v.over; silent = v.silent })
    | inr (r, e) ↦
        let other = next_queued_other j (jobs s) r e v.over in
        rw (e, Queue.pop)
          (
            other,
            record {
              over = update_other-IsOver j r.id (start_change now) (jobs s) other v.over;
              silent = v.silent;
            },
          )
  ]

  Step-IsAloof : {w v : System} (st : Step w v) → spares j key st ≡ true → IsAloof w → IsAloof v
  Step-IsAloof {w} (Step.client c e) h a =
      rw e (record { apart = a.apart; silence = Client-IsSilent j key c h a.silence })
  Step-IsAloof {w} (Step.see_lease p n s l e) h a =
      rw e (record { apart = refl; silence = a.silence })
  Step-IsAloof {w} (Step.lease_over p l e) h a = rw e (record { apart = refl; silence = a.silence })
  Step-IsAloof {w} (Step.pop now p m e) h a =
      let (apart, silence) = popped-IsAloof now w.server a.silence in
      rw e (record { apart = apart; silence = silence })
  Step-IsAloof {w} (Step.begin jid models now shown p e) h a =
      let other : text_eq jid j ≡ false = rw p at a.apart in
      rw e (record {
        apart = other;
        silence = begin_run-IsSilent j key models now shown jid w.server other a.silence;
      })
  Step-IsAloof {w} (Step.abort jid models now p e) h a =
      let other : text_eq jid j ≡ false = rw p at a.apart in
      rw e (record {
        apart = refl;
        silence = abort_run-IsSilent j key models now jid w.server other a.silence;
      })
  Step-IsAloof {w} (Step.pid jid n p e) h a =
      let other : text_eq jid j ≡ false = rw p at a.apart in
      rw e (record {
        apart = a.apart;
        silence =
            unfold note_pid in
            record {
              over = update_other-IsOver j jid (pid_change n) (jobs w.server) other a.silence.over;
              silent = a.silence.silent;
            };
      })
  Step-IsAloof {w} (Step.line jid stream text p e) h a =
      let other : text_eq jid j ≡ false = rw p at a.apart in
      rw e (record {
        apart = a.apart;
        silence =
            unfold mirror_line Bus.publish in
            record {
              over = a.silence.over;
              silent = publish-silent j key jid _ w.server.bus other a.silence.silent;
            };
      })
  Step-IsAloof {w} (Step.finish jid r now p e) h a =
      let other : text_eq jid j ≡ false = rw p at a.apart in
      rw e (record {
        apart = refl;
        silence = finish_run-IsSilent j key r now jid w.server other a.silence;
      })
  Step-IsAloof {w} (Step.lease_pass req m e) h a =
      rw e (record { apart = a.apart; silence = a.silence })
  Step-IsAloof {w} (Step.lease_grant before rest req lid now g e) h a =
      rw e
        (record { apart = a.apart; silence = grant-IsSilent j key lid now req w.server a.silence })
  Step-IsAloof {w} (Step.stop_idle p e) h a =
      rw e (record { apart = refl; silence = stop_flags-IsSilent j key w.server a.silence })
  Step-IsAloof {w} (Step.stop_evicting jid p e) h a =
      let other : text_eq jid j ≡ false = rw p at a.apart in
      rw e (record { apart = other; silence = stop_flags-IsSilent j key w.server a.silence })
  Step-IsAloof {w} (Step.stop_mirroring jid p e) h a =
      let other : text_eq jid j ≡ false = rw p at a.apart in
      rw e (record { apart = other; silence = stop_flags-IsSilent j key w.server a.silence })
  Step-IsAloof {w} (Step.stop_running jid now p e) h a =
      let other : text_eq jid j ≡ false = rw p at a.apart in
      rw e (record {
        apart = refl;
        silence =
            finish_run-IsSilent j key crashed now jid (stop_flags w.server) other
              (stop_flags-IsSilent j key w.server a.silence);
      })

  Spared-IsAloof : {w v : System} → Spared j key w v → IsAloof w → IsAloof v
  Spared-IsAloof at_first a = a
  Spared-IsAloof (then_step r st h) a = Step-IsAloof st h (Spared-IsAloof r a)

-- A client attaches, with `follow`, to a job that has ended, on a table with distinct ids, while the
-- scheduler is not at that job and the key of the subscription is new. Whatever steps follow, as
-- long as no submission or retry draws the job's id and the subscription is not ended: the client
-- is sent no event from its queue, and its stream does not end.
pub attach_waits :
    (logs : Option JobLogs) (req : Attach) (r : JobRecord) (w : System) {v : System}
    → IsKeyed (jobs w.server)
    → get req.id (jobs w.server) ≡ some r
    → is_terminal r.state ≡ true
    → is_current req.id (owner w.pc) ≡ false
    → req.follow ≡ true
    → queue_of req.id w.server.bus.next_key w.server.bus.subs ≡ none
    → Spared req.id w.server.bus.next_key
        (record w { server = (handle_attach logs req w.server).after })
        v
    → Option.map stream_until_terminal (queue_of req.id w.server.bus.next_key v.server.bus.subs)
      ≡ some ([], false)
unfolding handle_attach stream_until_terminal subscribe
attach_waits logs req r w {v} k g over apart follow new steps =
    let s = w.server in
    let silence : IsSilent req.id s.bus.next_key (handle_attach logs req s).after = record {
      over = get-IsOver req.id (jobs s) r k g over;
      silent = rw follow (queue_of-append_new req.id s.bus.next_key s.bus.subs new);
    } in
    let kept =
      Spared-IsAloof req.id s.bus.next_key steps (record { apart = apart; silence = silence }) in
    rw (kept.silence.silent) refl
