-- ===== src/Bus.antt =====
-- `class Bus` of src/gpuq/daemon/server.py. A subscription is one asyncio.Queue, named by a number;
-- `none` in it is the end mark that `close` puts.
pub mod Queues
use gpuq.Common.{
  ℕ, suc, List, [], ◌∷◌, ◌++◌, Option, none, some, filter, not, ◌&&◌, if◌then◌else◌, ◌==◌,
}
use gpuq.Common.Text.{Text, text_eq}
use gpuq.Protocol.{Event}

pub record Subscription : Type 0 where
  pub jid : Text
  pub key : ℕ
  pub items : List (Option Event)

pub record Bus : Type 0 where
  pub next_key : ℕ
  pub subs : List Subscription

abbrev pub new_bus : Bus
new_bus = record { next_key = 0; subs = [] }

-- The new queue's key, and the bus with it.
unfoldable pub subscribe : Text → Bus → ℕ × Bus
subscribe jid b = (
  b.next_key,
  record {
    next_key = suc b.next_key;
    subs = b.subs ++ record { jid = jid; key = b.next_key; items = [] } ∷ [];
  },
)

unfoldable pub unsubscribe : Text → ℕ → Bus → Bus
unsubscribe jid key b = record b {
  subs = filter (λ s. not (text_eq s.jid jid && (s.key == key))) b.subs;
}

-- `put_nowait` on each queue of the job.
unfoldable pub put_all : Text → Option Event → List Subscription → List Subscription
put_all jid item [] = []
put_all jid item (s ∷ subs) =
    (if text_eq s.jid jid then record s { items = s.items ++ item ∷ [] } else s)
    ∷ put_all jid item subs

unfoldable pub publish : Text → Event → Bus → Bus
publish jid ev b = record b { subs = put_all jid (some ev) b.subs }

unfoldable pub close : Text → Bus → Bus
close jid b = record b { subs = put_all jid none b.subs }
