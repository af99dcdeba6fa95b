-- ===== src/Bus/Queues.antt =====
-- One subscription's queue under the operations of `class Bus` of src/gpuq/daemon/server.py.
use gpuq.Common.{
  ℕ, ◌≡◌, refl, Bool, false, not, ◌&&◌, List, [], ◌∷◌, ◌++◌, Option, none, some, arith, filter,
  if◌then◌else◌, ◌==◌,
}
use gpuq.Common.Text.{Text, text_eq, text_eq_iff, text_eq_refl}
use gpuq.Protocol.{Event}
use gpuq.Bus.{Subscription, put_all}

abbrev pub is_sub : Text → ℕ → Subscription → Bool
is_sub jid key s = text_eq s.jid jid && (s.key == key)

-- What was put into the queue of the subscription with this job and key.
unfoldable pub queue_of : Text → ℕ → List Subscription → Option (List (Option Event))
queue_of jid key [] = none
queue_of jid key (s ∷ subs) = if is_sub jid key s then some s.items else queue_of jid key subs

pub queue_of-put_all :
    (jid j : Text) (key : ℕ) (item : Option Event) (subs : List Subscription)
    → text_eq jid j ≡ false
    → queue_of j key (put_all jid item subs) ≡ queue_of j key subs
unfolding queue_of put_all
queue_of-put_all jid j key item [] h = refl
queue_of-put_all jid j key item (s ∷ subs) h = ground (
  arith,
  queue_of-put_all jid j key item subs h,
  text_eq_iff s.jid jid,
  text_eq_iff s.jid j,
  text_eq_iff jid j,
  h,
)

pub queue_of-append :
    (j : Text) (key : ℕ) (subs more : List Subscription) {items : List (Option Event)}
    → queue_of j key subs ≡ some items
    → queue_of j key (subs ++ more) ≡ some items
unfolding queue_of
queue_of-append j key [] more h = cc
queue_of-append j key (s ∷ subs) more {items} h =
    ground (arith, queue_of-append j key subs more {items = items})

pub queue_of-append_new :
    (j : Text) (key : ℕ) (subs : List Subscription)
    → queue_of j key subs ≡ none
    → queue_of j key (subs ++ record { jid = j; key = key; items = [] } ∷ []) ≡ some []
unfolding queue_of
queue_of-append_new j key [] h = ground (arith, text_eq_refl j)
queue_of-append_new j key (s ∷ subs) h = ground (arith, queue_of-append_new j key subs)

pub queue_of-unsubscribe :
    (jid j : Text) (k key : ℕ) (subs : List Subscription)
    → text_eq jid j && (k == key) ≡ false
    → queue_of j key (filter (λ s. not (text_eq s.jid jid && (s.key == k))) subs)
      ≡ queue_of j key subs
unfolding queue_of
queue_of-unsubscribe jid j k key [] h = refl
queue_of-unsubscribe jid j k key (s ∷ subs) h = ground (
  arith,
  queue_of-unsubscribe jid j k key subs h,
  text_eq_iff s.jid jid,
  text_eq_iff s.jid j,
  text_eq_iff jid j,
  h,
)
