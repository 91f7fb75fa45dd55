-- ===== src/Orderbook/Publish.antt =====
-- Publishing an order's event, and the reconciler's pass over the failed ones (src/util.rs,
-- `update_order_event_stamped`; src/scheduler.rs, `reconcile_orderbook_once`). The answers of the
-- database, the tag builder, the signer and the relays are arguments.
use mostro.Prelude.{ℕ, String, Option, none, some, [], ◌∷◌, leb, if◌then◌else◌}
use mostro.Result.{Result, ok, err}
use mostro.Orderbook.{Registry, Stamp, stamp_locked, try_stamp_orderbook_event_quiescent}
use mostro.Orderbook.Queue.{
  Queue, max_orderbook_republish_attempts, mark_orderbook_publish_failed_at,
  requeue_orderbook_publish_failure, clear_orderbook_publish_failure_up_to,
  take_failed_orderbook_publishes,
}

pub record State : Type 0 where
  pub registry : Registry
  pub queue : Queue

pub data StampPolicy : Type 0 where
  always : Option ℕ → StampPolicy
  if_quiescent : ℕ → StampPolicy

-- What `get_nostr_client` and `send_event` answer.
pub data Sent : Type 0 where
  delivered rejected send_error no_client : Sent

-- The answers that one publication gets: the ratings, whether the status has an event, the clock,
-- the id of the signed event, and the relays'.
pub record Answers : Type 0 where
  pub ratings : Result (Unit {0})
  pub tags : Result (Option (Unit {0}))
  pub now : ℕ
  pub event : Result String
  pub sent : Sent

abbrev pub or_now : Option ℕ → ℕ → ℕ
or_now none now = now
or_now (some t) now = t

-- The stamp that the policy gives.
unfoldable pub stamp_for : StampPolicy → ℕ → ℕ → Registry → Option Stamp × Registry
stamp_for (always created_at) order_id now r =
    let (stamp, r') = stamp_locked r order_id (or_now created_at now) in (some stamp, r')
stamp_for (if_quiescent quiet_secs) order_id now r =
    try_stamp_orderbook_event_quiescent r order_id now quiet_secs

unfoldable pub record_send : Sent → ℕ → ℕ → Queue → Queue
record_send delivered order_id generation q =
    clear_orderbook_publish_failure_up_to order_id generation q
record_send rejected order_id generation q = mark_orderbook_publish_failed_at order_id generation q
record_send send_error order_id generation q =
    mark_orderbook_publish_failed_at order_id generation q
record_send no_client order_id generation q = mark_orderbook_publish_failed_at order_id generation q

-- The part of `update_order_event_stamped` that runs when the status has an event; the answer is
-- the new event id, or `none` where the policy skips.
unfoldable pub publish_event : StampPolicy → ℕ → Answers → State → Result (Option String) × State
publish_event policy order_id a s =
    let (stamp, r) = stamp_for policy order_id a.now s.registry in
    elim stamp [
      | none ↦ (ok none, record s { registry = r })
      | some stamped ↦ elim a.event [
        | err e ↦ (err e, record s { registry = r })
        | ok id ↦ (
          ok (some id),
          record { registry = r; queue = record_send a.sent order_id stamped.generation s.queue },
        )
      ]
    ]

module _ {Order : Type 0} (with_status : Order → Order)
    (with_event_id : String → Order → Order) where
  abbrev pub published : Order → Option String → Option Order
  published order none = none
  published order (some id) = some (with_event_id id (with_status order))

  unfoldable pub update_order_event_stamped :
      StampPolicy → ℕ → Order → Answers → State → Result (Option Order) × State
  update_order_event_stamped policy order_id order a s = elim a.ratings [
    | err e ↦ (err e, s)
    | ok _ ↦ elim a.tags [
      | err e ↦ (err e, s)
      | ok none ↦ (ok (some (with_status order)), s)
      | ok (some _) ↦
          let (r, s') = publish_event policy order_id a s in
          elim r [ err e ↦ (err e, s') | ok id ↦ (ok (published order id), s') ]
    ]
  ]

abbrev pub orderbook_quiescent_secs : ℕ
orderbook_quiescent_secs = 120

-- What the reconciler finds for an order: its row with the answers of its publication, a row with
-- a bad status, no row, or a database error.
pub data Reload : Type 0 where
  reloaded : Answers → Reload
  bad_status missing reload_error : Reload

-- The `match` on the outcome of the republication.
unfoldable pub after_republish : {A : Type 0} → ℕ → ℕ → Result (Option A) × State → State
after_republish order_id generation (ok _, s) = s
after_republish order_id generation (err _, s) = record s {
  queue = mark_orderbook_publish_failed_at order_id generation s.queue;
}

-- One round of the loop of `reconcile_orderbook_once`.
unfoldable pub reconcile_entry : Reload → ℕ → ℕ → ℕ → State → State
reconcile_entry reload order_id generation attempts s =
    if leb max_orderbook_republish_attempts attempts then s else elim reload [
      | reloaded a ↦
          let requeued = record s {
            queue = requeue_orderbook_publish_failure order_id generation attempts s.queue;
          } in
          after_republish order_id generation (
            update_order_event_stamped (λ (o : ℕ). o) (λ _ o. o)
              (if_quiescent orderbook_quiescent_secs) order_id order_id a requeued)
      | bad_status ↦ s
      | missing ↦ s
      | reload_error ↦ record s {
        queue = requeue_orderbook_publish_failure order_id generation attempts s.queue;
      }
    ]

unfoldable pub reconcile_entries : (ℕ → Reload) → Queue → State → State
reconcile_entries reload [] s = s
reconcile_entries reload ((order_id, (generation, attempts)) ∷ rest) s =
    reconcile_entries reload rest (reconcile_entry (reload order_id) order_id generation attempts s)

unfoldable pub reconcile_orderbook_once : (ℕ → Reload) → State → State
reconcile_orderbook_once reload s =
    let (drained, queue) = take_failed_orderbook_publishes s.queue in
    reconcile_entries reload drained (record s { queue = queue })
