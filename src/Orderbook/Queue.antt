-- ===== src/Orderbook/Queue.antt =====
-- The queue of orders whose last publication failed (src/util.rs): by order id, the newest
-- generation that failed and the number of attempts, a `u8`.
use mostro.Prelude.{ℕ, ◌+◌, max, min, Option, none, some, [], leb, if◌then◌else◌}
use mostro.Prelude.Equality.{nat_eq}
use mostro.Prelude.Map.{Map, lookup, insert, remove}

abbrev pub Queue : Type 0
Queue = Map ℕ (ℕ × ℕ)

abbrev pub max_orderbook_republish_attempts : ℕ
max_orderbook_republish_attempts = 5

-- `entry(order_id).or_insert(fallback)`
abbrev pub or_insert : ℕ × ℕ → Option (ℕ × ℕ) → ℕ × ℕ
or_insert fallback none = fallback
or_insert fallback (some entry) = entry

unfoldable pub mark_orderbook_publish_failed_at : ℕ → ℕ → Queue → Queue
mark_orderbook_publish_failed_at order_id generation queue =
    let (failed_at, attempts) = or_insert (generation, 0) (lookup order_id queue) in
    insert order_id (max failed_at generation, min (attempts + 1) 255) queue

unfoldable pub requeue_orderbook_publish_failure : ℕ → ℕ → ℕ → Queue → Queue
requeue_orderbook_publish_failure order_id generation attempts queue =
    let (failed_at, tried) = or_insert (generation, attempts) (lookup order_id queue) in
    insert order_id (max failed_at generation, max tried attempts) queue

unfoldable pub clear_orderbook_publish_failure_up_to : ℕ → ℕ → Queue → Queue
clear_orderbook_publish_failure_up_to order_id generation queue = elim (lookup order_id queue) [
  | none ↦ queue
  | some (failed_at, attempts) ↦ if leb failed_at generation then remove order_id queue else queue
]

-- The drained entries, and the queue that is left.
unfoldable pub take_failed_orderbook_publishes : Queue → Queue × Queue
take_failed_orderbook_publishes queue = (queue, [])
