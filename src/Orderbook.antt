-- ===== src/Orderbook.antt =====
-- The order book's publication state: the registry that stamps revisions of replaceable events
-- and the queue of failed publications (src/util.rs, src/scheduler.rs). A `Uuid` is its number.
pub mod Queue
pub mod Publish
pub mod Stamps
pub mod Failures
pub mod Attempts
mod Tests
use mostro.Prelude.{
  ℕ, suc, ◌+◌, ◌%◌, ◌^◌, ◌≤◌, max, Bool, true, Option, none, some, [], ltb, leb, if◌then◌else◌,
  length, min,
}
use mostro.Prelude.Equality.{Eq, nat_eq}
use mostro.Prelude.Map.{Map, lookup, insert, retain}

-- `u64` arithmetic wraps.
abbrev pub u64 : ℕ → ℕ
u64 n = n % 2 ^ 64

abbrev pub order_ts_max_age_secs : ℕ
order_ts_max_age_secs = 172800

abbrev pub order_ts_prune_threshold : ℕ
order_ts_prune_threshold = 16384

-- `OrderbookRegistry`
pub record Registry : Type 0 where
  pub last_ts : Map ℕ ℕ
  pub generation : ℕ

-- `OrderbookStamp`
pub record Stamp : Type 0 where
  pub created_at : ℕ
  pub generation : ℕ

abbrev pub initial : Registry
initial = record { last_ts = []; generation = 0 }

-- The `match` that opens `monotonic_created_at`.
abbrev pub bumped : ℕ → Option ℕ → ℕ
bumped candidate none = candidate
bumped candidate (some last) = max candidate (u64 (last + 1))

-- The test of the closure that `retain` is given.
abbrev pub is_recent : ℕ → ℕ → Bool
is_recent effective ts = ltb effective (u64 (ts + order_ts_max_age_secs))

-- Generic over the key: the order registry is keyed by order id, the dispute registry by `d` tag.
module _ {K : Type 0} ⦃e : Eq K⦄ where
  -- What is left once the map has grown past the threshold.
  unfoldable pub pruned : ℕ → Map K ℕ → Map K ℕ
  pruned effective last_ts =
      if leb order_ts_prune_threshold (length last_ts)
      then retain (λ _ ts. is_recent effective ts) last_ts
      else last_ts

  unfoldable pub monotonic_created_at : Map K ℕ → K → ℕ → ℕ × Map K ℕ
  monotonic_created_at last_ts key candidate =
      let effective = bumped candidate (lookup key last_ts) in
      (effective, insert key effective (pruned effective last_ts))

-- Also `stamp_orderbook_event`, which takes the lock first.
unfoldable pub stamp_locked : Registry → ℕ → ℕ → Stamp × Registry
stamp_locked r order_id candidate =
    let (effective, last_ts) = monotonic_created_at r.last_ts order_id candidate in
    let generation = u64 (r.generation + 1) in
    (
      record { created_at = effective; generation = generation },
      record { last_ts = last_ts; generation = generation },
    )

-- `u64::saturating_add`
abbrev pub saturating_add : ℕ → ℕ → ℕ
saturating_add a b = min (a + b) 18446744073709551615

abbrev pub is_quiet : ℕ → ℕ → Option ℕ → Bool
is_quiet candidate quiet_secs none = true
is_quiet candidate quiet_secs (some last) = leb (saturating_add last quiet_secs) candidate

-- `none` leaves the registry alone.
unfoldable pub try_stamp_orderbook_event_quiescent : Registry → ℕ → ℕ → ℕ → Option Stamp × Registry
try_stamp_orderbook_event_quiescent r order_id candidate quiet_secs =
    let (stamp, r') = stamp_locked r order_id candidate in
    if is_quiet candidate quiet_secs (lookup order_id r.last_ts)
    then (some stamp, r')
    else (none, r)
