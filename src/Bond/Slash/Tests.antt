-- ===== src/Bond/Slash/Tests.antt =====
-- Runs of the slashing and release handlers on small tables, and instances of the theorems.
use mostro.Prelude.{
  ℕ, String, ◌≡◌, refl, ◌↔◌, true, false, Option, some, none, List, [], ◌∷◌, map, All, ◌*◌, ◌/◌,
  ◌+◌, ◌≤◌, min, max, leb, ◌<◌, arith, if◌then◌else◌, ◌==◌,
}
use mostro.Prelude.Int.{ℤ, pos, negsuc, ◌+ℤ◌, ◌-ℤ◌, i64, ◌≤ℤ◌}
use mostro.Prelude.Float.{Float64}
use mostro.Result.{Result, ok}
use mostro.Bond.Types.{maker, taker, timeout, parse_state}
use mostro.Bond.Model.{Bond, new_requested}
use mostro.Bond.Env.{Env, Order, sell, waiting_payment, other_status, BondConfig, take, each_side}
use mostro.Bond.Table.{
  execute, update_rows, fetch, lift, pure, raise, ◌>>=◌, order_by, insert_by, World, settle, notify,
  count_rows,
}
use mostro.Bond.Math.{compute_bond_amount, compute_node_share}
use mostro.Bond.Math.Split.{Splits, compute_node_share-Splits}
use mostro.Bond.Recipient.{share_of}
use mostro.Bond.Rows.{Rows}
use mostro.Bond.Answers.{Answer}
use mostro.Bond.Lightning.{settle_hold_invoice, call, cancel_hold_invoice, Lightning}
use mostro.Bond.Queries.{
  find_active_bonds_for_order, find_slice_slash_child, insert_where, stating, sum_slices,
  find_maker_bond_for_order, find_bond_by_order_and_role, find_child_slashes_for_parent,
  transaction, commit, create_bond, find_range_root_order, max_range_chain_depth, climb,
}
use mostro.Bond.Queries.Climb.{Climbs, find_range_root_order-Climbs}
use mostro.Bond.Release.{release_bond, release_all}
use mostro.Bond.Release.Gone.{Released, release_bond-Released}
use mostro.Bond.Lock.{
  lock_taker, on_bond_invoice_accepted, on_maker_bond_accepted, find_bond_by_hash,
}
use mostro.Bond.Lock.Exclusive.{locked_takers, lock_taker-locked_takers}
use mostro.Bond.Sound.{Sound}
use mostro.Bond.Reachable.{starts, goes_on, posts_maker, accepts, times_out, closes, Reaches-Sound}
use mostro.Bond.Request.{HoldInvoice, post_bond, request_maker_bond}
use mostro.Bond.Slash.{slash_one, resolve_slash_target}
use mostro.Bond.Slash.Struck.{Strikes, Settling, slash_one-Strikes}
use mostro.Bond.Slash.Range.{
  record_share, slice_share, insert_child, update_slashed_share, close_parent, settle_parent,
  close_rows, distribute, reanchor_children, insert_refund, record_maker_slice_slash,
  resolve_range_maker_bond_at_close,
}
use mostro.Bond.Slash.Conserved.{InAccount}
use mostro.Bond.Slash.Closes.{Closes, resolve_range_maker_bond_at_close-Closes}
use mostro.Bond.Slash.Ends.{Ends}
use mostro.Bond.Slash.Resynced.{Recorded}
use mostro.Bond.Slash.Allotted.{InSync, Bounded, record_maker_slice_slash-Bounded}
use mostro.Bond.Slash.Timeout.{
  slash_or_release_on_timeout, order_republishes_on_timeout, slash_side_on_timeout,
  slash_responsible,
}
use mostro.Bond.Slash.Unarmed.{Lets, slash_or_release_on_timeout-Lets}

-- Numbers in thousandths stand for the floats.
abbrev thousandths : ℤ → ℕ
thousandths (pos n) = n * 1000
thousandths (negsuc n) = 0

to_i64_within :
    (x : ℕ) (n : ℤ)
    → pos 0 ≤ℤ n
    → leb x 0 ≡ false
    → leb (thousandths n) x ≡ false
    → (pos 0 ≤ℤ pos (x / 1000)) × (pos (x / 1000) ≤ℤ n)
to_i64_within x (pos n) h low high = (ground arith, ground arith)
to_i64_within x (negsuc n) h low high = absurd (ground arith)

abbrev floats : Float64
floats = record {
  F = ℕ;
  zero = 0;
  one = 1000;
  of_i64 = thousandths;
  mul = λ x y. x * y / 1000;
  div = λ x y. x * 1000 / y;
  floor = λ x. x / 1000 * 1000;
  round = λ x. (x + 500) / 1000 * 1000;
  clamp = λ x low high. max low (min x high);
  le = leb;
  to_i64 = λ x. pos (x / 1000);
  to_i64_between = to_i64_within;
}

-- Tomas sells from 100 to 1000; 300 of it were taken by Maria.
abbrev range : Order
range = record {
  id = 1;
  kind = some sell;
  buyer_pubkey = none;
  seller_pubkey = some "tomas";
  max_amount = some (pos 1000);
  fiat_amount = pos 0;
  range_parent_id = none;
  status = some other_status;
}

abbrev slice : Order
slice = record {
  id = 2;
  kind = some sell;
  buyer_pubkey = some "maria";
  seller_pubkey = some "tomas_2";
  max_amount = none;
  fiat_amount = pos 300;
  range_parent_id = some 1;
  status = some waiting_payment;
}

abbrev order_of : ℕ → Result (Option Order)
order_of n = if n == 1 then ok (some range) else if n == 2 then ok (some slice) else ok none

abbrev env : Env
env = record {
  config = none;
  order_by_id = order_of;
  parse_key = λ k. some k;
  payment_hash = λ _. some "hash";
  invoice_sats = λ _. none;
  is_valid_invoice = λ _ _. true;
  routing_fee_cap = λ _. pos 10;
}

abbrev lnd : Lightning
lnd = record {
  connects = λ _. true;
  settle_answer = λ _. none;
  cancel_answer = λ _. none;
  clock = λ _. pos 2000;
}

-- The bond for the whole range.
abbrev parent : Bond
parent = record (new_requested 7 (pos 500) 1 "tomas" maker (pos 10000)) {
  state = "locked";
  hash = some "hash_7";
  preimage = some "preimage_7";
}

-- The row of the slice that was slashed.
abbrev child : Bond
child = record (new_requested 8 (pos 900) 2 "tomas_2" maker (pos 3000)) {
  parent_bond_id = some 7;
  child_order_id = some 2;
  state = "pending-payout";
  slashed_reason = some "timeout";
  node_share_sats = some (pos 0);
  slashed_at = some (pos 900);
}

abbrev world : List Bond → World
world bs = record { bonds = bs; faults = []; outbox = []; sends = []; htlc_calls = [] }

abbrev states : World → List String
states w = map (λ b. b.state) w.bonds

abbrev amounts : World → List ℤ
amounts w = map (λ b. b.amount_sats) w.bonds

-- Three tenths of 10,000 sats, and seven are left.
compute_node_share-Splits_example :
    let node = compute_node_share floats (pos 10000) 300 in
    (share_of (pos 10000) (some node) ≡ ok (pos 10000 -ℤ node))
    × Splits (pos 10000) node (pos 10000 -ℤ node)
compute_node_share-Splits_example =
    compute_node_share-Splits floats (pos 10000) 300 (ground arith) (ground arith)

find_range_root_order-Climbs_example :
    (find_range_root_order env slice ≡ ok range)
    ↔ ((n : ℕ) × (n < max_range_chain_depth) × Climbs env n slice range)
find_range_root_order-Climbs_example = find_range_root_order-Climbs env slice range

release_bond-Released_example :
    Answer
      (parent ∷ [])
      (λ _. Released lnd parent (world (parent ∷ [])))
      (release_bond lnd parent (world (parent ∷ [])))
release_bond-Released_example = release_bond-Released lnd parent (world (parent ∷ []))

slash_one-Strikes_example :
    let w = world (parent ∷ []) in
    ((slash_one floats 300 lnd parent timeout w).0 ≡ ok tt)
    × Rows
        (Strikes floats 300 lnd parent timeout)
        w.bonds
        (slash_one floats 300 lnd parent timeout w).1.bonds
    × Settling floats 300 lnd parent timeout w.htlc_calls
        (slash_one floats 300 lnd parent timeout w).1.htlc_calls
slash_one-Strikes_example = slash_one-Strikes floats 300 lnd parent timeout (world (parent ∷ []))

in_sync : InSync parent (parent ∷ [])
in_sync = record { synced = refl; low = ground arith; high = ground arith; fits = ground arith }

record_maker_slice_slash-Bounded_example :
    Bounded parent 2
      (parent ∷ [])
      (record_maker_slice_slash floats 0 8
        (pos 900)
        slice
        range
        parent
        timeout
        (world (parent ∷ []))).1.bonds
    × Ends (Recorded 7) (
        record_maker_slice_slash floats 0 8
          (pos 900)
          slice
          range
          parent
          timeout
          (world (parent ∷ [])))
record_maker_slice_slash-Bounded_example =
    record_maker_slice_slash-Bounded floats 0 8 (pos 900) slice range parent timeout
      (world (parent ∷ [])) in_sync

in_account : InAccount parent (parent ∷ child ∷ [])
unfolding ◌+ℤ◌
in_account = record {
  unrefunded = refl;
  low = ground arith;
  high = ground arith;
  fits = ground arith;
}

root_of_slice : find_range_root_order env slice ≡ ok range
unfolding find_range_root_order climb
root_of_slice = refl

resolve_range_maker_bond_at_close-Closes_example :
    let w = world (parent ∷ child ∷ []) in
    Answer w.bonds
      (λ _ w'. Closes lnd range parent w.bonds w'.bonds)
      (resolve_range_maker_bond_at_close 9 env lnd slice w)
resolve_range_maker_bond_at_close-Closes_example =
    resolve_range_maker_bond_at_close-Closes 9 env lnd slice range parent
      (world (parent ∷ child ∷ [])) root_of_slice refl in_account

-- Two takers race for Tomas's order.
abbrev first_taker : Bond
first_taker = record (new_requested 3 (pos 700) 1 "maria" taker (pos 1500)) { hash = some "hash_3" }

abbrev second_taker : Bond
second_taker = record (new_requested 4 (pos 710) 1 "lea" taker (pos 1500)) { hash = some "hash_4" }

lock_taker-locked_takers_example :
    locked_takers 1
      (lock_taker first_taker (pos 800) (world (first_taker ∷ second_taker ∷ []))).1.bonds
    ≤ 1
unfolding count_rows
lock_taker-locked_takers_example =
    lock_taker-locked_takers first_taker (pos 800) (world (first_taker ∷ second_taker ∷ []))
      (ground arith) (ground arith)

-- The makers' bonds are not covered.
abbrev takers_only : BondConfig
takers_only = record {
  enabled = true;
  slash_on_waiting_timeout = true;
  apply_to = take;
  payout_claim_window_days = 15;
  payout_invoice_window_seconds = 300;
  payout_max_retries = 5;
}

slash_or_release_on_timeout-Lets_example :
    Rows
      (Lets (order_republishes_on_timeout slice))
      (parent ∷ [])
      (slash_or_release_on_timeout floats 300 env lnd 8 slice
        (some takers_only)
        (world (parent ∷ []))).1.bonds
slash_or_release_on_timeout-Lets_example =
    slash_or_release_on_timeout-Lets floats 300 env lnd 8 slice (some takers_only)
      (world (parent ∷ [])) refl

abbrev each_side_posts : BondConfig
each_side_posts = record takers_only { apply_to = each_side }

abbrev hold : HoldInvoice
hold = record { payment_request = "lnbc_7"; preimage = "preimage_7"; hash = "hash_7" }

-- Tomas posts a bond of 1% for the range and pays its hold invoice, lets a slice time out, and the
-- range is closed.
abbrev posted : World
posted =
    (request_maker_bond floats 10 (pos 0) (some each_side_posts) lnd 7 (pos 500) (ok hold) (ok tt)
      range "tomas" (pos 1000000) (world [])).1

abbrev paid : World
paid = (on_bond_invoice_accepted env lnd "hash_7" posted).1

abbrev timed_out : World
timed_out = (slash_or_release_on_timeout floats 300 env lnd 8 slice (some each_side_posts) paid).1

abbrev ended : World
ended = (resolve_range_maker_bond_at_close 9 env lnd slice timed_out).1

-- The bond is locked, a slice's row awaits its payout, and at the end the hold invoice is settled and
-- what was not slashed awaits its way back.
lived_runs :
    (states posted ≡ ("requested" ∷ []))
    × (states paid ≡ ("locked" ∷ []))
    × (states timed_out ≡ ("locked" ∷ "pending-payout" ∷ []))
    × (states ended ≡ ("slashed" ∷ "pending-payout" ∷ "pending-payout" ∷ []))
    × (amounts ended ≡ (pos 10000 ∷ pos 3000 ∷ pos 7000 ∷ []))
unfolding request_maker_bond post_bond compute_bond_amount create_bond insert_where notify lift pure
    ◌>>=◌ on_bond_invoice_accepted on_maker_bond_accepted find_bond_by_hash fetch execute
    update_rows count_rows parse_state slash_or_release_on_timeout slash_side_on_timeout
    slash_responsible record_maker_slice_slash record_share slice_share insert_child
    update_slashed_share stating sum_slices compute_node_share i64 ◌+ℤ◌ ◌-ℤ◌
    resolve_range_maker_bond_at_close find_maker_bond_for_order find_bond_by_order_and_role
    find_range_root_order climb close_parent find_child_slashes_for_parent order_by insert_by
    settle_parent settle_hold_invoice call transaction commit close_rows distribute
    reanchor_children insert_refund find_active_bonds_for_order resolve_slash_target
    find_slice_slash_child release_all
lived_runs = (refl, refl, refl, refl, refl)

Reaches-Sound_example : All Sound ended.bonds
Reaches-Sound_example =
    Reaches-Sound floats (world []) ended
      (goes_on timed_out _
        (goes_on paid _
          (goes_on posted _
            (goes_on (world []) _ starts (
              posts_maker 10 (pos 0) (some each_side_posts) lnd 7 (pos 500) (ok hold) (ok tt) range
                "tomas" (pos 1000000)))
            (accepts env lnd "hash_7"))
          (times_out 300 env lnd 8 slice (some each_side_posts)))
        (closes 9 env lnd slice))
      tt

-- The slice is slashed, then the range is closed: the hold invoice is settled once, the slice's
-- 3,000 sats and the maker's 7,000 await their payouts.
abbrev slashed_once : World
slashed_once =
    (record_maker_slice_slash floats 0 8 (pos 900) slice range parent timeout
      (world (parent ∷ []))).1

abbrev closed : World
closed = (resolve_range_maker_bond_at_close 9 env lnd slice slashed_once).1

close_runs :
    (states closed ≡ ("slashed" ∷ "pending-payout" ∷ "pending-payout" ∷ []))
    × (amounts closed ≡ (pos 10000 ∷ pos 3000 ∷ pos 7000 ∷ []))
    × (closed.htlc_calls ≡ (settle "preimage_7" ∷ []))
unfolding record_maker_slice_slash record_share slice_share insert_child insert_where
    update_slashed_share stating sum_slices compute_node_share execute update_rows count_rows fetch
    lift pure ◌>>=◌ resolve_range_maker_bond_at_close find_maker_bond_for_order
    find_bond_by_order_and_role find_range_root_order climb close_parent
    find_child_slashes_for_parent order_by insert_by settle_parent settle_hold_invoice call
    transaction commit close_rows distribute reanchor_children insert_refund i64 ◌+ℤ◌ ◌-ℤ◌
close_runs = (refl, refl, refl)

-- The statement after the insertion fails, and the parent's running total is left at 0: a second
-- slice of 800 is then granted 8,000 sats, and the slices' rows come to more than the bond.
abbrev second_slice : Order
second_slice = record slice { id = 3; fiat_amount = pos 800 }

abbrev interrupted : World
interrupted =
    (record_maker_slice_slash floats 0 8 (pos 900) slice range parent timeout
      (record (world (parent ∷ [])) { faults = false ∷ true ∷ [] })).1

stale_total_runs :
    amounts
      (record_maker_slice_slash floats 0 9
        (pos 950)
        second_slice
        range
        parent
        timeout
        interrupted).1
    ≡ (pos 10000 ∷ pos 3000 ∷ pos 8000 ∷ [])
unfolding record_maker_slice_slash record_share slice_share insert_child insert_where
    update_slashed_share stating sum_slices compute_node_share execute update_rows count_rows lift
    pure ◌>>=◌ i64 ◌+ℤ◌ ◌-ℤ◌
stale_total_runs = refl

-- A node that cannot be reached leaves the bond locked.
release_runs :
    states (release_bond (record lnd { connects = λ _. false }) parent (world (parent ∷ []))).1
    ≡ ("locked" ∷ [])
unfolding release_bond cancel_hold_invoice parse_state lift raise ◌>>=◌
release_runs = refl
