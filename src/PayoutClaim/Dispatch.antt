-- ===== src/PayoutClaim/Dispatch.antt =====
-- The dispatch of a claimed payout and its reconciliation (src/app/release.rs), in the stretches
-- between two waits: the claim, a heartbeat in the queue, the start of the payment, an update of the
-- payment, the end of the call, and a reconciliation. What a task knows (the order, the hash, the
-- time of its claim) are arguments. The failure bookkeeping for the buyer is left out. A hash is logged as
-- failed when the node neither has its payment in flight nor has it settled.
use mostro.Prelude.{
  ℕ, String, Bool, true, false, ◌&&◌, Option, none, some, List, ◌∷◌, if◌then◌else◌, ◌==◌,
}
use mostro.Prelude.Int.{ℤ}
use mostro.Result.{Result, ok, err}
use mostro.DevFee.Payment.{PaymentStatus, succeeded, in_flight, payment_failed, other}
use mostro.PaymentLog.{Entry, sent, failed}
use mostro.PayoutClaim.{
  OrderRow, apply_update, settled_hold_invoice, claim_order_payout, touch_order_payout_claim,
  clear_order_payout, fail_order_payout,
}

pub record Payouts : Type 0 where
  pub rows : List OrderRow
  pub log : List Entry

-- What `lookup_payment_status` answers.
pub data Lookup : Type 0 where
  found : PaymentStatus → Lookup
  no_record lookup_error : Lookup

-- What the bounded `send_payment` comes to.
pub data SendOutcome : Type 0 where
  send_ok send_error elapsed : SendOutcome

pub data DispatchVerdict : Type 0 where
  stream_ended keep_marker re_arm : DispatchVerdict

abbrev pub classify_error : Option Lookup → DispatchVerdict
classify_error (some (found in_flight)) = keep_marker
classify_error (some (found succeeded)) = keep_marker
classify_error (some (found payment_failed)) = re_arm
classify_error (some (found other)) = re_arm
classify_error (some no_record) = re_arm
classify_error (some lookup_error) = keep_marker
classify_error none = re_arm

unfoldable pub classify_dispatch : SendOutcome → Option Lookup → DispatchVerdict
classify_dispatch send_ok lookup = stream_ended
classify_dispatch elapsed lookup = keep_marker
classify_dispatch send_error lookup = classify_error lookup

-- The node neither has the payment in flight nor has it settled.
abbrev pub noted : String → Lookup → List Entry → List Entry
noted hash (found succeeded) l = l
noted hash (found in_flight) l = l
noted hash (found payment_failed) l = failed hash ∷ l
noted hash (found other) l = failed hash ∷ l
noted hash no_record l = failed hash ∷ l
noted hash lookup_error l = l

abbrev pub is_this : ℕ → OrderRow → Bool
is_this order_id o = o.id == order_id

abbrev pub set_success : OrderRow → OrderRow
set_success o = record o { status = "success" }

unfoldable pub unfinished : ℕ → OrderRow → Bool
unfinished order_id o = o.id == order_id && settled_hold_invoice o

-- `payment_success(..).unwrap_or(false)`: the order is final. `published` is whether
-- `update_order_event` succeeds.
unfoldable pub payment_success : Bool → Bool → ℕ → List OrderRow → Bool × List OrderRow
payment_success false fault order_id os = (false, os)
payment_success true fault order_id os =
    let (r, os') = apply_update fault (unfinished order_id) set_success os in
    (elim r [ ok _ ↦ true | err _ ↦ false ], os')

-- Release the marker once the order is final.
abbrev pub clear_if : Bool → Bool → ℕ → String → Option ℤ → List OrderRow → List OrderRow
clear_if false fault order_id hash claimed_at os = os
clear_if true fault order_id hash claimed_at os =
    (clear_order_payout fault order_id hash claimed_at os).1

unfoldable pub finalize : Bool → Bool → Bool → ℕ → String → Option ℤ → List OrderRow → List OrderRow
finalize published fault fault' order_id hash claimed_at os =
    let (final, os') = payment_success published fault order_id os in
    clear_if final fault' order_id hash claimed_at os'

-- The claim at the end of `do_payment`'s inline part.
unfoldable pub claim_payout : Bool → ℕ → String → ℤ → Payouts → Payouts
claim_payout fault order_id hash now w = record w {
  rows = (claim_order_payout fault order_id hash now w.rows).1;
}

unfoldable pub heartbeat : Bool → ℕ → String → ℤ → ℤ → Payouts → Payouts
heartbeat fault order_id hash claimed_at now w = record w {
  rows = (touch_order_payout_claim fault order_id hash (some claimed_at) now w.rows).1;
}

abbrev pub sent_if : Result (Option ℤ) → ℕ → String → List Entry → List Entry
sent_if (ok (some _)) order_id hash l = sent order_id hash ∷ l
sent_if (ok none) order_id hash l = l
sent_if (err _) order_id hash l = l

-- The last touch of the claim, and the payment if the claim is still the task's own.
unfoldable pub start_payment_if_owned : Bool → ℕ → String → ℤ → ℤ → Payouts → Payouts
start_payment_if_owned fault order_id hash claimed_at now w =
    let (r, os) = touch_order_payout_claim fault order_id hash (some claimed_at) now w.rows in
    record w { rows = os; log = sent_if r order_id hash w.log }

-- The watcher of the payment's updates.
unfoldable pub on_payment_update :
    Bool → Bool → Bool → ℕ → String → ℤ → PaymentStatus → Payouts → Payouts
on_payment_update published fault fault' order_id hash claimed_at succeeded w = record w {
  rows = finalize published fault fault' order_id hash (some claimed_at) w.rows;
}
on_payment_update published fault fault' order_id hash claimed_at payment_failed w = record w {
  rows = (fail_order_payout fault order_id hash (some claimed_at) w.rows).1;
  log = failed hash ∷ w.log;
}
on_payment_update published fault fault' order_id hash claimed_at in_flight w = w
on_payment_update published fault fault' order_id hash claimed_at other w = w

-- The node is asked after an error of the call, if the hash is usable.
abbrev pub looked_up : SendOutcome → Bool → Lookup → Option Lookup
looked_up send_error true answer = some answer
looked_up send_error false answer = none
looked_up send_ok usable answer = none
looked_up elapsed usable answer = none

abbrev pub noted_if : Option Lookup → String → List Entry → List Entry
noted_if none hash l = l
noted_if (some answer) hash l = noted hash answer l

abbrev pub on_dispatch_verdict :
    DispatchVerdict → Bool → ℕ → String → ℤ → List OrderRow → List OrderRow
on_dispatch_verdict stream_ended fault order_id hash claimed_at os = os
on_dispatch_verdict keep_marker fault order_id hash claimed_at os = os
on_dispatch_verdict re_arm fault order_id hash claimed_at os =
    (fail_order_payout fault order_id hash (some claimed_at) os).1

unfoldable pub on_send_end : Bool → Bool → ℕ → String → ℤ → SendOutcome → Lookup → Payouts → Payouts
on_send_end usable fault order_id hash claimed_at outcome answer w =
    let lookup = looked_up outcome usable answer in
    record w {
      rows =
          on_dispatch_verdict (classify_dispatch outcome lookup) fault order_id hash claimed_at
            w.rows;
      log = noted_if lookup hash w.log;
    }

-- `readable` is whether the order is found and its buyer's key can be read.
abbrev pub on_lookup :
    Lookup → Bool → Bool → Bool → Bool → ℕ → String → Option ℤ → List OrderRow → List OrderRow
on_lookup (found succeeded) readable published fault fault' order_id hash claimed_at os =
    if readable then finalize published fault fault' order_id hash claimed_at os else os
on_lookup (found in_flight) readable published fault fault' order_id hash claimed_at os = os
on_lookup (found payment_failed) readable published fault fault' order_id hash claimed_at os =
    (fail_order_payout fault order_id hash claimed_at os).1
on_lookup (found other) readable published fault fault' order_id hash claimed_at os =
    (fail_order_payout fault order_id hash claimed_at os).1
on_lookup no_record readable published fault fault' order_id hash claimed_at os =
    (fail_order_payout fault order_id hash claimed_at os).1
on_lookup lookup_error readable published fault fault' order_id hash claimed_at os = os

unfoldable pub reconcile_inflight_payout :
    Bool → Bool → Bool → Bool → Bool → ℕ → String → Option ℤ → Lookup → Payouts → Payouts
reconcile_inflight_payout false readable published fault fault' order_id hash claimed_at answer w =
    record w { rows = (fail_order_payout fault order_id hash claimed_at w.rows).1 }
reconcile_inflight_payout true readable published fault fault' order_id hash claimed_at answer w =
    record w {
      rows = on_lookup answer readable published fault fault' order_id hash claimed_at w.rows;
      log = noted hash answer w.log;
    }
