-- ===== src/DevFee/Tests.antt =====
-- Runs of the development fee's payment (src/app/dev_fee.rs), and the witnesses.
use mostro.Prelude.{◌+◌, String, ◌≡◌, refl, true, false, Option, none, some, List, [], ◌∷◌, arith}
use mostro.Prelude.Int.{pos}
use mostro.Prelude.Rows.{affects, rewrite}
use mostro.PaymentLog.{failed, sent}
use mostro.DevFee.Table.{
  FeeOrder, fine, crash, ◌>>=◌, done, modify, select, observe, confirm, audit, find_order, for_each,
}
use mostro.DevFee.Marker.{
  digit, digits, decimal, parse_digits, parse_u64, timestamp_of, parse_pending_timestamp,
  pending_marker,
}
use mostro.DevFee.ClaimTime.{parse_pending_timestamp-pending_marker}
use mostro.DevFee.Payment.{
  PaymentStatus, payment_failed, taken, paid, pending_still, Outside, ask, check_hash,
  check_dev_fee_payment_status, dev_fee_comment, resolve_dev_fee_invoice, start_send,
  send_dev_fee_payment,
}
use mostro.DevFee.Columns.{is_fee_due, holds, is_unpaid, awaits, paid_with}
use mostro.DevFee.Cycle.{
  ignore, is_stale, cleanup_one, has_marker, cleanup_stale_pending_markers, is_paid_with_hash,
  verify_one, verify_confirmed_orders, confirm_if_paid, confirm_and_audit, recover_one, is_partial,
  recover_partial_payments, is_new, find_unpaid_dev_fees, claimable, try_claim_order_for_dev_fee,
  release_pending_claim, handle_payment_success, handle_payment_failure, handle_payment_timeout,
  process_new, process_new_dev_fee_payments, run_dev_fee_cycle,
}
use mostro.DevFee.Process.{HasHashes}
use mostro.DevFee.Sound.{Single}
use mostro.DevFee.Single.{
  Happening, cycle, restart, move, happen, happen_all, started, happen_all-Single,
}
use mostro.DevFee.Pays.{Runs, Serves, Paid, process_new-Paid}

abbrev uuid : String
uuid = "123e4567-e89b-12d3-a456-426614174000"

-- Payments are taken, and succeed with the hash of the invoice, unless the node says otherwise.
abbrev services : String → Option PaymentStatus → Outside
services request answer = record {
  clock = λ n. 1700000000 + n;
  uuid = λ _. uuid;
  show_uuid = λ _. uuid;
  node_key = "npub1mostro";
  resolve = λ _ _ _. some request;
  decodes = λ _. true;
  hash_of = λ _. "ab12";
  is_hex = λ _. true;
  submit = λ _ _. taken;
  updates = λ _ _. pending_still ∷ paid "ab12" ∷ [];
  resolved_in_time = λ _. true;
  sent_in_time = λ _. true;
  status = λ _ _. answer;
}

abbrev order : FeeOrder
order = record {
  id = 7;
  status = "success";
  dev_fee = pos 300;
  dev_fee_paid = false;
  dev_fee_payment_hash = none;
}

-- The process goes down after the payment is started and before it is written down; the node
-- then answers that it failed, and the fee is paid once more.
abbrev story : List Happening
story =
    move 7 "success"
    ∷ cycle (services "lnbc1" none) (fine ∷ fine ∷ fine ∷ fine ∷ fine ∷ fine ∷ fine ∷ crash ∷ [])
    ∷ restart
    ∷ cycle (services "lnbc1" (some payment_failed)) []
    ∷ []

story_log :
    (happen_all story (started (order ∷ []))).log
    ≡ sent 7 "ab12" ∷ failed "ab12" ∷ sent 7 "ab12" ∷ []
unfolding happen_all happen run_dev_fee_cycle cleanup_stale_pending_markers verify_confirmed_orders
    recover_partial_payments process_new_dev_fee_payments find_unpaid_dev_fees process_new
    recover_one verify_one cleanup_one try_claim_order_for_dev_fee check_dev_fee_payment_status
    check_hash ask resolve_dev_fee_invoice send_dev_fee_payment start_send handle_payment_success
    handle_payment_failure handle_payment_timeout confirm_and_audit confirm_if_paid
    release_pending_claim ignore is_fee_due holds is_unpaid awaits is_stale has_marker
    is_paid_with_hash is_partial is_new claimable ◌>>=◌ done modify select observe confirm audit
    find_order for_each affects rewrite parse_pending_timestamp pending_marker timestamp_of
    parse_u64 parse_digits decimal digits digit dev_fee_comment
story_log = refl

-- An order whose claim is marked is not taken up again before its marker is reset.
claimed_order_waits :
    (find_unpaid_dev_fees
      (started (record order { dev_fee_payment_hash = some "PENDING-1" } ∷ []))).0
    ≡ some []
unfolding find_unpaid_dev_fees select is_new is_fee_due
claimed_order_waits = refl

-- A hash whose payment the node does not know is neither paid nor sent again.
abbrev stored : FeeOrder
stored = record order { dev_fee_payment_hash = some "ab12" }

unknown_hash_stays :
    (happen_all
      (cycle (services "lnbc1" none) [] ∷ restart ∷ cycle (services "lnbc1" none) [] ∷ [])
      (started (stored ∷ []))).orders
    ≡ stored ∷ []
unfolding happen_all happen run_dev_fee_cycle cleanup_stale_pending_markers verify_confirmed_orders
    recover_partial_payments process_new_dev_fee_payments find_unpaid_dev_fees process_new
    recover_one verify_one cleanup_one try_claim_order_for_dev_fee check_dev_fee_payment_status
    check_hash ask resolve_dev_fee_invoice send_dev_fee_payment start_send handle_payment_success
    handle_payment_failure handle_payment_timeout confirm_and_audit confirm_if_paid
    release_pending_claim ignore is_fee_due holds is_unpaid awaits is_stale has_marker
    is_paid_with_hash is_partial is_new claimable ◌>>=◌ done modify select observe confirm audit
    find_order for_each affects rewrite parse_pending_timestamp pending_marker timestamp_of
    parse_u64 parse_digits decimal digits digit dev_fee_comment
unknown_hash_stays = refl

services-HasHashes :
    (request : String) (answer : Option PaymentStatus) → HasHashes (services request answer)
services-HasHashes request answer = record {
  invoices = λ _. (refl, refl);
  updated = λ _ _. (tt, ((refl, refl), tt));
}

happen_all-Single_example : Single (happen_all story (started (order ∷ []))).log
happen_all-Single_example =
    happen_all-Single (order ∷ []) story (unfold affects in refl, tt) (refl, tt)
      (services-HasHashes "lnbc1" none, (services-HasHashes "lnbc1" (some payment_failed), tt))

order_is_new : is_new order ≡ true
unfolding is_new is_fee_due
order_is_new = refl

order-Runs : Runs 7 order (started (order ∷ []))
order-Runs = record { up = refl; clear = refl; row = unfold find_order in refl }

services-Serves : Serves (services "lnbc1" none) order "lnbc1" "ab12"
services-Serves = record {
  invoice = λ _. refl;
  decoded = refl;
  resolved = λ _. refl;
  submitted = λ _. refl;
  paid = λ _. refl;
  sent = λ _. refl;
}

process_new-Paid_example :
    Paid 7
      (paid_with "ab12" order)
      (process_new (services "lnbc1" none) order (started (order ∷ []))).1
process_new-Paid_example =
    process_new-Paid (services "lnbc1" none) order "lnbc1" "ab12" services-Serves order_is_new
      (started (order ∷ [])) order-Runs

parse_pending_timestamp-pending_marker_example :
    parse_pending_timestamp (pending_marker uuid 1700000000) ≡ some 1700000000
parse_pending_timestamp-pending_marker_example =
    parse_pending_timestamp-pending_marker uuid 1700000000 refl (omega arith) (omega arith)
