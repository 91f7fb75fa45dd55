-- ===== src/DevFee/Cycle.antt =====
-- The four phases of the development fee's payment (src/app/dev_fee.rs), and `find_unpaid_dev_fees`
-- (src/db.rs). `LIKE 'PENDING-%'` is read as "starts with": the case of the letters, which SQLite
-- ignores there, is left out.
use mostro.Prelude.{
  ℕ, ◌-◌, String, Bool, true, false, not, ◌&&◌, ◌||◌, Option, none, some, List, keep, leb, ◌==◌,
  if◌then◌else◌,
}
use mostro.Prelude.Int.{pos, ltb_ℤ}
use mostro.DevFee.Table.{
  FeeOrder, Task, ◌>>=◌, ◌>>◌, done, modify, select, observe, confirm, audit, find_order, for_each,
}
use mostro.DevFee.Columns.{
  is_pending_hash, or_empty, is_unset, is_set, is_fee_due, set_paid, set_unpaid, without_hash,
  with_hash, paid_with, reset, holds, is_unpaid, awaits,
}
use mostro.DevFee.Marker.{parse_pending_timestamp, pending_marker}
use mostro.DevFee.Payment.{
  Outside, DevFeePaymentState, state_succeeded, state_in_flight, state_failed, state_unknown,
  is_pending, check_dev_fee_payment_status, resolve_dev_fee_invoice, send_dev_fee_payment, Outcome,
  sent_with, send_failed, timed_out,
}

unfoldable pub ignore : {A : Type 0} → Task A → Task (Unit {0})
ignore m = m >>= λ _. done tt

-- Phase 1

abbrev pub cleanup_ttl_secs : ℕ
cleanup_ttl_secs = 300

unfoldable pub is_stale : ℕ → Option ℕ → Bool
is_stale now none = true
is_stale now (some ts) = leb cleanup_ttl_secs (now - ts)

unfoldable pub cleanup_one : ℕ → FeeOrder → Task (Unit {0})
cleanup_one now o =
    let marker = or_empty o.dev_fee_payment_hash in
    if is_stale now (parse_pending_timestamp marker)
    then ignore (modify (holds o.id marker) reset)
    else done tt

-- Run the body on the rows of a query that went through.
abbrev pub on_rows : (FeeOrder → Task (Unit {0})) → Option (List FeeOrder) → Task (Unit {0})
on_rows body none = done tt
on_rows body (some rows) = for_each body rows

unfoldable pub has_marker : FeeOrder → Bool
has_marker o = is_pending_hash o.dev_fee_payment_hash

unfoldable pub cleanup_stale_pending_markers : Outside → Task (Unit {0})
cleanup_stale_pending_markers out = do
  now ← observe out.clock
  rows ← select (keep has_marker)
  on_rows (cleanup_one now) rows

-- Phase 2

-- The hash is one that the node can be asked about.
abbrev pub is_trackable : Option String → Bool
is_trackable none = false
is_trackable (some h) = not (is_pending h)

unfoldable pub is_paid_with_hash : FeeOrder → Bool
is_paid_with_hash o = o.dev_fee_paid && is_trackable o.dev_fee_payment_hash && is_fee_due o

abbrev pub mem : ℕ → List ℕ → Bool
mem n List.[] = false
mem n (List.◌∷◌ m ms) = m == n || mem n ms

abbrev pub on_verified : ℕ → DevFeePaymentState → Task (Unit {0})
on_verified order_id state_succeeded = confirm order_id
on_verified order_id state_in_flight = done tt
on_verified order_id state_failed = done tt
on_verified order_id state_unknown = done tt

unfoldable pub verify_one : Outside → FeeOrder → Task (Unit {0})
verify_one out o w =
    if mem o.id w.confirmed
    then (tt, w)
    else (check_dev_fee_payment_status out o >>= on_verified o.id) w

unfoldable pub verify_confirmed_orders : Outside → Task (Unit {0})
verify_confirmed_orders out = select (keep is_paid_with_hash) >>= on_rows (verify_one out)

-- Phase 3

-- Confirm an order that another call has marked as paid in the meantime.
abbrev pub confirm_found : ℕ → Option (Option FeeOrder) → Task (Unit {0})
confirm_found order_id none = done tt
confirm_found order_id (some none) = done tt
confirm_found order_id (some (some o)) = if o.dev_fee_paid then confirm order_id else done tt

unfoldable pub confirm_if_paid : ℕ → Task (Unit {0})
confirm_if_paid order_id = select (find_order order_id) >>= confirm_found order_id

abbrev pub audit_found : ℕ → String → Option (Option FeeOrder) → Task (Unit {0})
audit_found order_id hash none = done tt
audit_found order_id hash (some none) = done tt
audit_found order_id hash (some (some o)) = audit order_id hash

unfoldable pub confirm_and_audit : ℕ → String → Task (Unit {0})
confirm_and_audit order_id hash =
    confirm order_id >> (select (find_order order_id) >>= audit_found order_id hash)

abbrev pub after_marking : ℕ → String → Option Bool → Task (Unit {0})
after_marking order_id hash none = done tt
after_marking order_id hash (some true) = confirm_and_audit order_id hash
after_marking order_id hash (some false) = confirm_if_paid order_id

abbrev pub on_recovered : ℕ → String → DevFeePaymentState → Task (Unit {0})
on_recovered order_id hash state_succeeded =
    modify (awaits order_id hash) set_paid >>= after_marking order_id hash
on_recovered order_id hash state_failed = ignore (modify (awaits order_id hash) without_hash)
on_recovered order_id hash state_in_flight = done tt
on_recovered order_id hash state_unknown = done tt

unfoldable pub recover_one : Outside → FeeOrder → Task (Unit {0})
recover_one out o =
    check_dev_fee_payment_status out o >>= on_recovered o.id (or_empty o.dev_fee_payment_hash)

unfoldable pub is_partial : FeeOrder → Bool
is_partial o =
    is_fee_due o
    && ltb_ℤ (pos 0) o.dev_fee
    && not o.dev_fee_paid
    && is_set o.dev_fee_payment_hash
    && not (is_pending_hash o.dev_fee_payment_hash)

unfoldable pub recover_partial_payments : Outside → Task (Unit {0})
recover_partial_payments out = select (keep is_partial) >>= on_rows (recover_one out)

-- Phase 4

unfoldable pub is_new : FeeOrder → Bool
is_new o =
    is_fee_due o && ltb_ℤ (pos 0) o.dev_fee && not o.dev_fee_paid && is_unset o.dev_fee_payment_hash

unfoldable pub find_unpaid_dev_fees : Task (Option (List FeeOrder))
find_unpaid_dev_fees = select (keep is_new)

unfoldable pub claimable : ℕ → FeeOrder → Bool
claimable order_id o = o.id == order_id && is_new o

unfoldable pub try_claim_order_for_dev_fee : ℕ → String → Task (Option Bool)
try_claim_order_for_dev_fee order_id marker = modify (claimable order_id) (with_hash marker)

unfoldable pub release_pending_claim : ℕ → String → Task (Unit {0})
release_pending_claim order_id marker = ignore (modify (holds order_id marker) without_hash)

abbrev pub after_success : ℕ → String → Option Bool → Task (Unit {0})
after_success order_id hash none = done tt
after_success order_id hash (some true) = confirm_and_audit order_id hash
after_success order_id hash (some false) = confirm_if_paid order_id

unfoldable pub handle_payment_success : FeeOrder → String → Task (Unit {0})
handle_payment_success o hash = modify (is_unpaid o.id) (paid_with hash) >>= after_success o.id hash

unfoldable pub handle_payment_failure : FeeOrder → Task (Unit {0})
handle_payment_failure o = ignore (modify (is_unpaid o.id) set_unpaid)

abbrev pub on_timeout : ℕ → String → DevFeePaymentState → Task (Unit {0})
on_timeout order_id hash state_succeeded =
    ignore (modify (awaits order_id hash) set_paid) >> confirm order_id
on_timeout order_id hash state_in_flight = done tt
on_timeout order_id hash state_failed = ignore (modify (awaits order_id hash) reset)
on_timeout order_id hash state_unknown = done tt

unfoldable pub handle_payment_timeout : Outside → FeeOrder → Task (Unit {0})
handle_payment_timeout out o =
    check_dev_fee_payment_status out o >>= on_timeout o.id (or_empty o.dev_fee_payment_hash)

abbrev pub on_outcome : Outside → FeeOrder → Outcome → Task (Unit {0})
on_outcome out o (sent_with hash) = handle_payment_success o hash
on_outcome out o send_failed = handle_payment_failure o
on_outcome out o timed_out = handle_payment_timeout out o

-- Send the payment for the order as it was read again.
abbrev pub pay_found : Outside → String → Option (Option FeeOrder) → Task (Unit {0})
pay_found out request none = done tt
pay_found out request (some none) = done tt
pay_found out request (some (some o)) = send_dev_fee_payment out o request >>= on_outcome out o

abbrev pub after_storing : Outside → ℕ → String → String → Option Bool → Task (Unit {0})
after_storing out order_id marker request none = release_pending_claim order_id marker
after_storing out order_id marker request (some false) = done tt
after_storing out order_id marker request (some true) =
    select (find_order order_id) >>= pay_found out request

abbrev pub store_and_pay : Outside → ℕ → String → Option (String × String) → Task (Unit {0})
store_and_pay out order_id marker none = release_pending_claim order_id marker
store_and_pay out order_id marker (some (request, hash)) =
    modify (awaits order_id marker) (with_hash hash) >>= after_storing out order_id marker request

abbrev pub after_claim : Outside → FeeOrder → String → Option Bool → Task (Unit {0})
after_claim out o marker none = done tt
after_claim out o marker (some false) = done tt
after_claim out o marker (some true) =
    resolve_dev_fee_invoice out o >>= store_and_pay out o.id marker

unfoldable pub process_new : Outside → FeeOrder → Task (Unit {0})
process_new out o = do
  now ← observe out.clock
  uuid ← observe out.uuid
  claimed ← try_claim_order_for_dev_fee o.id (pending_marker uuid now)
  after_claim out o (pending_marker uuid now) claimed

unfoldable pub process_new_dev_fee_payments : Outside → Task (Unit {0})
process_new_dev_fee_payments out = find_unpaid_dev_fees >>= on_rows (process_new out)

unfoldable pub run_dev_fee_cycle : Outside → Task (Unit {0})
run_dev_fee_cycle out = do
  cleanup_stale_pending_markers out
  verify_confirmed_orders out
  recover_partial_payments out
  process_new_dev_fee_payments out
