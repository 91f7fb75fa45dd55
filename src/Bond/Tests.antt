-- ===== src/Bond/Tests.antt =====
-- Runs of the payout on small tables, and instances of the theorems.
use mostro.Prelude.{String, ◌≡◌, refl, ◌⊎◌, ◌↔◌, inl, true, some, none, [], ◌∷◌, List, map}
use mostro.Prelude.Int.{ℤ, pos, i64, ◌-ℤ◌, ◌+ℤ◌}
use mostro.Result.{ok}
use mostro.Bond.Types.{
  maker, locked, timeout, pending_payout, slashed, parse_role, parse_state, parse_reason, show_role,
  show_state, show_reason,
}
use mostro.Bond.Types.RoundTrip.{parse_iff_show}
use mostro.Bond.Model.{Bond, new_requested}
use mostro.Bond.Table.{
  cas, World, ◌>>=◌, pure, raise, lift, fetch, execute, update_rows, count_rows, notify, insert_by,
  order_by, find_bonds_by_state, add_bond_invoice, bond_payout_completed, bond_invoice_accepted,
}
use mostro.Bond.Env.{Env, Order, sell, waiting_payment}
use mostro.Bond.Recipient.{counterparty_share_sats, resolve_recipient, resolve_payout_recipient}
use mostro.Bond.Rows.{Rows}
use mostro.Bond.Payout.{
  set_state, in_flight, succeeded, elapsed, finished, drain, classify_send_verdict,
  slash_after_success, slash_attempts, forfeit_bond, child_payout_blocked_by_locked_parent,
  request_payout_invoice, ask_for_order, ask_recipient, enqueue_completed,
}
use mostro.Bond.Cycle.{
  NodeAnswers, Clock, run_bond_payout_cycle, process_bonds, process_one_bond, forfeit_or_pay,
  request_or_pay, pay_counterparty, pay_decoded, send_payout, start, on_verdict,
}
use mostro.Bond.Cycle.Lifecycle.{Settles, run_bond_payout_cycle-Settles}
use mostro.Bond.Cycle.Pays.{Paid}
use mostro.Bond.Cycle.Payments.{Due, process_one_bond-Paid}
use mostro.Bond.Cycle.Slashed.{slash_after_success-Ends}
use mostro.Bond.Cycle.Persisted.{Persisted, send_payout-Persisted}
use mostro.Bond.Invoice.{
  apply_payout_invoice, apply_in_state, add_bond_invoice_action, open_debts,
  find_recoverable_bond_for_recipient, find_among, matches, pick, accept_for,
  notify_invoice_received, enqueue_accepted,
}
use mostro.Bond.Answers.{Answer}
use mostro.Bond.Invoice.Handled.{Entitled, add_bond_invoice_action-Entitled}
use mostro.Bond.Invoice.Applied.{Takes, apply_payout_invoice-Takes}

abbrev order : Order
order = record {
  id = 1;
  kind = some sell;
  buyer_pubkey = some "maria";
  seller_pubkey = some "tomas";
  max_amount = none;
  fiat_amount = pos 100;
  range_parent_id = none;
  status = some waiting_payment;
}

abbrev env : Env
env = record {
  config = none;
  order_by_id = λ _. ok (some order);
  parse_key = λ k. some k;
  payment_hash = λ _. some "hash";
  invoice_sats = λ _. some (pos 5000);
  is_valid_invoice = λ _ _. true;
  routing_fee_cap = λ _. pos 10;
}

-- Maria's bond was slashed at 1000, and half of it is Tomas's.
abbrev slashed_bond : Bond
slashed_bond = record (new_requested 9 (pos 500) 1 "maria" maker (pos 10000)) {
  state = "pending-payout";
  slashed_reason = some "timeout";
  node_share_sats = some (pos 5000);
  slashed_at = some (pos 1000);
}

abbrev claimed : Bond
claimed = record slashed_bond { payout_invoice = some "lnbc1" }

abbrev world : Bond → World
world b = record { bonds = b ∷ []; faults = []; outbox = []; sends = []; htlc_calls = [] }

abbrev clock : ℤ → Clock
clock t = record { started = t; asked = t }

abbrev paying : NodeAnswers
paying = record {
  lookup_status = ok none;
  updates = some in_flight ∷ some succeeded ∷ [];
  outcome = finished;
  failed_at = pos 2000;
}

abbrev silent : NodeAnswers
silent = record {
  lookup_status = ok (some in_flight);
  updates = some in_flight ∷ [];
  outcome = elapsed;
  failed_at = pos 2000;
}

abbrev states : World → List String
states w = map (λ b. b.state) w.bonds

-- The invoice is paid, and Tomas is told.
payout_runs :
    let w = run_bond_payout_cycle env (λ _. clock (pos 2000)) (λ _. paying) (world claimed) in
    (states w ≡ ("slashed" ∷ []))
    × (w.sends ≡ (record { invoice = "lnbc1"; amount = pos 5000 } ∷ []))
    × (w.outbox ≡ (bond_payout_completed 1 "tomas" (pos 5000) ∷ []))
unfolding run_bond_payout_cycle process_bonds process_one_bond forfeit_or_pay request_or_pay
    pay_counterparty pay_decoded send_payout start on_verdict slash_after_success slash_attempts
    enqueue_completed drain classify_send_verdict child_payout_blocked_by_locked_parent
    find_bonds_by_state fetch order_by insert_by ◌>>=◌ pure lift execute update_rows count_rows
    notify counterparty_share_sats resolve_recipient resolve_payout_recipient parse_reason i64 ◌-ℤ◌
payout_runs = (refl, refl, refl)

-- With no invoice, Tomas is asked for one, and after fifteen days the node keeps the bond.
unclaimed_runs :
    ((run_bond_payout_cycle env (λ _. clock (pos 2000)) (λ _. paying) (world slashed_bond)).outbox
      ≡ (add_bond_invoice 1 "tomas" (pos 5000) (pos 1000) ∷ []))
    × (states
          (run_bond_payout_cycle env (λ _. clock (pos 1297000)) (λ _. paying) (world slashed_bond))
        ≡ ("forfeited" ∷ []))
unfolding run_bond_payout_cycle process_bonds process_one_bond forfeit_or_pay request_or_pay
    request_payout_invoice ask_for_order ask_recipient forfeit_bond
    child_payout_blocked_by_locked_parent find_bonds_by_state fetch order_by insert_by ◌>>=◌ pure
    lift execute update_rows count_rows notify counterparty_share_sats resolve_recipient
    resolve_payout_recipient parse_reason i64 ◌-ℤ◌ ◌+ℤ◌
unclaimed_runs = (refl, refl)

-- Tomas hands in his invoice; Maria may not.
invoice_runs :
    let by = λ (sender : String).
      add_bond_invoice_action env (some 1) (some "lnbc1") sender (pos 2000) (world slashed_bond) in
    (map (λ b. b.payout_invoice) (by "tomas").1.bonds ≡ (some "lnbc1" ∷ []))
    × ((by "tomas").1.outbox ≡ (bond_invoice_accepted 1 "tomas" (pos 5000) ∷ []))
    × ((by "maria").1 ≡ world slashed_bond)
unfolding add_bond_invoice_action find_recoverable_bond_for_recipient find_among matches pick
    accept_for notify_invoice_received enqueue_accepted apply_payout_invoice apply_in_state fetch
    order_by insert_by raise ◌>>=◌ pure lift execute update_rows count_rows notify
    counterparty_share_sats resolve_recipient resolve_payout_recipient parse_reason parse_state i64
    ◌-ℤ◌ ◌+ℤ◌
invoice_runs = (refl, refl, refl)

parse_iff_show_example :
    ((parse_role "maker" ≡ inl maker) ↔ (show_role maker ≡ "maker"))
    × ((parse_state "maker" ≡ inl locked) ↔ (show_state locked ≡ "maker"))
    × ((parse_reason "maker" ≡ inl timeout) ↔ (show_reason timeout ≡ "maker"))
parse_iff_show_example = parse_iff_show "maker" maker locked timeout

run_bond_payout_cycle-Settles_example :
    Rows Settles
      (claimed ∷ [])
      (run_bond_payout_cycle env (λ _. clock (pos 2000)) (λ _. paying) (world claimed)).bonds
run_bond_payout_cycle-Settles_example =
    run_bond_payout_cycle-Settles env (λ _. clock (pos 2000)) (λ _. paying) (world claimed)

process_one_bond-Paid_example :
    Paid
      (Due env paying claimed)
      []
      (process_one_bond env (clock (pos 2000)) paying claimed (world claimed)).1.sends
process_one_bond-Paid_example =
    process_one_bond-Paid env (clock (pos 2000)) paying claimed (world claimed)

send_payout-Persisted_example :
    ((send_payout env silent claimed "lnbc1" "hash"
        (pos 5000)
        (pos 5)
        (pos 1296000)
        (world claimed)).1.sends
      ≡ [])
    ⊎ Rows
        (Persisted 9 "hash")
        (claimed ∷ [])
        (send_payout env silent claimed "lnbc1" "hash"
          (pos 5000)
          (pos 5)
          (pos 1296000)
          (world claimed)).1.bonds
send_payout-Persisted_example =
    send_payout-Persisted env silent claimed "lnbc1" "hash" (pos 5000) (pos 5) (pos 1296000)
      (world claimed) (unfold drain in refl)

apply_payout_invoice-Takes_example :
    Rows
      (Takes slashed_bond "lnbc1" (pos 2000) (pos 1296000))
      (slashed_bond ∷ [])
      (apply_payout_invoice slashed_bond "lnbc1"
        (pos 2000)
        (pos 1296000)
        (world slashed_bond)).1.bonds
apply_payout_invoice-Takes_example =
    apply_payout_invoice-Takes slashed_bond "lnbc1" (pos 2000) (pos 1296000) (world slashed_bond)

add_bond_invoice_action-Entitled_example :
    Answer
      (slashed_bond ∷ [])
      (λ _ _. Entitled env (some 1) (some "lnbc1") "tomas" (slashed_bond ∷ []))
      (add_bond_invoice_action env (some 1) (some "lnbc1") "tomas" (pos 2000) (world slashed_bond))
add_bond_invoice_action-Entitled_example =
    add_bond_invoice_action-Entitled env (some 1) (some "lnbc1") "tomas" (pos 2000)
      (world slashed_bond)

-- The database refuses the first two statements.
abbrev shaky : World
shaky = record {
  bonds = claimed ∷ [];
  faults = true ∷ true ∷ [];
  outbox = [];
  sends = [];
  htlc_calls = [];
}

slash_after_success-Ends_example :
    ((slash_after_success env claimed (pos 5000) shaky).0 ≡ ok tt)
    × ((slash_after_success env claimed (pos 5000) shaky).1.bonds
        ≡ update_rows (cas 9 pending_payout) (set_state slashed) (claimed ∷ []))
slash_after_success-Ends_example = slash_after_success-Ends env claimed (pos 5000) shaky

-- The debts in the order of the query: the latest slash first, a row without a time last.
debts_run :
    open_debts 1 (
      record slashed_bond { id = 21; slashed_at = some (pos 1000) }
      ∷ record slashed_bond { id = 22; slashed_at = some (pos 3000) }
      ∷ record slashed_bond { id = 23; slashed_at = none }
      ∷ [])
    ≡ record slashed_bond { id = 22; slashed_at = some (pos 3000) }
      ∷ record slashed_bond { id = 21; slashed_at = some (pos 1000) }
      ∷ record slashed_bond { id = 23; slashed_at = none }
      ∷ []
unfolding order_by insert_by
debts_run = refl
