-- ===== src/Bond/Payout.antt =====
-- The payout of a slashed bond (src/app/bond/payout.rs): one round of the scheduler's cycle. The
-- clock's readings and the answers of the Lightning node are arguments.
use mostro.Prelude.{
  ℕ, zero, suc, String, Bool, true, false, ◌&&◌, Option, none, some, List, [], ◌∷◌, if◌then◌else◌,
  is_none, ◌==◌,
}
use mostro.Prelude.Int.{ℤ, pos, ◌+ℤ◌, ◌-ℤ◌, ltb_ℤ, min_ℤ, i64}
use mostro.Result.{Result, ok, err, unexpected, db_access}
use mostro.Bond.Types.{BondState, pending_payout, slashed, forfeited, failed, locked, show_state}
use mostro.Bond.Model.{Bond}
use mostro.Bond.Table.{
  World, M, ◌>>=◌, pure, lift, execute, notify, cas, in_state, add_bond_invoice,
  bond_payout_completed, find_bond_by_id,
}
use mostro.Bond.Env.{Env, Order}
use mostro.Bond.Recipient.{
  counterparty_share_sats, parsed_reason, resolve_payout_recipient, build_payout_small_order,
}

abbrev pub or_err : {A : Type 0} → Option A → Result A
or_err none = err unexpected
or_err (some a) = ok a

-- The rewrites of the table's rows, as the SQL writes them.
abbrev pub set_state : BondState → Bond → Bond
set_state s b = record b { state = show_state s }

abbrev pub set_requested : ℤ → Bond → Bond
set_requested now b = record b {
  invoice_request_attempts = i64 (b.invoice_request_attempts +ℤ pos 1);
  last_invoice_request_at = some now;
}

abbrev pub set_hash : ℤ → String → Bond → Bond
set_hash cap hash b = record b {
  payout_routing_fee_sats = some cap;
  payout_payment_hash = some hash;
}

abbrev pub set_attempts : ℤ → Bond → Bond
set_attempts n b = record b { payout_attempts = n }

abbrev pub rearm : Bond → Bond
rearm b = record b {
  payout_invoice = none;
  payout_routing_fee_sats = none;
  payout_payment_hash = none;
  payout_attempts = pos 0;
  last_invoice_request_at = none;
}

abbrev pub ignore : {A : Type 0} → M A → M (Unit {0})
ignore m = m >>= λ _. pure tt

unfoldable pub forfeit_bond : Bond → M (Unit {0})
forfeit_bond bond =
    ignore (
      execute (λ b. cas bond.id pending_payout b && is_none b.payout_invoice) (set_state forfeited))

unfoldable pub finalize_node_only : Bond → M (Unit {0})
finalize_node_only bond = ignore (execute (cas bond.id pending_payout) (set_state slashed))

abbrev pub parent_blocks : Option Bond → Bool
parent_blocks none = true
parent_blocks (some parent) = in_state locked parent

abbrev pub blocked_by : Option ℕ → M Bool
blocked_by none = pure false
blocked_by (some parent_id) = find_bond_by_id parent_id >>= λ found. pure (parent_blocks found)

unfoldable pub child_payout_blocked_by_locked_parent : Bond → M Bool
child_payout_blocked_by_locked_parent bond = blocked_by bond.parent_bond_id

-- The cadence test of `request_payout_invoice`.
abbrev pub asked_lately : ℤ → ℤ → Option ℤ → Bool
asked_lately now window none = false
asked_lately now window (some last) = ltb_ℤ (i64 (now -ℤ last)) window

-- From the resolved recipient on: the CAS that counts the request, then the message.
unfoldable pub ask_recipient : Bond → ℤ → Order → Option String → M (Unit {0})
ask_recipient bond now order none = pure tt
ask_recipient bond now order (some key) = do
  share ← lift (counterparty_share_sats bond)
  slashed_at ← lift (or_err bond.slashed_at)
  small ← lift (build_payout_small_order order share)
  rows ← execute (cas bond.id pending_payout) (set_requested now)
  if rows == 0 then pure tt else notify (add_bond_invoice order.id key small slashed_at)

-- From the loaded order on.
unfoldable pub ask_for_order : Env → Bond → ℤ → Option Order → M (Unit {0})
ask_for_order env bond now none = pure tt
ask_for_order env bond now (some order) = do
  reason ← lift (or_err (parsed_reason bond.slashed_reason))
  recipient ← lift (resolve_payout_recipient env order bond reason)
  ask_recipient bond now order recipient

unfoldable pub request_payout_invoice : Env → Bond → ℤ → ℤ → M (Unit {0})
request_payout_invoice env bond window now =
    if asked_lately now window bond.last_invoice_request_at
    then pure tt
    else (lift (env.order_by_id bond.order_id) >>= ask_for_order env bond now)

-- `PaymentStatus` of the Lightning node.
pub data PaymentStatus : Type 0 where
  unknown in_flight succeeded failed_payment : PaymentStatus

pub data StreamOutcome : Type 0 where
  stream_succeeded stream_failed stream_ended : StreamOutcome

pub data PaymentFailureKind : Type 0 where
  terminal indeterminate : PaymentFailureKind

pub data SendVerdict : Type 0 where
  settled : SendVerdict
  failure : PaymentFailureKind → SendVerdict

-- How the send itself ended: past the timeout, with an error, or done.
pub data SendOutcome : Type 0 where
  elapsed send_error finished : SendOutcome

-- The drain of the payment's updates; `none` is a status that `try_from` does not know.
unfoldable pub drain : List (Option PaymentStatus) → StreamOutcome
drain [] = stream_ended
drain (none ∷ rest) = drain rest
drain (some succeeded ∷ rest) = stream_succeeded
drain (some failed_payment ∷ rest) = stream_failed
drain (some unknown ∷ rest) = drain rest
drain (some in_flight ∷ rest) = drain rest

unfoldable pub classify_send_verdict : SendOutcome → StreamOutcome → SendVerdict
classify_send_verdict outcome stream_succeeded = settled
classify_send_verdict outcome stream_failed = failure terminal
classify_send_verdict elapsed stream_ended = failure indeterminate
classify_send_verdict send_error stream_ended = failure indeterminate
classify_send_verdict finished stream_ended = failure indeterminate

-- `enqueue_payout_ack` of `BondPayoutCompleted`, which is skipped where the order, the reason, the
-- recipient or the kind cannot be read.
unfoldable pub enqueue_completed : Env → Bond → ℤ → M (Unit {0})
enqueue_completed env bond share = do
  found ← lift (env.order_by_id bond.order_id)
  order ← lift (or_err found)
  reason ← lift (or_err (parsed_reason bond.slashed_reason))
  recipient ← lift (resolve_payout_recipient env order bond reason)
  key ← lift (or_err recipient)
  small ← lift (build_payout_small_order order share)
  notify (bond_payout_completed order.id key small)

-- The acknowledgement is best effort: what it answers is dropped.
abbrev pub notify_payout_completed : Env → Bond → ℤ → World → World
notify_payout_completed env bond share w = (enqueue_completed env bond share w).1

abbrev pub slash_cas_max_attempts : ℕ
slash_cas_max_attempts = 5

-- One round of the loop on what its statement answered; `again` is the next round.
abbrev pub after_slash :
    Env → Bond → ℤ → M (Unit {0}) → Result ℕ × World → Result (Unit {0}) × World
after_slash env bond share again (ok rows, w) =
    (ok tt, if rows == 1 then notify_payout_completed env bond share w else w)
after_slash env bond share again (err _, w) = again w

-- The loop of `slash_after_success`, on the attempts that are left.
unfoldable pub slash_attempts : ℕ → Env → Bond → ℤ → M (Unit {0})
slash_attempts zero env bond share w = (err db_access, w)
slash_attempts (suc left) env bond share w =
    after_slash env bond share (slash_attempts left env bond share)
      (execute (cas bond.id pending_payout) (set_state slashed) w)

unfoldable pub slash_after_success : Env → Bond → ℤ → M (Unit {0})
slash_after_success = slash_attempts slash_cas_max_attempts

abbrev pub is_indeterminate : PaymentFailureKind → Bool
is_indeterminate terminal = false
is_indeterminate indeterminate = true

abbrev pub within_window : ℤ → ℤ → Option ℤ → Bool
within_window now window none = false
within_window now window (some slashed_at) = ltb_ℤ (i64 (now -ℤ slashed_at)) window

unfoldable pub on_send_payment_failure : Bond → ℤ → ℤ → PaymentFailureKind → ℤ → M (Unit {0})
on_send_payment_failure bond retries window kind now =
    let new_attempts = min_ℤ (i64 (bond.payout_attempts +ℤ pos 1)) retries in
    execute (cas bond.id pending_payout) (set_attempts new_attempts) >>= λ _.
    if ltb_ℤ new_attempts retries
    then pure tt
    else if is_indeterminate kind
    then pure tt
    else if within_window now window bond.slashed_at
    then ignore (execute (cas bond.id pending_payout) rearm)
    else ignore (execute (cas bond.id pending_payout) (set_state failed))
