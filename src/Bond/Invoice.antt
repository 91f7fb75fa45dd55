-- ===== src/Bond/Invoice.antt =====
-- The handler of `Action::AddBondInvoice`, by which the recipient of a slashed bond hands in a
-- payout invoice (src/app/bond/payout.rs). The clock's reading is an argument.
pub mod Applied
pub mod Chosen
pub mod Debts
pub mod Latest
pub mod Handled
use text.Mathlib.Text.{◌==◌ as str_eq}
use mostro.Prelude.{
  ℕ, String, Bool, true, false, ◌&&◌, ◌||◌, Option, none, some, List, [], ◌∷◌, if◌then◌else◌, keep,
  is_none, inl, inr, ◌⊎◌, ◌==◌, leb, length,
}
use mostro.Prelude.Int.{ℤ, pos, leb_ℤ, ltb_ℤ, saturating_sub, ltb_ℤ}
use mostro.Result.{Result, ok, err, invalid_payload, invalid_invoice, not_allowed_by_status}
use mostro.Bond.Types.{
  BondState, BondParseError, parse_state, requested, locked, released, pending_payout, slashed,
  forfeited, failed,
}
use mostro.Bond.Model.{Bond}
use mostro.Bond.Table.{
  World, M, ◌>>=◌, ◌>>◌, pure, raise, lift, execute, fetch, notify, cas, in_state,
  bond_invoice_accepted, order_by, first,
}
use mostro.Bond.Env.{Env, Order, claim_window}
use mostro.Bond.Recipient.{
  counterparty_share_sats, parsed_reason, resolve_payout_recipient, build_payout_small_order,
}
use mostro.Bond.Payout.{or_err, set_state}

pub data InvoiceApplyOutcome : Type 0 where
  persisted resurrected rejected : InvoiceApplyOutcome

abbrev pub set_invoice : String → Bond → Bond
set_invoice invoice b = record b { payout_invoice = some invoice; invoice_request_attempts = pos 0 }

abbrev pub resurrect : String → Bond → Bond
resurrect invoice b = record b {
  state = "pending-payout";
  payout_invoice = some invoice;
  payout_attempts = pos 0;
  invoice_request_attempts = pos 0;
  payout_payment_hash = none;
}

abbrev pub applied : InvoiceApplyOutcome → ℕ → InvoiceApplyOutcome
applied outcome rows = if rows == 0 then rejected else outcome

-- The claim window of a failed row is closed, or has no start.
abbrev pub is_closed : ℤ → ℤ → Option ℤ → Bool
is_closed now window none = true
is_closed now window (some slashed_at) = leb_ℤ window (saturating_sub now slashed_at)

unfoldable pub apply_in_state :
    BondState ⊎ BondParseError → Bond → String → ℤ → ℤ → M InvoiceApplyOutcome
apply_in_state (inr _) bond invoice now window = pure rejected
apply_in_state (inl pending_payout) bond invoice now window =
    execute (λ b. cas bond.id pending_payout b && is_none b.payout_invoice) (set_invoice invoice)
    >>= λ rows. pure (applied persisted rows)
apply_in_state (inl failed) bond invoice now window =
    if is_closed now window bond.slashed_at
    then pure rejected
    else (execute (cas bond.id failed) (resurrect invoice) >>= λ rows.
        pure (applied resurrected rows))
apply_in_state (inl requested) bond invoice now window = pure rejected
apply_in_state (inl locked) bond invoice now window = pure rejected
apply_in_state (inl released) bond invoice now window = pure rejected
apply_in_state (inl slashed) bond invoice now window = pure rejected
apply_in_state (inl forfeited) bond invoice now window = pure rejected

unfoldable pub apply_payout_invoice : Bond → String → ℤ → ℤ → M InvoiceApplyOutcome
apply_payout_invoice bond invoice now window =
    apply_in_state (parse_state bond.state) bond invoice now window

-- `ORDER BY slashed_at DESC`, where SQLite puts a missing value last: `a` comes before `b`.
abbrev pub later_slash : Bond → Bond → Bool
later_slash a b = elim a.slashed_at [
  | none ↦ false
  | some x ↦ elim b.slashed_at [ none ↦ true | some y ↦ ltb_ℤ y x ]
]

abbrev pub is_open : ℕ → Bond → Bool
is_open order_id b = b.order_id == order_id && (in_state pending_payout b || in_state failed b)

abbrev pub open_debts : ℕ → List Bond → List Bond
open_debts order_id bs = order_by later_slash (keep (is_open order_id) bs)

abbrev pub is_sender : String → Option String → Bool
is_sender sender none = false
is_sender sender (some key) = str_eq key sender

abbrev pub recipient_of : Env → Order → Bond → Result (Option String)
recipient_of env order bond = elim (parsed_reason bond.slashed_reason) [
  | none ↦ ok none
  | some reason ↦ resolve_payout_recipient env order bond reason
]

abbrev pub add_match : Bond → Bool → Result (List Bond) → Result (List Bond)
add_match bond true (ok rest) = ok (bond ∷ rest)
add_match bond false (ok rest) = ok rest
add_match bond mine (err e) = err e

-- The rows whose recipient is the sender; a row with no readable reason is passed over.
unfoldable pub matches : Env → Order → String → List Bond → Result (List Bond)
matches env order sender [] = ok []
matches env order sender (b ∷ bs) =
    let rest = matches env order sender bs in
    elim (recipient_of env order b) [
      | err e ↦ err e
      | ok key ↦ add_match b (is_sender sender key) rest
    ]

abbrev pub has_share : ℤ → Bond → Bool
has_share target b = elim (counterparty_share_sats b) [
  | err _ ↦ false
  | ok s ↦ leb_ℤ s target && leb_ℤ target s
]

abbrev pub exact_or_first : Option Bond → List Bond → Option Bond
exact_or_first (some exact) found = some exact
exact_or_first none found = first found

-- Between several matches, the invoice's amount decides.
unfoldable pub pick : Option ℤ → List Bond → Option Bond
pick none found = first found
pick (some target) found =
    if leb 2 (length found)
    then exact_or_first (first (keep (has_share target) found)) found
    else first found

unfoldable pub find_among : Env → ℕ → String → Option ℤ → List Bond → M (Option Bond)
find_among env order_id sender expected [] = pure none
find_among env order_id sender expected (b ∷ bs) = do
  found ← lift (env.order_by_id order_id)
  elim found [
    | none ↦ pure none
    | some order ↦ lift (matches env order sender (b ∷ bs)) >>= λ ms. pure (pick expected ms)
  ]

unfoldable pub find_recoverable_bond_for_recipient : Env → ℕ → String → Option ℤ → M (Option Bond)
find_recoverable_bond_for_recipient env order_id sender expected =
    fetch (open_debts order_id) >>= find_among env order_id sender expected

-- `notify_invoice_received`, best effort.
unfoldable pub enqueue_accepted : Env → Bond → String → ℤ → M (Unit {0})
enqueue_accepted env bond sender share = do
  found ← lift (env.order_by_id bond.order_id)
  order ← lift (or_err found)
  small ← lift (build_payout_small_order order share)
  notify (bond_invoice_accepted order.id sender small)

unfoldable pub notify_invoice_received : Env → Bond → String → ℤ → M (Unit {0})
notify_invoice_received env bond sender share w =
    (ok tt, (enqueue_accepted env bond sender share w).1)

abbrev pub is_rejected : InvoiceApplyOutcome → Bool
is_rejected persisted = false
is_rejected resurrected = false
is_rejected rejected = true

-- From the bond that was found on.
unfoldable pub accept_for : Env → String → String → ℤ → Option Bond → M (Unit {0})
accept_for env sender invoice now none = raise not_allowed_by_status
accept_for env sender invoice now (some bond) = do
  share ← lift (counterparty_share_sats bond)
  if leb_ℤ share (pos 0)
      then raise not_allowed_by_status
      else if env.is_valid_invoice invoice share
      then (apply_payout_invoice bond invoice now (claim_window env.config) >>= λ outcome.
          if is_rejected outcome
          then raise not_allowed_by_status
          else notify_invoice_received env bond sender share)
      else raise invalid_invoice

abbrev pub usable_invoice : Option String → Result String
usable_invoice none = err invalid_invoice
usable_invoice (some invoice) = if str_eq invoice "" then err invalid_invoice else ok invoice

abbrev pub known_order : Option ℕ → Result ℕ
known_order none = err invalid_payload
known_order (some id) = ok id

-- The message's order and invoice, and its sender.
unfoldable pub add_bond_invoice_action : Env → Option ℕ → Option String → String → ℤ → M (Unit {0})
add_bond_invoice_action env order sent sender now = do
  order_id ← lift (known_order order)
  invoice ← lift (usable_invoice sent)
  bond ← find_recoverable_bond_for_recipient env order_id sender (env.invoice_sats invoice)
  accept_for env sender invoice now bond
