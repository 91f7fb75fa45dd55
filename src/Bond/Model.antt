-- ===== src/Bond/Model.antt =====
-- The row of the `bonds` table (src/app/bond/model.rs). A `Uuid` is its number, an `i64` an
-- integer, a text column a `String`.
use mostro.Prelude.{ℕ, String, Option, none}
use mostro.Prelude.Int.{ℤ, pos}
use mostro.Bond.Types.{BondRole, requested, show_role, show_state}

pub record Bond : Type 0 where
  pub id : ℕ
  pub order_id : ℕ
  pub parent_bond_id : Option ℕ
  pub child_order_id : Option ℕ
  pub pubkey : String
  pub role : String
  pub amount_sats : ℤ
  pub slashed_share_sats : ℤ
  pub state : String
  pub slashed_reason : Option String
  pub hash : Option String
  pub preimage : Option String
  pub payment_request : Option String
  pub payout_invoice : Option String
  pub payout_routing_fee_sats : Option ℤ
  pub payout_payment_hash : Option String
  pub node_share_sats : Option ℤ
  pub payout_attempts : ℤ
  pub invoice_request_attempts : ℤ
  pub last_invoice_request_at : Option ℤ
  pub locked_at : Option ℤ
  pub released_at : Option ℤ
  pub slashed_at : Option ℤ
  pub created_at : ℤ
  pub taker_identity : Option String
  pub taker_trade_index : Option ℤ
  pub taker_invoice : Option String
  pub taker_fiat_amount : Option ℤ
  pub taker_amount : Option ℤ
  pub taker_fee : Option ℤ
  pub taker_dev_fee : Option ℤ

-- `id` is the fresh `Uuid`, `now` the clock's reading.
abbrev pub new_requested : ℕ → ℤ → ℕ → String → BondRole → ℤ → Bond
new_requested id now order_id pubkey role amount_sats = record {
  id = id;
  order_id = order_id;
  parent_bond_id = none;
  child_order_id = none;
  pubkey = pubkey;
  role = show_role role;
  amount_sats = amount_sats;
  slashed_share_sats = pos 0;
  state = show_state requested;
  slashed_reason = none;
  hash = none;
  preimage = none;
  payment_request = none;
  payout_invoice = none;
  payout_routing_fee_sats = none;
  payout_payment_hash = none;
  node_share_sats = none;
  payout_attempts = pos 0;
  invoice_request_attempts = pos 0;
  last_invoice_request_at = none;
  locked_at = none;
  released_at = none;
  slashed_at = none;
  created_at = now;
  taker_identity = none;
  taker_trade_index = none;
  taker_invoice = none;
  taker_fiat_amount = none;
  taker_amount = none;
  taker_fee = none;
  taker_dev_fee = none;
}
