-- ===== src/Bond/Env.antt =====
-- What the bond handlers read and do not own: the configuration, the orders of mostro-core, and the
-- answers of the key and invoice decoders.
use mostro.Prelude.{ℕ, ◌*◌, String, Option, none, some, Bool, true, false}
use mostro.Prelude.Int.{ℤ, pos}
use mostro.Result.{Result}

-- Which side of a trade posts a bond.
pub data BondApplyTo : Type 0 where
  take make each_side : BondApplyTo

abbrev pub applies_to_taker : BondApplyTo → Bool
applies_to_taker take = true
applies_to_taker make = false
applies_to_taker each_side = true

abbrev pub applies_to_maker : BondApplyTo → Bool
applies_to_maker take = false
applies_to_maker make = true
applies_to_maker each_side = true

-- `AntiAbuseBondSettings`, less the amounts and shares, which are floats and arguments of their own.
pub record BondConfig : Type 0 where
  pub enabled : Bool
  pub slash_on_waiting_timeout : Bool
  pub apply_to : BondApplyTo
  pub payout_claim_window_days : ℕ
  pub payout_invoice_window_seconds : ℕ
  pub payout_max_retries : ℕ

pub data Kind : Type 0 where
  buy sell : Kind

-- `Status` of mostro-core, as far as the bond handlers tell its values apart.
pub data Status : Type 0 where
  pending waiting_taker_bond waiting_maker_bond waiting_buyer_invoice waiting_payment : Status
  canceled cooperatively_canceled canceled_by_admin other_status : Status

-- The fields of mostro-core's `Order` that the handlers read; `kind` and `status` are what
-- `get_order_kind` and `get_order_status` answer, and `none` is an error.
pub record Order : Type 0 where
  pub id : ℕ
  pub kind : Option Kind
  pub buyer_pubkey : Option String
  pub seller_pubkey : Option String
  pub max_amount : Option ℤ
  pub fiat_amount : ℤ
  pub range_parent_id : Option ℕ
  pub status : Option Status

pub record Env : Type 0 where
  -- `Settings::get_bond`
  pub config : Option BondConfig
  -- `Order::by_id`
  pub order_by_id : ℕ → Result (Option Order)
  -- `PublicKey::from_str`, then `to_string`
  pub parse_key : String → Option String
  -- `decode_invoice`, then the payment hash in hexadecimal
  pub payment_hash : String → Option String
  -- the sats of the invoice's amount
  pub invoice_sats : String → Option ℤ
  -- `is_valid_invoice` for the amount, with no fee
  pub is_valid_invoice : String → ℤ → Bool
  -- `routing_fee_cap_sats`
  pub routing_fee_cap : ℤ → ℤ

abbrev pub claim_window : Option BondConfig → ℤ
claim_window none = pos 1296000
claim_window (some c) = pos (c.payout_claim_window_days * 86400)

abbrev pub invoice_window : Option BondConfig → ℤ
invoice_window none = pos 300
invoice_window (some c) = pos c.payout_invoice_window_seconds

abbrev pub max_retries : Option BondConfig → ℤ
max_retries none = pos 5
max_retries (some c) = pos c.payout_max_retries
