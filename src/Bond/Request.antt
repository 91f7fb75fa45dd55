-- ===== src/Bond/Request.antt =====
-- The creation of a bond with its hold invoice (src/app/bond/flow.rs, `request_taker_bond`,
-- `request_maker_bond`). What the Lightning node answers to the creation of the invoice and to the
-- subscription, the fresh id and the clock's reading are arguments. The order's move to
-- `waiting-taker-bond`, on the table of orders, follows the taker's request and is left out.
pub mod Kept
use mostro.Prelude.{ℕ, String, Option, none, some}
use mostro.Prelude.Int.{ℤ}
use mostro.Prelude.Float.{Float64}
use mostro.Result.{Result, ok, err, unexpected}
use mostro.Bond.Types.{taker, maker}
use mostro.Bond.Model.{Bond, new_requested}
use mostro.Bond.Env.{Order, BondConfig}
use mostro.Bond.Table.{M, ◌>>=◌, ◌>>◌, pure, raise, lift, notify, pay_bond_invoice}
use mostro.Bond.Lightning.{Lightning}
use mostro.Bond.Math.{compute_bond_amount}
use mostro.Bond.Payout.{or_err}
use mostro.Bond.Queries.{create_bond, or_warn}
use mostro.Bond.Release.{release_bond}

-- What `create_hold_invoice` answers.
pub record HoldInvoice : Type 0 where
  pub payment_request : String
  pub preimage : String
  pub hash : String

pub record TakerContext : Type 0 where
  pub identity : String
  pub trade_index : ℤ
  pub buyer_invoice : Option String
  pub fiat_amount : ℤ
  pub amount : ℤ
  pub fee : ℤ
  pub dev_fee : ℤ

abbrev pub maker_row : ℕ → ℤ → ℕ → String → ℤ → HoldInvoice → Bond
maker_row id now order_id pubkey amount invoice =
    record (new_requested id now order_id pubkey maker amount) {
      hash = some invoice.hash;
      preimage = some invoice.preimage;
      payment_request = some invoice.payment_request;
    }

abbrev pub taker_row : ℕ → ℤ → ℕ → String → ℤ → HoldInvoice → TakerContext → Bond
taker_row id now order_id pubkey amount invoice ctx =
    record (new_requested id now order_id pubkey taker amount) {
      hash = some invoice.hash;
      preimage = some invoice.preimage;
      payment_request = some invoice.payment_request;
      taker_identity = some ctx.identity;
      taker_trade_index = some ctx.trade_index;
      taker_invoice = ctx.buyer_invoice;
      taker_fiat_amount = some ctx.fiat_amount;
      taker_amount = some ctx.amount;
      taker_fee = some ctx.fee;
      taker_dev_fee = some ctx.dev_fee;
    }

-- The subscription comes before the invoice is shown; where it fails the bond is released.
abbrev pub subscribe : Lightning → Bond → Result (Unit {0}) → M (Unit {0})
subscribe lnd bond (ok _) = pure tt
subscribe lnd bond (err e) = or_warn (release_bond lnd bond) >> raise e

-- The row is stored, and its invoice is sent to the one who posts the bond.
unfoldable pub post_bond : Lightning → Order → Bond → String → Result (Unit {0}) → M Bond
post_bond lnd order row payment_request subscribed = create_bond row >>= λ bond.
    lift (or_err order.kind)
    >> subscribe lnd bond subscribed
    >> notify (pay_bond_invoice order.id bond.pubkey bond.amount_sats payment_request)
    >> pure bond

module _ (f : Float64) (amount_pct : f.F) (base_amount_sats : ℤ) (config : Option BondConfig) where
  unfoldable pub request_taker_bond :
      Lightning
      → ℕ
      → ℤ
      → Result HoldInvoice
      → Result (Unit {0})
      → Order
      → String
      → TakerContext
      → M Bond
  request_taker_bond lnd id now created subscribed order taker_pubkey ctx =
      lift (or_err config) >> lift created >>= λ invoice.
      post_bond lnd order
        (taker_row id now order.id taker_pubkey
          (compute_bond_amount f ctx.amount amount_pct base_amount_sats) invoice ctx)
        invoice.payment_request subscribed

  unfoldable pub request_maker_bond :
      Lightning → ℕ → ℤ → Result HoldInvoice → Result (Unit {0}) → Order → String → ℤ → M Bond
  request_maker_bond lnd id now created subscribed order maker_pubkey notional_sats =
      lift (or_err config) >> lift created >>= λ invoice.
      post_bond lnd order
        (maker_row id now order.id maker_pubkey
          (compute_bond_amount f notional_sats amount_pct base_amount_sats) invoice)
        invoice.payment_request subscribed
