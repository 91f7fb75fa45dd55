-- ===== src/Bond/Request/Kept.antt =====
-- The creation of a bond keeps what the rows promise (src/app/bond/flow.rs).
use mostro.Prelude.{ℕ, String, Option, true, refl}
use mostro.Prelude.Int.{ℤ}
use mostro.Prelude.Float.{Float64}
use mostro.Result.{Result, ok, err}
use mostro.Bond.Types.{requested, parse_state}
use mostro.Bond.Model.{Bond}
use mostro.Bond.Env.{Order, BondConfig}
use mostro.Bond.Table.{World, Notice, pure, notify}
use mostro.Bond.Slash.Ends.{Ends, bind-Ends}
use mostro.Bond.Lightning.{Lightning}
use mostro.Bond.Math.{compute_bond_amount}
use mostro.Bond.Queries.{create_bond, insert_where}
use mostro.Bond.Sound.{Sound}
use mostro.Bond.Keeps.{
  Keeps, >>=-Keeps, >>-Keeps, insert-Keeps, pure-Keeps, raise-Keeps, lift-Keeps, or_warn-Keeps,
  bind_read-Keeps,
}
use mostro.Bond.Slash.Kept.{release_bond-Keeps}
use mostro.Bond.Request.{
  HoldInvoice, TakerContext, maker_row, taker_row, subscribe, post_bond, request_taker_bond,
  request_maker_bond,
}

subscribe-Keeps :
    (lnd : Lightning) (bond : Bond) (subscribed : Result (Unit {0}))
    → Sound bond
    → Keeps Sound (subscribe lnd bond subscribed)
subscribe-Keeps lnd bond (ok _) h = pure-Keeps Sound tt
subscribe-Keeps lnd bond (err e) h =
    >>-Keeps Sound _ _ (or_warn-Keeps Sound _ (release_bond-Keeps lnd bond h)) (raise-Keeps Sound e)

-- The stored row is the row that was given.
created : (row : Bond) (w : World) → Sound row → Ends (λ bond _. Sound bond) (create_bond row w)
unfolding create_bond pure
created row w h =
    bind-Ends (λ _ _. Unit {0}) (λ bond _. Sound bond) (insert_where (λ _. true) row) _ w
      (any_end _) (λ _ w' _. h)
  where
    any_end : (p : Result ℕ × World) → Ends (λ _ _. Unit {0}) p
    any_end (ok _, w') = tt
    any_end (err _, w') = tt

module _ (lnd : Lightning) (order : Order) (subscribed : Result (Unit {0})) where
  shown-Keeps : (n : Notice) → Keeps Sound (notify n)
  unfolding notify
  shown-Keeps n = record { rows = λ w sound. sound }

  post_bond-Keeps :
      (row : Bond) (payment_request : String)
      → Sound row
      → Keeps Sound (post_bond lnd order row payment_request subscribed)
  unfolding post_bond
  post_bond-Keeps row payment_request h =
      bind_read-Keeps Sound Sound (create_bond row) _
        (unfold create_bond in
          >>=-Keeps Sound _ _ (insert-Keeps Sound _ row h) (λ _. pure-Keeps Sound row))
        (λ w _. created row w h)
        (λ bond sound.
          >>-Keeps Sound _ _
            (>>-Keeps Sound _ _
              (>>-Keeps Sound _ _ (lift-Keeps Sound _) (subscribe-Keeps lnd bond subscribed sound))
              (shown-Keeps _))
            (pure-Keeps Sound bond))

maker_row-Sound :
    (id : ℕ) (now : ℤ) (order_id : ℕ) (pubkey : String) (amount : ℤ) (invoice : HoldInvoice)
    → Sound (maker_row id now order_id pubkey amount invoice)
unfolding parse_state
maker_row-Sound id now order_id pubkey amount invoice = record {
  known = (requested, refl);
  payable = refl;
  readable = refl;
}

taker_row-Sound :
    (id : ℕ) (now : ℤ) (order_id : ℕ) (pubkey : String) (amount : ℤ) (invoice : HoldInvoice)
    (ctx : TakerContext)
    → Sound (taker_row id now order_id pubkey amount invoice ctx)
unfolding parse_state
taker_row-Sound id now order_id pubkey amount invoice ctx = record {
  known = (requested, refl);
  payable = refl;
  readable = refl;
}

module _ (f : Float64) (amount_pct : f.F) (base : ℤ) (config : Option BondConfig) (lnd : Lightning)
    (id : ℕ) (now : ℤ) (invoice : Result HoldInvoice) (subscribed : Result (Unit {0}))
    (order : Order) (pubkey : String) where
  pub request_taker_bond-Keeps :
      (ctx : TakerContext)
      → Keeps Sound (
          request_taker_bond f amount_pct base config lnd id now invoice subscribed order pubkey
            ctx)
  unfolding request_taker_bond
  request_taker_bond-Keeps ctx =
      >>=-Keeps Sound _ _ (>>-Keeps Sound _ _ (lift-Keeps Sound _) (lift-Keeps Sound _)) (λ hold.
        post_bond-Keeps lnd order subscribed _ _ (
          taker_row-Sound id now order.id pubkey (compute_bond_amount f ctx.amount amount_pct base)
            hold ctx))

  pub request_maker_bond-Keeps :
      (notional : ℤ)
      → Keeps Sound (
          request_maker_bond f amount_pct base config lnd id now invoice subscribed order pubkey
            notional)
  unfolding request_maker_bond
  request_maker_bond-Keeps notional =
      >>=-Keeps Sound _ _ (>>-Keeps Sound _ _ (lift-Keeps Sound _) (lift-Keeps Sound _)) (λ hold.
        post_bond-Keeps lnd order subscribed _ _ (
          maker_row-Sound id now order.id pubkey (compute_bond_amount f notional amount_pct base)
            hold))
