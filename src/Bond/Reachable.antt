-- ===== src/Bond/Reachable.antt =====
-- The bonds' table under any sequence of the handlers' calls (src/app/bond/).
use mostro.Prelude.{ℕ, String, Bool, Option, none, some, List, [], ◌∷◌, All}
use mostro.Prelude.Int.{ℤ, pos, leb_ℤ}
use mostro.Prelude.Float.{Float64}
use mostro.Bond.Types.{BondSlashReason}
use mostro.Bond.Model.{Bond}
use mostro.Bond.Env.{Env, Order, BondConfig, claim_window}
use mostro.Bond.Table.{World, M, notify}
use mostro.Bond.Lightning.{Lightning}
use mostro.Bond.Request.{HoldInvoice, TakerContext, request_taker_bond, request_maker_bond}
use mostro.Bond.Request.Kept.{request_taker_bond-Keeps, request_maker_bond-Keeps}
use mostro.Result.{Result}
use mostro.Bond.Release.{release_bonds_for_order}
use mostro.Bond.Sound.{Sound}
use mostro.Bond.Keeps.{Keeps, >>=-Keeps, pure-Keeps, raise-Keeps, lift-Keeps, fetch-Keeps, if-Keeps}
use mostro.Bond.Carried.{Rows-All, settled-Sound, taken-Sound}
use mostro.Bond.Cycle.{Clock, NodeAnswers, run_bond_payout_cycle}
use mostro.Bond.Cycle.Lifecycle.{Settles, run_bond_payout_cycle-Settles}
use mostro.Bond.Invoice.{
  apply_payout_invoice, find_among, find_recoverable_bond_for_recipient, enqueue_accepted,
  notify_invoice_received, is_rejected, accept_for, add_bond_invoice_action,
}
use mostro.Bond.Invoice.Applied.{Takes, apply_payout_invoice-Takes}
use mostro.Bond.Lock.{on_bond_invoice_accepted, on_bond_invoice_canceled}
use mostro.Bond.Lock.Kept.{on_accepted-Keeps, on_canceled-Keeps}
use mostro.Bond.Slash.{Side, BondResolution}
use mostro.Bond.Slash.Range.{resolve_range_maker_bond_at_close}
use mostro.Bond.Slash.Resolution.{apply_bond_resolution}
use mostro.Bond.Slash.Timeout.{slash_or_release_on_timeout}
use mostro.Bond.Slash.Kept.{release_bonds-Keeps}
use mostro.Bond.Slash.Resolved.{close-Keeps}
use mostro.Bond.Slash.Timely.{apply_bond_resolution-Keeps, slash_or_release_on_timeout-Keeps}

apply-Keeps :
    (bond : Bond) (invoice : String) (now window : ℤ)
    → Keeps Sound (apply_payout_invoice bond invoice now window)
apply-Keeps bond invoice now window = record {
  rows = λ w sound.
      Rows-All (Takes bond invoice now window) Sound (taken-Sound bond invoice now window) w.bonds _
        (apply_payout_invoice-Takes bond invoice now window w) sound;
}

received-Keeps :
    (env : Env) (bond : Bond) (sender : String) (share : ℤ)
    → Keeps Sound (notify_invoice_received env bond sender share)
unfolding notify_invoice_received enqueue_accepted notify
received-Keeps env bond sender share = record {
  rows =
      (>>=-Keeps Sound _ _ (lift-Keeps Sound _) (λ found.
        >>=-Keeps Sound _ _ (lift-Keeps Sound _) (λ order.
          >>=-Keeps Sound _ _ (lift-Keeps Sound _)
            (λ small. record { rows = λ w sound. sound })))).rows;
}

accept-Keeps :
    (env : Env) (sender invoice : String) (now : ℤ) (bond : Option Bond)
    → Keeps Sound (accept_for env sender invoice now bond)
unfolding accept_for
accept-Keeps env sender invoice now none = raise-Keeps Sound _
accept-Keeps env sender invoice now (some bond) = >>=-Keeps Sound _ _ (lift-Keeps Sound _) (λ share.
    if-Keeps Sound (leb_ℤ share (pos 0)) _ _ (raise-Keeps Sound _) (
      if-Keeps Sound (env.is_valid_invoice invoice share) _ _
        (>>=-Keeps Sound _ _ (apply-Keeps bond invoice now (claim_window env.config)) (λ outcome.
          if-Keeps Sound (is_rejected outcome) _ _ (raise-Keeps Sound _)
            (received-Keeps env bond sender share)))
        (raise-Keeps Sound _)))

loaded-Keeps :
    {A : Type 0} (m : M A) (k : Order → M A) (o : Option Order)
    → Keeps Sound m
    → ((order : Order) → Keeps Sound (k order))
    → Keeps Sound (elim o as (λ _. M A) [ none ↦ m | some order ↦ k order ])
loaded-Keeps m k none hm hk = hm
loaded-Keeps m k (some order) hm hk = hk order

among-Keeps :
    (env : Env) (order_id : ℕ) (sender : String) (expected : Option ℤ) (bs : List Bond)
    → Keeps Sound (find_among env order_id sender expected bs)
unfolding find_among
among-Keeps env order_id sender expected [] = pure-Keeps Sound none
among-Keeps env order_id sender expected (b ∷ bs) =
    >>=-Keeps Sound _ _ (lift-Keeps Sound _) (λ found.
      loaded-Keeps _ _ found (pure-Keeps Sound none)
        (λ order. >>=-Keeps Sound _ _ (lift-Keeps Sound _) (λ ms. pure-Keeps Sound _)))

submit-Keeps :
    (env : Env) (order : Option ℕ) (sent : Option String) (sender : String) (now : ℤ)
    → Keeps Sound (add_bond_invoice_action env order sent sender now)
unfolding add_bond_invoice_action find_recoverable_bond_for_recipient
submit-Keeps env order sent sender now = >>=-Keeps Sound _ _ (lift-Keeps Sound _) (λ order_id.
    >>=-Keeps Sound _ _ (lift-Keeps Sound _) (λ invoice.
      >>=-Keeps Sound _ _
        (>>=-Keeps Sound _ _ (fetch-Keeps Sound _)
          (among-Keeps env order_id sender (env.invoice_sats invoice)))
        (accept-Keeps env sender invoice now)))

-- One call of a handler, with whatever it is told from outside; `falters` decides which coming
-- statements fail.
pub data Step (f : Float64) (w : World) : World → Type 0 where
  posts_taker :
      (pct : f.F) (base : ℤ) (config : Option BondConfig) (lnd : Lightning) (id : ℕ) (now : ℤ)
      (invoice : Result HoldInvoice) (subscribed : Result (Unit {0})) (order : Order)
      (pubkey : String) (ctx : TakerContext)
      → Step f w
          (request_taker_bond f pct base config lnd id now invoice subscribed order pubkey ctx w).1
  posts_maker :
      (pct : f.F) (base : ℤ) (config : Option BondConfig) (lnd : Lightning) (id : ℕ) (now : ℤ)
      (invoice : Result HoldInvoice) (subscribed : Result (Unit {0})) (order : Order)
      (pubkey : String) (notional : ℤ)
      → Step f w
          (request_maker_bond f pct base config lnd id now invoice subscribed order pubkey notional
            w).1
  accepts :
      (env : Env) (lnd : Lightning) (hash : String)
      → Step f w (on_bond_invoice_accepted env lnd hash w).1
  cancels : (lnd : Lightning) (hash : String) → Step f w (on_bond_invoice_canceled lnd hash w).1
  releases : (lnd : Lightning) (order_id : ℕ) → Step f w (release_bonds_for_order lnd order_id w).1
  resolves :
      (pct : f.F) (env : Env) (lnd : Lightning) (fresh : Side → ℕ) (order : Order)
      (resolution : BondResolution) (reason : BondSlashReason)
      → Step f w (apply_bond_resolution f pct env lnd fresh order resolution reason w).1
  times_out :
      (pct : f.F) (env : Env) (lnd : Lightning) (fresh : ℕ) (order : Order)
      (config : Option BondConfig)
      → Step f w (slash_or_release_on_timeout f pct env lnd fresh order config w).1
  closes :
      (fresh : ℕ) (env : Env) (lnd : Lightning) (order : Order)
      → Step f w (resolve_range_maker_bond_at_close fresh env lnd order w).1
  pays :
      (env : Env) (clock : ℕ → Clock) (node : ℕ → NodeAnswers)
      → Step f w (run_bond_payout_cycle env clock node w)
  submits :
      (env : Env) (order : Option ℕ) (sent : Option String) (sender : String) (now : ℤ)
      → Step f w (add_bond_invoice_action env order sent sender now w).1
  falters : (faults : List Bool) → Step f w (record w { faults = faults })

-- Any number of calls.
pub data Reaches (f : Float64) (w : World) : World → Type 0 where
  starts : Reaches f w w
  goes_on : (w' w'' : World) → Reaches f w w' → Step f w' w'' → Reaches f w w''

module _ (f : Float64) where
  Step-Sound : (w w' : World) → Step f w w' → All Sound w.bonds → All Sound w'.bonds
  Step-Sound w _ (posts_taker pct base config lnd id now invoice subscribed order pubkey ctx) =
      (request_taker_bond-Keeps f pct base config lnd id now invoice subscribed order pubkey
          ctx).rows
        w
  Step-Sound w _ (posts_maker pct base config lnd id now invoice subscribed order pubkey notional) =
      (request_maker_bond-Keeps f pct base config lnd id now invoice subscribed order pubkey
          notional).rows
        w
  Step-Sound w _ (accepts env lnd hash) = (on_accepted-Keeps env lnd hash).rows w
  Step-Sound w _ (cancels lnd hash) = (on_canceled-Keeps lnd hash).rows w
  Step-Sound w _ (releases lnd order_id) = (release_bonds-Keeps lnd order_id).rows w
  Step-Sound w _ (resolves pct env lnd fresh order resolution reason) =
      (apply_bond_resolution-Keeps f pct env lnd fresh order resolution reason).rows w
  Step-Sound w _ (times_out pct env lnd fresh order config) =
      (slash_or_release_on_timeout-Keeps f pct env lnd fresh order config).rows w
  Step-Sound w _ (closes fresh env lnd order) = (close-Keeps fresh env lnd order).rows w
  Step-Sound w _ (pays env clock node) =
      Rows-All Settles Sound settled-Sound w.bonds _
        (run_bond_payout_cycle-Settles env clock node w)
  Step-Sound w _ (submits env order sent sender now) =
      (submit-Keeps env order sent sender now).rows w
  Step-Sound w _ (falters faults) = λ sound. sound

  -- Start with a table whose rows are sound, an empty one for instance, and let the handlers be
  -- called in any order, with any answers from outside and any failing statements. Then every row
  -- has a known state and a slash reason that can be read where there is one, and every row that
  -- waits for its payout, or whose payout failed, carries the time of its slash, the node's share
  -- and a reason.
  pub Reaches-Sound : (w w' : World) → Reaches f w w' → All Sound w.bonds → All Sound w'.bonds
  Reaches-Sound w _ starts sound = sound
  Reaches-Sound w _ (goes_on w' w'' before step) sound =
      Step-Sound w' w'' step (Reaches-Sound w w' before sound)
