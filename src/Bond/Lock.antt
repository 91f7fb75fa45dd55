-- ===== src/Bond/Lock.antt =====
-- The hold invoice of a bond is accepted or cancelled (src/app/bond/flow.rs).
pub mod Kept
pub mod Exclusive
use text.Mathlib.Text.{◌==◌ as str_eq}
use mostro.Prelude.{
  ℕ, String, Bool, true, false, ◌&&◌, ◌||◌, not, ◌⊎◌, inl, inr, Option, none, some, List, [], ◌∷◌,
  if◌then◌else◌, keep, ◌==◌,
}
use mostro.Prelude.Int.{ℤ}
use mostro.Result.{Result, ok, err, Error}
use mostro.Bond.Types.{
  BondState, BondParseError, requested, locked, taker, parse_state, is_terminal, show_role,
  show_state,
}
use mostro.Bond.Model.{Bond}
use mostro.Bond.Env.{
  Env, Order, Status, pending, waiting_taker_bond, waiting_maker_bond, canceled,
  cooperatively_canceled, canceled_by_admin, BondConfig, BondApplyTo, applies_to_taker,
  applies_to_maker,
}
use mostro.Bond.Table.{
  World, M, ◌>>=◌, ◌>>◌, pure, lift, fetch, execute, notify, trade_canceled, in_state, cas, first,
}
use mostro.Bond.Payout.{or_err}
use mostro.Bond.Lightning.{Lightning}
use mostro.Bond.Queries.{find_active_bonds_for_order, update, stating, or_warn}
use mostro.Bond.Release.{release_bond, is_maker, set_released}
use mostro.Bond.Slash.Range.{any}

-- What the handler goes on with: the deferred publication, or the take of the order by the bond's
-- owner.
pub data Resumed : Type 0 where
  nothing : Resumed
  publishes : Order → Resumed
  takes : Order → Bond → Resumed

abbrev pub has_hash : String → Bond → Bool
has_hash hash b = elim b.hash [ none ↦ false | some h ↦ str_eq h hash ]

unfoldable pub find_bond_by_hash : String → M (Option Bond)
find_bond_by_hash hash = fetch (λ bs. first (keep (has_hash hash) bs))

abbrev pub set_locked : ℤ → Bond → Bond
set_locked now b = record b { state = show_state locked; locked_at = some now }

abbrev pub is_locked_taker : ℕ → Bond → Bool
is_locked_taker order_id b =
    b.order_id == order_id && in_state locked b && str_eq b.role (show_role taker)

abbrev pub is_rival : Bond → Bond → Bool
is_rival bond b = is_locked_taker bond.order_id b && not (b.id == bond.id)

-- The trade is taken: a taker's bond is locked.
unfoldable trade_committed_by_locked_taker_bond : List Bond → Bool
trade_committed_by_locked_taker_bond =
    any (λ b. in_state locked b && str_eq b.role (show_role taker))

-- Whether the configuration wants a bond of the taker, or of the maker.
abbrev requires : (BondApplyTo → Bool) → Option BondConfig → Bool
requires covers none = false
requires covers (some c) = c.enabled && covers c.apply_to

unfoldable taker_bond_required : Option BondConfig → Bool
taker_bond_required = requires applies_to_taker

unfoldable maker_bond_required : Option BondConfig → Bool
maker_bond_required = requires applies_to_maker

-- Requested to locked, unless another taker's bond of the order is locked.
unfoldable pub lock_taker : Bond → ℤ → M ℕ
lock_taker bond now =
    stating (λ bs.
      execute (λ b. cas bond.id requested b && not (any (is_rival bond) bs)) (set_locked now))

abbrev pub tell_key : Bond → Option String → M (Unit {0})
tell_key bond none = pure tt
tell_key bond (some key) = notify (trade_canceled bond.order_id key)

unfoldable pub notify_loser : Env → Bond → M (Unit {0})
notify_loser env bond = tell_key bond (env.parse_key bond.pubkey)

abbrev pub is_locked : BondState → Bool
is_locked locked = true
is_locked _ = false

abbrev pub is_loser : Bond → Bond → Bool
is_loser winner b = not (b.id == winner.id) && in_state requested b

unfoldable pub release_losers : Env → Lightning → List Bond → M (Unit {0})
release_losers env lnd [] = pure tt
release_losers env lnd (b ∷ bs) =
    or_warn (release_bond lnd b) >> notify_loser env b >> release_losers env lnd bs

-- An error of the query is logged, and there are no rows.
abbrev pub rows_or_none : Result (List Bond) × World → Result (List Bond) × World
rows_or_none (ok bs, w) = (ok bs, w)
rows_or_none (err _, w) = (ok [], w)

unfoldable pub or_no_rows : M (List Bond) → M (List Bond)
or_no_rows m w = rows_or_none (m w)

abbrev pub is_pre_trade : Option Status → Bool
is_pre_trade (some pending) = true
is_pre_trade (some waiting_taker_bond) = true
is_pre_trade _ = false

abbrev pub is_canceled : Option Status → Bool
is_canceled (some canceled) = true
is_canceled (some cooperatively_canceled) = true
is_canceled (some canceled_by_admin) = true
is_canceled _ = false

abbrev pub waits_for_maker : Option Status → Bool
waits_for_maker (some waiting_maker_bond) = true
waits_for_maker _ = false

module _ (env : Env) (lnd : Lightning) where
  unfoldable pub give_back : Bond → M (Unit {0})
  give_back bond = or_warn (release_bond lnd bond) >> notify_loser env bond

  -- A locked bond: the take goes on where the order still waits for it.
  unfoldable pub resume_take : Bond → M Resumed
  resume_take current = lift (env.order_by_id current.order_id) >>= λ loaded.
      lift (or_err loaded) >>= λ order.
      if is_pre_trade order.status
      then pure (takes order current)
      else ((if is_canceled order.status then give_back current else pure tt) >> pure nothing)

  unfoldable pub cancel_losers : Bond → M (Unit {0})
  cancel_losers winner = or_no_rows (find_active_bonds_for_order winner.order_id) >>= λ rows.
      release_losers env lnd (keep (is_loser winner) rows)

  unfoldable pub lost_race : Bond → BondState → M Resumed
  lost_race current state =
      (if is_terminal state then pure tt else or_warn (release_bond lnd current))
      >> notify_loser env current
      >> pure nothing

  abbrev pub after_lock : ℕ → Bond → BondState ⊎ BondParseError → M Resumed
  after_lock rows current (inr _) = pure nothing
  after_lock rows current (inl state) =
      if rows == 0 && not (is_locked state)
      then lost_race current state
      else ((if rows == 1 then cancel_losers current else pure tt)
          >> (if is_locked state then resume_take current else pure nothing))

  abbrev pub after_lock_found : ℕ → Option Bond → M Resumed
  after_lock_found rows none = pure nothing
  after_lock_found rows (some current) = after_lock rows current (parse_state current.state)

  unfoldable pub on_taker_bond_accepted : Bond → String → M Resumed
  on_taker_bond_accepted bond hash = lock_taker bond (lnd.clock bond.id) >>= λ rows.
      find_bond_by_hash hash >>= after_lock_found rows

  abbrev pub resume_publication : Bond → BondState ⊎ BondParseError → M Resumed
  resume_publication current (inr _) = pure nothing
  resume_publication current (inl state) =
      if is_locked state
      then (lift (env.order_by_id current.order_id) >>= λ loaded. lift (or_err loaded) >>= λ order.
          pure (if waits_for_maker order.status then publishes order else nothing))
      else pure nothing

  abbrev pub after_maker_lock : Option Bond → M Resumed
  after_maker_lock none = pure nothing
  after_maker_lock (some current) = resume_publication current (parse_state current.state)

  -- The number of rows is only logged.
  unfoldable pub on_maker_bond_accepted : Bond → String → M Resumed
  on_maker_bond_accepted bond hash =
      execute (cas bond.id requested) (set_locked (lnd.clock bond.id))
      >> find_bond_by_hash hash
      >>= after_maker_lock

  abbrev pub accepted : String → Option Bond → M Resumed
  accepted hash none = pure nothing
  accepted hash (some bond) =
      if is_maker bond then on_maker_bond_accepted bond hash else on_taker_bond_accepted bond hash

  unfoldable pub on_bond_invoice_accepted : String → M Resumed
  on_bond_invoice_accepted hash = find_bond_by_hash hash >>= accepted hash

abbrev pub is_over : BondState ⊎ BondParseError → Bool
is_over (inl state) = is_terminal state
is_over (inr _) = false

-- The order's return to the book, best effort, is not part of the table.
abbrev pub after_cancel : Lightning → Option Bond → M (Unit {0})
after_cancel lnd none = pure tt
after_cancel lnd (some bond) =
    if is_over (parse_state bond.state)
    then pure tt
    else update (set_released (lnd.clock bond.id) bond)

unfoldable pub on_bond_invoice_canceled : Lightning → String → M (Unit {0})
on_bond_invoice_canceled lnd hash = find_bond_by_hash hash >>= after_cancel lnd
