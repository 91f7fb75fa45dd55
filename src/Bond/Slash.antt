-- ===== src/Bond/Slash.antt =====
-- The slashing of bonds (src/app/bond/slash.rs): the target of a slash, the slash of one bond, and
-- the notice. The children hold the resolution of a dispute, the timeouts and the range orders.
pub mod Range
pub mod Resolution
pub mod Timeout
pub mod Slices
pub mod Allotted
pub mod Close
pub mod Conserved
pub mod Closes
pub mod Kept
pub mod Resolved
pub mod Timely
pub mod Struck
pub mod Unarmed
mod Tests
pub mod Ends
pub mod Sums
pub mod Resynced
use text.Mathlib.Text.{◌==◌ as str_eq}
use mostro.Prelude.{
  ℕ, String, Bool, true, false, ◌&&◌, not, Option, none, some, List, if◌then◌else◌, keep, ◌==◌,
  is_none, is_some,
}
use mostro.Prelude.Int.{ℤ}
use mostro.Prelude.Float.{Float64}
use mostro.Result.{Result, ok, err, unexpected, invalid_payload}
use mostro.Bond.Types.{BondSlashReason, timeout, locked, pending_payout, show_reason, show_state}
use mostro.Bond.Model.{Bond}
use mostro.Bond.Env.{Env, Order, Kind, buy, sell}
use mostro.Bond.Table.{
  M, ◌>>=◌, ◌>>◌, pure, raise, lift, fetch, execute, notify, bond_slashed, in_state, cas, first,
}
use mostro.Bond.Math.{compute_node_share}
use mostro.Bond.Payout.{ignore}
use mostro.Bond.Lightning.{Lightning, settle_hold_invoice, is_settled}
use mostro.Bond.Queries.{
  find_active_bonds_for_order, find_range_root_order, find_maker_bond_for_order, or_warn,
}

pub data Side : Type 0 where
  seller buyer : Side

-- `BondResolution` of mostro-core.
pub record BondResolution : Type 0 where
  pub slash_seller : Bool
  pub slash_buyer : Bool

abbrev pub makes : Kind → Side → Bool
makes sell seller = true
makes sell buyer = false
makes buy seller = false
makes buy buyer = true

abbrev pub side_of_kind : Option Kind → Side → Result Bool
side_of_kind none side = err unexpected
side_of_kind (some kind) side = ok (makes kind side)

abbrev pub side_is_maker : Order → Side → Result Bool
side_is_maker order side = side_of_kind order.kind side

abbrev pub side_pubkey : Order → Side → Option String
side_pubkey order seller = order.seller_pubkey
side_pubkey order buyer = order.buyer_pubkey

abbrev pub locked_of : Option String → List Bond → Option Bond
locked_of none bonds = none
locked_of (some key) bonds = first (keep (λ b. str_eq b.pubkey key && in_state locked b) bonds)

abbrev pub resolve_locked_bond : Order → List Bond → Side → Option Bond
resolve_locked_bond order bonds side = locked_of (side_pubkey order side) bonds

abbrev pub order_has_range_maker_bond : Env → Order → Result Bool
order_has_range_maker_bond env order = elim (find_range_root_order env order) [
  | ok root ↦ ok (is_some root.max_amount)
  | err e ↦ err e
]

abbrev pub only_locked : Option Bond → Option Bond
only_locked none = none
only_locked (some b) = if in_state locked b then some b else none

abbrev pub or_range_root : Env → Order → Side → Bool → Option Bond → M (Option Bond)
or_range_root env order side is_range (some b) = pure (some b)
or_range_root env order side true none = lift (side_is_maker order side) >>= λ is_makers.
    if is_makers
    then (find_maker_bond_for_order env order >>= λ found. pure (only_locked found))
    else pure none
or_range_root env order side false none = pure none

unfoldable pub resolve_slash_target : Env → Order → List Bond → Side → Bool → M (Option Bond)
resolve_slash_target env order bonds side is_range =
    or_range_root env order side is_range (resolve_locked_bond order bonds side)

-- A slash that is asked for has a target.
unfoldable pub validate_side : Env → Order → List Bond → Bool → Bool → Side → M (Unit {0})
validate_side env order bonds is_range asked side =
    if asked
    then (resolve_slash_target env order bonds side is_range >>= λ target.
        if is_none target then raise invalid_payload else pure tt)
    else pure tt

unfoldable pub validate_bond_resolution : Env → Order → BondResolution → M (Unit {0})
validate_bond_resolution env order resolution =
    if not resolution.slash_seller && not resolution.slash_buyer
    then pure tt
    else (find_active_bonds_for_order order.id >>= λ bonds.
        lift (order_has_range_maker_bond env order) >>= λ is_range.
        validate_side env order bonds is_range resolution.slash_seller seller
        >> validate_side env order bonds is_range resolution.slash_buyer buyer)

-- The columns that a slash writes, in one statement.
abbrev pub set_slashed : BondSlashReason → ℤ → ℤ → Bond → Bond
set_slashed reason now node_share b = record b {
  state = show_state pending_payout;
  slashed_reason = some (show_reason reason);
  slashed_at = some now;
  node_share_sats = some node_share;
}

-- `WHERE id = ?`, the reason alone; a NULL equals nothing.
abbrev pub has_reason : BondSlashReason → Option Bond → Bool
has_reason expected none = false
has_reason expected (some b) = elim b.slashed_reason [
  | none ↦ false
  | some reason ↦ str_eq reason (show_reason expected)
]

unfoldable pub slash_reason_recorded : ℕ → BondSlashReason → M Bool
slash_reason_recorded bond_id expected =
    fetch (λ bs. has_reason expected (first (keep (λ b. b.id == bond_id) bs)))

unfoldable pub timeout_slash_confirmed : ℕ → M Bool
timeout_slash_confirmed bond_id = slash_reason_recorded bond_id timeout

abbrev pub tell : Order → ℤ → Option Kind → Option String → M (Unit {0})
tell order amount kind none = pure tt
tell order amount none (some key) = pure tt
tell order amount (some kind) (some key) = notify (bond_slashed order.id key amount)

unfoldable pub notify_bond_slashed : Env → Order → Bond → M (Unit {0})
notify_bond_slashed env order slashed =
    tell order slashed.amount_sats order.kind (env.parse_key slashed.pubkey)

module _ (f : Float64) (pct : f.F) where
  -- The CAS, once the hold invoice is settled; the number of rows is only logged.
  abbrev pub after_settle : Bond → BondSlashReason → ℤ → Option String → M (Unit {0})
  after_settle bond reason now answer =
      if is_settled answer
      then or_warn (
          ignore (
            execute (cas bond.id locked)
              (set_slashed reason now (compute_node_share f bond.amount_sats pct))))
      else pure tt

  abbrev pub slash_with : Lightning → Bond → BondSlashReason → Option String → M (Unit {0})
  slash_with lnd bond reason none = pure tt
  slash_with lnd bond reason (some preimage) =
      settle_hold_invoice lnd preimage >>= after_settle bond reason (lnd.clock bond.id)

  -- It never fails: the callers confirm the slash by the recorded reason.
  unfoldable pub slash_one : Lightning → Bond → BondSlashReason → M (Unit {0})
  slash_one lnd bond reason = slash_with lnd bond reason bond.preimage
