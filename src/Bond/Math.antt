-- ===== src/Bond/Math.antt =====
-- The size of a bond, and the node's share of a slashed one (src/app/bond/math.rs).
pub mod Split
use mostro.Prelude.{Bool, true, false, ◌||◌, if◌then◌else◌}
use mostro.Prelude.Int.{ℤ, pos, leb_ℤ, max_ℤ, i64_max}
use mostro.Prelude.Float.{Float64}

module _ (f : Float64) where
  -- The rounded percentage as sats, within the range of an `i64`.
  abbrev pub pct_sats : f.F → ℤ
  pct_sats r =
      if f.le (f.of_i64 i64_max) r then i64_max else if f.le r f.zero then pos 0 else f.to_i64 r

  -- The percentage and the floor of the configuration are arguments.
  unfoldable pub compute_bond_amount : ℤ → f.F → ℤ → ℤ
  compute_bond_amount order_amount_sats amount_pct base_amount_sats =
      let base = max_ℤ base_amount_sats (pos 0) in
      if leb_ℤ order_amount_sats (pos 0) || f.le amount_pct f.zero
      then base
      else max_ℤ (pct_sats (f.round (f.mul (f.of_i64 order_amount_sats) amount_pct))) base

  unfoldable pub compute_node_share : ℤ → f.F → ℤ
  compute_node_share amount_sats pct =
      let floored = f.floor (f.mul (f.of_i64 amount_sats) (f.clamp pct f.zero f.one)) in
      if leb_ℤ amount_sats (pos 0)
      then pos 0
      else if f.le floored f.zero
      then pos 0
      else if f.le (f.of_i64 amount_sats) floored
      then amount_sats
      else f.to_i64 floored
