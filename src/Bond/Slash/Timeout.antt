-- ===== src/Bond/Slash/Timeout.antt =====
-- The slash of the party that let a waiting order time out (src/app/bond/slash.rs).
use mostro.Prelude.{ℕ, Bool, true, false, ◌&&◌, ◌||◌, Option, none, some, List, if◌then◌else◌, ◌==◌}
use mostro.Prelude.Float.{Float64}
use mostro.Bond.Types.{timeout}
use mostro.Bond.Model.{Bond}
use mostro.Bond.Env.{
  Env, Order, Kind, buy, sell, Status, waiting_buyer_invoice, waiting_payment, BondConfig,
  applies_to_maker, applies_to_taker,
}
use mostro.Bond.Table.{M, ◌>>=◌, ◌>>◌, pure, lift}
use mostro.Bond.Lightning.{Lightning}
use mostro.Bond.Queries.{find_active_bonds_for_order, find_range_root_order, find_slice_slash_child}
use mostro.Bond.Release.{
  release_all, release_bonds_for_order_or_warn, release_taker_bonds_for_order_or_warn, is_maker,
}
use mostro.Bond.Slash.{
  Side, seller, buyer, side_is_maker, order_has_range_maker_bond, resolve_slash_target, slash_one,
  timeout_slash_confirmed,
}
use mostro.Bond.Slash.Range.{record_maker_slice_slash}

abbrev pub republishes : Option Status → Option Kind → Bool
republishes (some waiting_buyer_invoice) (some sell) = true
republishes (some waiting_payment) (some buy) = true
republishes _ _ = false

abbrev pub order_republishes_on_timeout : Order → Bool
order_republishes_on_timeout order = republishes order.status order.kind

abbrev pub responsible_side : Option Status → Option Side
responsible_side (some waiting_buyer_invoice) = some buyer
responsible_side (some waiting_payment) = some seller
responsible_side _ = none

abbrev pub slash_armed : Option BondConfig → Bool → Bool
slash_armed none responsible_is_maker = false
slash_armed (some c) responsible_is_maker =
    c.enabled
    && c.slash_on_waiting_timeout
    && (if responsible_is_maker then applies_to_maker c.apply_to else applies_to_taker c.apply_to)

unfoldable pub release_on_timeout : Lightning → ℕ → Bool → M (Unit {0})
release_on_timeout lnd order_id stays =
    if stays
    then release_taker_bonds_for_order_or_warn lnd order_id
    else release_bonds_for_order_or_warn lnd order_id

-- The bonds that the last loop leaves alone.
abbrev pub left_alone : ℕ → Bool → Bool → Bond → Bool
left_alone responsible_id stays is_range b =
    b.id == responsible_id || is_maker b && (stays || is_range)

module _ (f : Float64) (pct : f.F) (env : Env) (lnd : Lightning) (fresh : ℕ) where
  unfoldable pub slash_responsible : Order → Bool → Bond → M (Option Bond)
  slash_responsible order of_range responsible =
      if of_range
      then (lift (find_range_root_order env order) >>= λ root.
          record_maker_slice_slash f pct fresh (lnd.clock responsible.id) order root responsible
            timeout
          >>= λ inserted.
              if inserted then find_slice_slash_child responsible.id order.id else pure none)
      else (slash_one f pct lnd responsible timeout
          >> timeout_slash_confirmed responsible.id
          >>= λ confirmed. pure (if confirmed then some responsible else none))

  abbrev pub slash_found : Order → Bool → Bool → Bool → List Bond → Option Bond → M (Option Bond)
  slash_found order stays is_makers is_range bonds none =
      release_on_timeout lnd order.id stays >> pure none
  slash_found order stays is_makers is_range bonds (some responsible) =
      slash_responsible order (is_makers && is_range) responsible >>= λ slashed_row.
      release_all lnd (left_alone responsible.id stays is_range) bonds >> pure slashed_row

  unfoldable pub slash_side_on_timeout : Order → Bool → Bool → Side → M (Option Bond)
  slash_side_on_timeout order stays is_makers side =
      find_active_bonds_for_order order.id >>= λ bonds.
      lift (order_has_range_maker_bond env order) >>= λ is_range.
      resolve_slash_target env order bonds side is_range
      >>= slash_found order stays is_makers is_range bonds

  abbrev pub slash_or_release_side : Order → Option BondConfig → Option Side → M (Option Bond)
  slash_or_release_side order config none =
      release_bonds_for_order_or_warn lnd order.id >> pure none
  slash_or_release_side order config (some side) = lift (side_is_maker order side) >>= λ is_makers.
      let stays = order_republishes_on_timeout order in
      if slash_armed config is_makers
      then slash_side_on_timeout order stays is_makers side
      else (release_on_timeout lnd order.id stays >> pure none)

  unfoldable pub slash_or_release_on_timeout : Order → Option BondConfig → M (Option Bond)
  slash_or_release_on_timeout order config =
      slash_or_release_side order config (responsible_side order.status)
