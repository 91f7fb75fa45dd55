-- ===== src/Bond/Slash/Timely.antt =====
-- A dispute's resolution and a timeout keep the rows sound (src/app/bond/slash.rs).
use mostro.Prelude.{ℕ, Bool, true, false, ◌&&◌, Option, none, some, List, All}
use mostro.Prelude.Float.{Float64}
use mostro.Bond.Types.{BondSlashReason, timeout}
use mostro.Bond.Model.{Bond}
use mostro.Bond.Env.{Env, Order, BondConfig}
use mostro.Bond.Lightning.{Lightning}
use mostro.Bond.Queries.{
  find_slice_slash_child, find_maker_bond_for_order, find_bond_by_order_and_role,
}
use mostro.Bond.Release.{release_bonds_for_order_or_warn, release_taker_bonds_for_order_or_warn}
use mostro.Bond.Keeps.{
  Keeps, >>=-Keeps, >>-Keeps, pure-Keeps, lift-Keeps, fetch-Keeps, if-Keeps, or_warn-Keeps,
}
use mostro.Bond.Sound.{Sound}
use mostro.Bond.Slash.{
  Side, seller, buyer, or_range_root, resolve_slash_target, resolve_locked_bond,
  slash_reason_recorded, timeout_slash_confirmed, BondResolution,
}
use mostro.Bond.Slash.Resolution.{
  slash_range_maker, slash_inline, is_range_maker, slash_target, slash_side, apply_bond_resolution,
}
use mostro.Bond.Slash.Timeout.{
  release_on_timeout, slash_responsible, slash_found, slash_side_on_timeout, slash_armed,
  slash_or_release_side, slash_or_release_on_timeout, order_republishes_on_timeout,
  responsible_side,
}
use mostro.Bond.Slash.Kept.{
  release_all-Keeps, release_active-Keeps, release_bonds-Keeps, bind_active-Keeps,
}
use mostro.Bond.Slash.Resolved.{slash_one-Keeps, record_slice-Keeps}

or_root-Keeps :
    (env : Env) (order : Order) (side : Side) (is_range : Bool) (target : Option Bond)
    → Keeps Sound (or_range_root env order side is_range target)
unfolding find_maker_bond_for_order find_bond_by_order_and_role
or_root-Keeps env order side is_range (some b) = pure-Keeps Sound _
or_root-Keeps env order side true none = >>=-Keeps Sound _ _ (lift-Keeps Sound _) (λ makes.
    if-Keeps Sound makes _ _
      (>>=-Keeps Sound _ _ (>>=-Keeps Sound _ _ (lift-Keeps Sound _) (λ _. fetch-Keeps Sound _))
        (λ _. pure-Keeps Sound _))
      (pure-Keeps Sound none))
or_root-Keeps env order side false none = pure-Keeps Sound none

target-Keeps :
    (env : Env) (order : Order) (bonds : List Bond) (side : Side) (is_range : Bool)
    → Keeps Sound (resolve_slash_target env order bonds side is_range)
unfolding resolve_slash_target
target-Keeps env order bonds side is_range =
    or_root-Keeps env order side is_range (resolve_locked_bond order bonds side)

module _ (f : Float64) (pct : f.F) (env : Env) (lnd : Lightning) where
  inline-Keeps :
      (reason : BondSlashReason) (target : Bond)
      → Keeps Sound (slash_inline f pct env lnd reason target)
  unfolding slash_inline slash_reason_recorded
  inline-Keeps reason target =
      >>=-Keeps Sound _ _
        (>>-Keeps Sound _ _ (slash_one-Keeps f pct lnd target reason) (fetch-Keeps Sound _))
        (λ _. pure-Keeps Sound _)

  range-Keeps :
      (fresh : ℕ) (order : Order) (reason : BondSlashReason) (target : Bond)
      → Keeps Sound (slash_range_maker f pct env lnd fresh order reason target)
  unfolding slash_range_maker find_slice_slash_child
  range-Keeps fresh order reason target = >>=-Keeps Sound _ _ (lift-Keeps Sound _) (λ root.
      >>=-Keeps Sound _ _
        (record_slice-Keeps f pct fresh (lnd.clock target.id) order root target reason)
        (λ inserted.
          if-Keeps Sound inserted _ _
            (>>=-Keeps Sound _ _ (fetch-Keeps Sound _) (λ _. pure-Keeps Sound _))
            (pure-Keeps Sound _)))

  which-Keeps :
      (order : Order) (side : Side) (is_range : Bool)
      → Keeps Sound (is_range_maker f pct env lnd order side is_range)
  which-Keeps order side true = lift-Keeps Sound _
  which-Keeps order side false = pure-Keeps Sound false

  found-Keeps :
      (fresh : ℕ) (order : Order) (is_range : Bool) (reason : BondSlashReason) (side : Side)
      (target : Option Bond)
      → Keeps Sound (slash_target f pct env lnd fresh order is_range reason side target)
  found-Keeps fresh order is_range reason side none = pure-Keeps Sound _
  found-Keeps fresh order is_range reason side (some target) =
      >>=-Keeps Sound _ _ (which-Keeps order side is_range) (λ of_range.
        if-Keeps Sound of_range _ _ (range-Keeps fresh order reason target)
          (inline-Keeps reason target))

  side-Keeps :
      (fresh : ℕ) (order : Order) (active : List Bond) (is_range : Bool) (reason : BondSlashReason)
      (asked : Bool) (side : Side)
      → Keeps Sound (slash_side f pct env lnd fresh order active is_range reason asked side)
  unfolding slash_side
  side-Keeps fresh order active is_range reason asked side =
      if-Keeps Sound asked _ _
        (>>=-Keeps Sound _ _ (target-Keeps env order active side is_range)
          (found-Keeps fresh order is_range reason side))
        (pure-Keeps Sound _)

  pub apply_bond_resolution-Keeps :
      (fresh : Side → ℕ) (order : Order) (resolution : BondResolution) (reason : BondSlashReason)
      → Keeps Sound (apply_bond_resolution f pct env lnd fresh order resolution reason)
  unfolding apply_bond_resolution
  apply_bond_resolution-Keeps fresh order resolution reason =
      bind_active-Keeps lnd order.id _ (λ active sound.
        >>=-Keeps Sound _ _ (lift-Keeps Sound _) (λ is_range.
          >>=-Keeps Sound _ _
            (side-Keeps (fresh seller) order active is_range reason resolution.slash_seller seller)
            (λ sold.
              >>=-Keeps Sound _ _
                (side-Keeps (fresh buyer) order active is_range reason resolution.slash_buyer buyer)
                (λ bought.
                  >>-Keeps Sound _ _ (release_all-Keeps lnd _ active sound) (pure-Keeps Sound _)))))

  on_timeout-Keeps :
      (order_id : ℕ) (stays : Bool) → Keeps Sound (release_on_timeout lnd order_id stays)
  unfolding release_on_timeout release_bonds_for_order_or_warn release_taker_bonds_for_order_or_warn
  on_timeout-Keeps order_id stays =
      if-Keeps Sound stays _ _ (or_warn-Keeps Sound _ (release_active-Keeps lnd order_id true))
        (or_warn-Keeps Sound _ (release_bonds-Keeps lnd order_id))

  module _ (fresh : ℕ) where
    responsible-Keeps :
        (order : Order) (of_range : Bool) (responsible : Bond)
        → Keeps Sound (slash_responsible f pct env lnd fresh order of_range responsible)
    unfolding slash_responsible find_slice_slash_child timeout_slash_confirmed slash_reason_recorded
    responsible-Keeps order of_range responsible =
        if-Keeps Sound of_range _ _
          (>>=-Keeps Sound _ _ (lift-Keeps Sound _) (λ root.
            >>=-Keeps Sound _ _
              (record_slice-Keeps f pct fresh (lnd.clock responsible.id) order root responsible
                timeout)
              (λ inserted.
                if-Keeps Sound inserted _ _ (fetch-Keeps Sound _) (pure-Keeps Sound none))))
          (>>=-Keeps Sound _ _
            (>>-Keeps Sound _ _ (slash_one-Keeps f pct lnd responsible timeout)
              (fetch-Keeps Sound _))
            (λ _. pure-Keeps Sound _))

    decided-Keeps :
        (order : Order) (stays is_makers is_range : Bool) (bonds : List Bond)
        (responsible : Option Bond)
        → All Sound bonds
        → Keeps Sound
            (slash_found f pct env lnd fresh order stays is_makers is_range bonds responsible)
    decided-Keeps order stays is_makers is_range bonds none sound =
        >>-Keeps Sound _ _ (on_timeout-Keeps order.id stays) (pure-Keeps Sound none)
    decided-Keeps order stays is_makers is_range bonds (some responsible) sound =
        >>=-Keeps Sound _ _ (responsible-Keeps order (is_makers && is_range) responsible)
          (λ row. >>-Keeps Sound _ _ (release_all-Keeps lnd _ bonds sound) (pure-Keeps Sound row))

    sided-Keeps :
        (order : Order) (config : Option BondConfig) (side : Option Side)
        → Keeps Sound (slash_or_release_side f pct env lnd fresh order config side)
    unfolding slash_side_on_timeout release_bonds_for_order_or_warn
    sided-Keeps order config none =
        >>-Keeps Sound _ _ (or_warn-Keeps Sound _ (release_bonds-Keeps lnd order.id))
          (pure-Keeps Sound none)
    sided-Keeps order config (some side) = >>=-Keeps Sound _ _ (lift-Keeps Sound _) (λ is_makers.
        if-Keeps Sound (slash_armed config is_makers) _ _
          (bind_active-Keeps lnd order.id _ (λ bonds sound.
            >>=-Keeps Sound _ _ (lift-Keeps Sound _) (λ is_range.
              >>=-Keeps Sound _ _ (target-Keeps env order bonds side is_range) (λ responsible.
                decided-Keeps order (order_republishes_on_timeout order) is_makers is_range bonds
                  responsible sound))))
          (>>-Keeps Sound _ _ (on_timeout-Keeps order.id (order_republishes_on_timeout order))
            (pure-Keeps Sound none)))

    pub slash_or_release_on_timeout-Keeps :
        (order : Order) (config : Option BondConfig)
        → Keeps Sound (slash_or_release_on_timeout f pct env lnd fresh order config)
    unfolding slash_or_release_on_timeout
    slash_or_release_on_timeout-Keeps order config =
        sided-Keeps order config (responsible_side order.status)
