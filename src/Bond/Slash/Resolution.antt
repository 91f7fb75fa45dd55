-- ===== src/Bond/Slash/Resolution.antt =====
-- The resolution of a dispute by an administrator (src/app/bond/slash.rs): the bonds of the slashed
-- sides are slashed, the others of the order released.
use mostro.Prelude.{
  ℕ, Bool, true, false, ◌&&◌, ◌||◌, Option, none, some, List, [], ◌∷◌, ◌++◌, if◌then◌else◌, ◌==◌,
}
use mostro.Prelude.Float.{Float64}
use mostro.Bond.Types.{BondSlashReason}
use mostro.Bond.Model.{Bond}
use mostro.Bond.Env.{Env, Order}
use mostro.Bond.Table.{M, ◌>>=◌, ◌>>◌, pure, lift}
use mostro.Bond.Lightning.{Lightning}
use mostro.Bond.Queries.{find_active_bonds_for_order, find_range_root_order, find_slice_slash_child}
use mostro.Bond.Release.{release_all, is_maker}
use mostro.Bond.Slash.{
  Side, seller, buyer, BondResolution, side_is_maker, order_has_range_maker_bond,
  resolve_slash_target, slash_one, slash_reason_recorded,
}
use mostro.Bond.Slash.Range.{record_maker_slice_slash}

-- The ids slashed by `slash_one`, and the rows to tell their owners of.
pub record Slashes : Type 0 where
  pub slashed_ids : List ℕ
  pub notify_rows : List Bond

abbrev pub no_slashes : Slashes
no_slashes = record { slashed_ids = []; notify_rows = [] }

abbrev pub one_row : Option Bond → List Bond
one_row none = []
one_row (some b) = b ∷ []

abbrev pub member : ℕ → List ℕ → Bool
member id [] = false
member id (i ∷ ids) = i == id || member id ids

module _ (f : Float64) (pct : f.F) (env : Env) (lnd : Lightning) where
  unfoldable pub slash_range_maker : ℕ → Order → BondSlashReason → Bond → M Slashes
  slash_range_maker fresh order reason target = lift (find_range_root_order env order) >>= λ root.
      record_maker_slice_slash f pct fresh (lnd.clock target.id) order root target reason
      >>= λ inserted.
          if inserted
          then (find_slice_slash_child target.id order.id >>= λ child.
              pure (record { slashed_ids = []; notify_rows = one_row child }))
          else pure no_slashes

  unfoldable pub slash_inline : BondSlashReason → Bond → M Slashes
  slash_inline reason target =
      slash_one f pct lnd target reason >> slash_reason_recorded target.id reason >>= λ recorded.
      pure (record {
        slashed_ids = target.id ∷ [];
        notify_rows = if recorded then target ∷ [] else [];
      })

  -- `is_range && side_is_maker(order, side)?`
  abbrev pub is_range_maker : Order → Side → Bool → M Bool
  is_range_maker order side true = lift (side_is_maker order side)
  is_range_maker order side false = pure false

  abbrev pub slash_target : ℕ → Order → Bool → BondSlashReason → Side → Option Bond → M Slashes
  slash_target fresh order is_range reason side none = pure no_slashes
  slash_target fresh order is_range reason side (some target) =
      is_range_maker order side is_range >>= λ of_range.
      if of_range then slash_range_maker fresh order reason target else slash_inline reason target

  -- One round of the loop over the two sides.
  unfoldable pub slash_side :
      ℕ → Order → List Bond → Bool → BondSlashReason → Bool → Side → M Slashes
  slash_side fresh order active is_range reason asked side =
      if asked
      then (resolve_slash_target env order active side is_range
          >>= slash_target fresh order is_range reason side)
      else pure no_slashes

  -- The bonds that the last loop leaves alone.
  abbrev pub retained : Bool → List ℕ → Bond → Bool
  retained is_range slashed_ids b = member b.id slashed_ids || is_range && is_maker b

  -- `fresh` gives the new row of a side its id.
  unfoldable pub apply_bond_resolution :
      (Side → ℕ) → Order → BondResolution → BondSlashReason → M (List Bond)
  apply_bond_resolution fresh order resolution reason =
      find_active_bonds_for_order order.id >>= λ active.
      lift (order_has_range_maker_bond env order) >>= λ is_range.
      slash_side (fresh seller) order active is_range reason resolution.slash_seller seller
      >>= λ sold.
          slash_side (fresh buyer) order active is_range reason resolution.slash_buyer buyer
          >>= λ bought.
              release_all lnd (retained is_range (bought.slashed_ids ++ sold.slashed_ids)) active
              >> pure (sold.notify_rows ++ bought.notify_rows)
