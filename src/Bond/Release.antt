-- ===== src/Bond/Release.antt =====
-- The release of bonds (src/app/bond/flow.rs).
pub mod Gone
use text.Mathlib.Text.{◌==◌ as str_eq}
use mostro.Prelude.{
  ℕ, String, Bool, true, false, ◌&&◌, ◌⊎◌, inl, inr, Option, none, some, List, [], ◌∷◌,
  if◌then◌else◌,
}
use mostro.Prelude.Int.{ℤ}
use mostro.Result.{Result, ok, err, unexpected}
use mostro.Bond.Types.{
  BondState, BondParseError, maker, released, parse_state, is_terminal, show_role, show_state,
}
use mostro.Bond.Model.{Bond}
use mostro.Bond.Table.{M, ◌>>=◌, ◌>>◌, pure, lift}
use mostro.Bond.Lightning.{Lightning, cancel_hold_invoice}
use mostro.Bond.Queries.{find_active_bonds_for_order, update, or_warn}

abbrev pub state_or_err : BondState ⊎ BondParseError → Result BondState
state_or_err (inl state) = ok state
state_or_err (inr _) = err unexpected

-- A bond with no hash has no hold invoice to cancel.
abbrev pub cancel_htlc : Lightning → ℕ → Option String → M (Unit {0})
cancel_htlc lnd id none = pure tt
cancel_htlc lnd id (some hash) = cancel_hold_invoice lnd id hash

abbrev pub set_released : ℤ → Bond → Bond
set_released now bond = record bond { state = show_state released; released_at = some now }

-- The row is written as it was read by the caller.
unfoldable pub release_bond : Lightning → Bond → M (Unit {0})
release_bond lnd bond = lift (state_or_err (parse_state bond.state)) >>= λ state.
    if is_terminal state
    then pure tt
    else (cancel_htlc lnd bond.id bond.hash >> update (set_released (lnd.clock bond.id) bond))

abbrev pub is_maker : Bond → Bool
is_maker b = str_eq b.role (show_role maker)

-- The loop over the bonds, with the ones to skip.
unfoldable pub release_all : Lightning → (Bond → Bool) → List Bond → M (Unit {0})
release_all lnd skips [] = pure tt
release_all lnd skips (b ∷ bs) =
    let rest = release_all lnd skips bs in
    if skips b then rest else (or_warn (release_bond lnd b) >> rest)

unfoldable pub release_active_bonds : Lightning → ℕ → Bool → M (Unit {0})
release_active_bonds lnd order_id retain_makers =
    find_active_bonds_for_order order_id >>= release_all lnd (λ b. retain_makers && is_maker b)

unfoldable pub release_bonds_for_order : Lightning → ℕ → M (Unit {0})
release_bonds_for_order lnd order_id = release_active_bonds lnd order_id false

unfoldable pub release_bonds_for_order_or_warn : Lightning → ℕ → M (Unit {0})
release_bonds_for_order_or_warn lnd order_id = or_warn (release_bonds_for_order lnd order_id)

unfoldable pub release_taker_bonds_for_order_or_warn : Lightning → ℕ → M (Unit {0})
release_taker_bonds_for_order_or_warn lnd order_id =
    or_warn (release_active_bonds lnd order_id true)
