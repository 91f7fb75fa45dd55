-- ===== src/Bond/Types.antt =====
-- The enums that the `bonds` table stores as text (src/app/bond/types.rs).
pub mod RoundTrip
use text.Mathlib.Text.{◌==◌ as str_eq}
use mostro.Prelude.{String, ◌⊎◌, inl, inr, Bool, true, false, if◌then◌else◌}

pub data BondRole : Type 0 where
  maker taker : BondRole

pub data BondState : Type 0 where
  requested locked released pending_payout slashed forfeited failed : BondState

pub data BondSlashReason : Type 0 where
  lost_dispute timeout : BondSlashReason

pub data BondParseError : Type 0 where
  unknown_role unknown_state unknown_slash_reason : String → BondParseError

-- `fmt::Display` and `FromStr` of each enum; `inl` is `Ok`.
abbrev pub show_role : BondRole → String
show_role maker = "maker"
show_role taker = "taker"

unfoldable pub parse_role : String → BondRole ⊎ BondParseError
parse_role s =
    if str_eq s "maker"
    then inl maker
    else if str_eq s "taker"
    then inl taker
    else inr (unknown_role s)

abbrev pub show_state : BondState → String
show_state requested = "requested"
show_state locked = "locked"
show_state released = "released"
show_state pending_payout = "pending-payout"
show_state slashed = "slashed"
show_state forfeited = "forfeited"
show_state failed = "failed"

unfoldable pub parse_state : String → BondState ⊎ BondParseError
parse_state s =
    if str_eq s "requested"
    then inl requested
    else if str_eq s "locked"
    then inl locked
    else if str_eq s "released"
    then inl released
    else if str_eq s "pending-payout"
    then inl pending_payout
    else if str_eq s "slashed"
    then inl slashed
    else if str_eq s "forfeited"
    then inl forfeited
    else if str_eq s "failed"
    then inl failed
    else inr (unknown_state s)

abbrev pub show_reason : BondSlashReason → String
show_reason lost_dispute = "lost-dispute"
show_reason timeout = "timeout"

unfoldable pub parse_reason : String → BondSlashReason ⊎ BondParseError
parse_reason s =
    if str_eq s "lost-dispute"
    then inl lost_dispute
    else if str_eq s "timeout"
    then inl timeout
    else inr (unknown_slash_reason s)

abbrev pub is_terminal : BondState → Bool
is_terminal released = true
is_terminal slashed = true
is_terminal forfeited = true
is_terminal failed = true
is_terminal _ = false

abbrev pub is_active : BondState → Bool
is_active requested = true
is_active locked = true
is_active _ = false
