-- ===== src/Bond/Recipient.antt =====
-- The counterparty's share, and who is paid (src/app/bond/payout.rs).
use text.Mathlib.Text.{◌==◌ as str_eq}
use mostro.Prelude.{
  String, ◌&&◌, Option, none, some, if◌then◌else◌, is_some, is_none, inl, inr, ◌⊎◌,
}
use mostro.Prelude.Int.{ℤ, pos, ◌-ℤ◌, leb_ℤ, i64}
use mostro.Result.{Result, ok, err, unexpected}
use mostro.Bond.Types.{BondSlashReason, BondParseError, parse_reason}
use mostro.Bond.Model.{Bond}
use mostro.Bond.Env.{Order, Env}

abbrev pub share_of : ℤ → Option ℤ → Result ℤ
share_of amount none = err unexpected
share_of amount (some node_share) =
    if leb_ℤ (pos 0) node_share && leb_ℤ node_share amount
    then ok (i64 (amount -ℤ node_share))
    else err unexpected

unfoldable pub counterparty_share_sats : Bond → Result ℤ
counterparty_share_sats bond = share_of bond.amount_sats bond.node_share_sats

-- `from_str(…).ok()`
abbrev pub parsed : BondSlashReason ⊎ BondParseError → Option BondSlashReason
parsed (inl r) = some r
parsed (inr _) = none

abbrev pub parsed_reason : Option String → Option BondSlashReason
parsed_reason none = none
parsed_reason (some s) = parsed (parse_reason s)

-- The other party of the trade.
abbrev pub counterparty : String → Option String → Option String → Option String
counterparty pubkey (some b) (some s) =
    if str_eq pubkey b then some s else if str_eq pubkey s then some b else none
counterparty pubkey (some b) none = none
counterparty pubkey none s = none

abbrev pub key_or_err : Option String → Result (Option String)
key_or_err none = err unexpected
key_or_err (some k) = ok (some k)

-- `.map(PublicKey::from_str).transpose()`
abbrev pub parse_recipient : Env → Option String → Result (Option String)
parse_recipient env none = ok none
parse_recipient env (some k) = key_or_err (env.parse_key k)

-- The reason is not read.
unfoldable pub resolve_recipient : Env → Order → Bond → BondSlashReason → Result (Option String)
resolve_recipient env order bond _ =
    parse_recipient env (counterparty bond.pubkey order.buyer_pubkey order.seller_pubkey)

-- The refund row of a range bond is paid to the maker that it names.
unfoldable pub resolve_payout_recipient :
    Env → Order → Bond → BondSlashReason → Result (Option String)
resolve_payout_recipient env order bond reason =
    if is_some bond.parent_bond_id && is_none bond.child_order_id
    then parse_recipient env (some bond.pubkey)
    else resolve_recipient env order bond reason

-- `build_payout_small_order` fails where the kind is unreadable; the payload keeps the amount.
abbrev pub build_payout_small_order : Order → ℤ → Result ℤ
build_payout_small_order order share = elim order.kind [ none ↦ err unexpected | some _ ↦ ok share ]
