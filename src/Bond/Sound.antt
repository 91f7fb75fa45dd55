-- ===== src/Bond/Sound.antt =====
-- What the table's rows promise to the payout (src/app/bond/types.rs, src/app/bond/payout.rs), and
-- the writes that keep it.
use mostro.Prelude.{
  ℕ, String, Bool, true, ◌≡◌, refl, ◌&&◌, ◌||◌, not, Option, none, some, List, [], ◌∷◌, is_some,
  is_none, All, inl, arith,
}
use mostro.Prelude.Int.{ℤ}
use mostro.Bond.Types.{
  BondState, BondSlashReason, lost_dispute, timeout, released, slashed, pending_payout, locked,
  failed, parse_state, parse_reason, show_reason,
}
use mostro.Bond.Model.{Bond}
use mostro.Bond.Env.{Order}
use mostro.Bond.Table.{in_state}
use mostro.Bond.Recipient.{parsed_reason}
use mostro.Bond.Payout.{set_state}
use mostro.Bond.Queries.{overwrite}
use mostro.Bond.Lock.{set_locked}
use mostro.Bond.Release.{set_released}
use mostro.Bond.Slash.{set_slashed}
use mostro.Bond.Slash.Range.{
  set_slashed_share, reanchor, payout_row, refund_row, reason_of, or_lost_dispute,
}

-- A row that is to be paid, or whose failed payout may be reopened.
abbrev pub owes : Bond → Bool
owes b = in_state pending_payout b || in_state failed b

-- What the payout reads of such a row.
abbrev pub is_complete : Bond → Bool
is_complete b =
    is_some b.slashed_at && is_some b.node_share_sats && is_some (parsed_reason b.slashed_reason)

pub record Sound (b : Bond) : Type 0 where
  pub known : (state : BondState) × (parse_state b.state ≡ inl state)
  pub payable : (not (owes b) || is_complete b) ≡ true
  pub readable : (is_none b.slashed_reason || is_some (parsed_reason b.slashed_reason)) ≡ true

reads : (reason : BondSlashReason) → is_some (parsed_reason (some (show_reason reason))) ≡ true
unfolding parse_reason
reads lost_dispute = refl
reads timeout = refl

pub released-Sound :
    (now : ℤ) (bond b : Bond) → Sound bond → Sound (overwrite (set_released now bond) b)
unfolding parse_state
released-Sound now bond b h = record {
  known = (released, refl);
  payable = refl;
  readable = h.readable;
}

pub struck-Sound :
    (reason : BondSlashReason) (now share : ℤ) (b : Bond) → Sound (set_slashed reason now share b)
unfolding parse_state
struck-Sound reason now share b = record {
  known = (pending_payout, refl);
  payable = reads reason;
  readable = reads reason;
}

pub totalled-Sound : (total : ℤ) (b : Bond) → Sound b → Sound (set_slashed_share total b)
totalled-Sound total b h = record { known = h.known; payable = h.payable; readable = h.readable }

pub slashed-Sound : (b : Bond) → Sound b → Sound (set_state slashed b)
unfolding parse_state
slashed-Sound b h = record { known = (slashed, refl); payable = refl; readable = h.readable }

anchored :
    (owed dated shared reads : Bool)
    → (not owed || ((dated && shared) && reads)) ≡ true
    → (not owed || (shared && reads)) ≡ true
anchored owed dated shared reads h = ground arith

pub reanchor-Sound : (now : ℤ) (b : Bond) → Sound b → Sound (reanchor now b)
reanchor-Sound now b h = record {
  known = h.known;
  payable =
      anchored (owes b) (is_some b.slashed_at) (is_some b.node_share_sats)
        (is_some (parsed_reason b.slashed_reason)) h.payable;
  readable = h.readable;
}

pub child-Sound :
    (fresh : ℕ) (now : ℤ) (order_id parent_id slice_id : ℕ) (key : String) (share node : ℤ)
    (reason : BondSlashReason)
    → Sound (record (payout_row fresh order_id parent_id key share (show_reason reason) node now) {
      child_order_id = some slice_id;
    })
unfolding parse_state
child-Sound fresh now order_id parent_id slice_id key share node reason = record {
  known = (pending_payout, refl);
  payable = reads reason;
  readable = reads reason;
}

or_default :
    (reason : Option String)
    → (is_none reason || is_some (parsed_reason reason)) ≡ true
    → is_some (parsed_reason (some (or_lost_dispute reason))) ≡ true
or_default none h = reads lost_dispute
or_default (some reason) h = h

inherited :
    (children : List Bond)
    → All Sound children
    → is_some (parsed_reason (some (reason_of children))) ≡ true
inherited [] h = reads lost_dispute
inherited (c ∷ cs) h = or_default c.slashed_reason h.0.readable

pub refund-Sound :
    (fresh : ℕ) (now : ℤ) (parent : Bond) (root : Order) (children : List Bond) (refund : ℤ)
    → All Sound children
    → Sound (refund_row fresh now parent root children refund)
unfolding parse_state
refund-Sound fresh now parent root children refund h = record {
  known = (pending_payout, refl);
  payable = inherited children h;
  readable = inherited children h;
}

pub locked-Sound : (now : ℤ) (b : Bond) → Sound b → Sound (set_locked now b)
unfolding parse_state
locked-Sound now b h = record { known = (locked, refl); payable = refl; readable = h.readable }
