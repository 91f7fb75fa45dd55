-- ===== src/Bond/Carried.antt =====
-- The payout and its invoices keep the rows sound (src/app/bond/payout.rs).
use mostro.Prelude.{
  String, Bool, true, ◌≡◌, refl, ap, ◌∙◌, ◌&&◌, ◌||◌, not, inl, inr, List, [], ◌∷◌, All, is_some,
  arith,
}
use mostro.Prelude.Int.{ℤ}
use mostro.Bond.Types.{BondState, pending_payout, slashed, forfeited, failed, parse_state}
use mostro.Bond.Model.{Bond}
use mostro.Bond.Recipient.{parsed_reason}
use mostro.Bond.Rows.{Rows}
use mostro.Bond.Sound.{Sound, owes, is_complete}
use mostro.Bond.Cycle.Lifecycle.{Settles, Outcome, waits, paid, kept, gave_up, settlement}
use mostro.Bond.Invoice.Applied.{Takes, Entry, awaited, reopened}

pub Rows-All :
    (R : Bond → Bond → Type 0) (P : Bond → Type 0)
    → ((b c : Bond) → R b c → P b → P c)
    → (bs cs : List Bond) → Rows R bs cs
    → All P bs
    → All P cs
Rows-All R P h [] [] r s = tt
Rows-All R P h [] (c ∷ cs) r s = absurd r
Rows-All R P h (b ∷ bs) [] r s = absurd r
Rows-All R P h (b ∷ bs) (c ∷ cs) r s = (h b c r.0 s.0, Rows-All R P h bs cs r.1 s.1)

complete-same : (b c : Bond) → settlement c ≡ settlement b → is_complete c ≡ is_complete b
complete-same b c same =
    ap
      (λ x.
        is_some x.slashed_at
        && is_some x.node_share_sats
        && is_some (parsed_reason x.slashed_reason))
      same

readable-same : (b c : Bond) → settlement c ≡ settlement b → c.slashed_reason ≡ b.slashed_reason
readable-same b c same = ap (λ x. x.slashed_reason) same

or_true : (x y : Bool) → y ≡ true → (x || y) ≡ true
or_true x y h = ground arith

forced : (x y : Bool) → x ≡ true → (not x || y) ≡ true → y ≡ true
forced x y h k = ground arith

-- The slash data stay, and a row that owes owed before.
carried :
    (b c : Bond)
    → settlement c ≡ settlement b
    → owes b ≡ true
    → ((state : BondState) × (parse_state c.state ≡ inl state))
    → Sound b
    → Sound c
carried b c same owed known h = record {
  known = known;
  payable =
      or_true (not (owes c)) (is_complete c)
        (complete-same b c same ∙ forced (owes b) (is_complete b) owed h.payable);
  readable = rw (readable-same b c same) (h.readable);
}

Outcome-known :
    (b c : Bond)
    → b.state ≡ "pending-payout"
    → Outcome c
    → (state : BondState) × (parse_state c.state ≡ inl state)
unfolding parse_state
Outcome-known b c waited (waits h) = (pending_payout, rw h refl)
Outcome-known b c waited (paid h) = (slashed, rw h refl)
Outcome-known b c waited (kept h _) = (forfeited, rw h refl)
Outcome-known b c waited (gave_up h) = (failed, rw h refl)

entry_owes : (bond : Bond) (now window : ℤ) (b : Bond) → Entry bond now window b → owes b ≡ true
entry_owes bond now window b (awaited h _) = rw h refl
entry_owes bond now window b (reopened _ h _) = rw h refl

pub settled-Sound : (b c : Bond) → Settles b c → Sound b → Sound c
unfolding parse_state
settled-Sound b c h sound = elim h.step [
  | inl same ↦ rw same sound
  | inr (waited, outcome) ↦
      carried b c h.frozen (rw waited refl) (Outcome-known b c waited outcome) sound
]

pub taken-Sound :
    (bond : Bond) (invoice : String) (now window : ℤ) (b c : Bond)
    → Takes bond invoice now window b c
    → Sound b
    → Sound c
unfolding parse_state
taken-Sound bond invoice now window b c h sound = elim h.step [
  | inl same ↦ rw same sound
  | inr entered ↦
      carried b c h.frozen (entry_owes bond now window b entered.entry)
        (pending_payout, rw (entered.waits) refl) sound
]
