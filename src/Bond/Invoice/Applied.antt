-- ===== src/Bond/Invoice/Applied.antt =====
-- The rows that take a submitted payout invoice (src/app/bond/payout.rs).
use text.Mathlib.TextEquality.{eq_iff}
use mostro.Prelude.{
  String, ◌≡◌, refl, sym, if◌then◌else◌, none, some, Bool, true, false, inl, inr, ◌⊎◌, ◌&&◌, ◌==◌,
  ==_iff, arith, is_none,
}
use mostro.Prelude.Int.{ℤ, pos}
use mostro.Bond.Types.{
  BondState, BondParseError, parse_state, requested, locked, released, pending_payout, slashed,
  forfeited, failed, maker, timeout,
}
use mostro.Bond.Types.RoundTrip.{parse_iff_show}
use mostro.Bond.Model.{Bond}
use mostro.Bond.Table.{World, in_state, cas, M}
use mostro.Bond.Rows.{Rows, Preserves, execute_bind-Preserves, pure-Preserves}
use mostro.Bond.Cycle.Lifecycle.{settlement, unset}
use mostro.Bond.Invoice.{apply_payout_invoice, apply_in_state, set_invoice, resurrect, is_closed}

-- Why a row may take an invoice: it awaits one, or its payout failed and the window that started
-- with the slash is open.
pub data Entry (bond : Bond) (now window : ℤ) (b : Bond) : Type 0 where
  awaited : b.state ≡ "pending-payout" → b.payout_invoice ≡ none → Entry bond now window b
  reopened :
      bond.state ≡ "failed"
      → b.state ≡ "failed"
      → is_closed now window bond.slashed_at ≡ false
      → Entry bond now window b

pub record Submitted (bond : Bond) (invoice : String) (now window : ℤ) (b c : Bond) : Type 0 where
  pub mine : b.id ≡ bond.id
  pub entry : Entry bond now window b
  pub waits : c.state ≡ "pending-payout"
  pub stores : c.payout_invoice ≡ some invoice
  pub asked_again : c.invoice_request_attempts ≡ pos 0

pub record Takes (bond : Bond) (invoice : String) (now window : ℤ) (b c : Bond) : Type 0 where
  pub frozen : settlement c ≡ settlement b
  pub step : (c ≡ b) ⊎ Submitted bond invoice now window b c

both : (p q : Bool) → (p && q) ≡ true → (p ≡ true) × (q ≡ true)
both p q h = ground arith

module _ (bond : Bond) (invoice : String) (now window : ℤ) where
  abbrev R : Bond → Bond → Type 0
  R = Takes bond invoice now window

  kept : (b : Bond) → R b b
  kept b = record { frozen = refl; step = inl refl }

  takes :
      (b c : Bond)
      → settlement c ≡ settlement b
      → b.id ≡ bond.id
      → Entry bond now window b
      → c.state ≡ "pending-payout"
      → c.payout_invoice ≡ some invoice
      → c.invoice_request_attempts ≡ pos 0
      → R b c
  takes b c frozen mine entry waits stores again = record {
    frozen = frozen;
    step = inr (record {
      mine = mine;
      entry = entry;
      waits = waits;
      stores = stores;
      asked_again = again;
    });
  }

  written :
      (b : Bond)
      → (cas bond.id pending_payout b && is_none b.payout_invoice) ≡ true
      → R b (set_invoice invoice b)
  written b fit =
      let (mine, bare) = both (cas bond.id pending_payout b) (is_none b.payout_invoice) fit in
      let (same, waits) = both (b.id == bond.id) (in_state pending_payout b) mine in
      let pending = (eq_iff b.state "pending-payout").0 waits in
      takes b _ refl ((==_iff b.id bond.id).0 same) (awaited pending (unset b.payout_invoice bare))
        pending refl refl

  reborn :
      (b : Bond)
      → bond.state ≡ "failed"
      → is_closed now window bond.slashed_at ≡ false
      → cas bond.id failed b ≡ true
      → R b (resurrect invoice b)
  reborn b gone free fit =
      let (same, waits) = both (b.id == bond.id) (in_state failed b) fit in
      takes b _ refl ((==_iff b.id bond.id).0 same)
        (reopened gone ((eq_iff b.state "failed").0 waits) free) refl refl refl

  branched :
      {A : Type 0} (test : Bool) (m k : M A)
      → Preserves R m
      → (test ≡ false → Preserves R k)
      → Preserves R (if test then m else k)
  branched true m k hm hk = hm
  branched false m k hm hk = hk refl

  apply_in_state-Takes :
      (parsed : BondState ⊎ BondParseError)
      → (parsed ≡ inl failed → bond.state ≡ "failed")
      → Preserves R (apply_in_state parsed bond invoice now window)
  unfolding apply_in_state
  apply_in_state-Takes (inr _) h = pure-Preserves R kept _
  apply_in_state-Takes (inl pending_payout) h =
      execute_bind-Preserves R kept _ (set_invoice invoice) _ written
  apply_in_state-Takes (inl failed) h =
      branched (is_closed now window bond.slashed_at) _ _ (pure-Preserves R kept _) (λ free.
        execute_bind-Preserves R kept _ (resurrect invoice) _ (λ b. reborn b (h refl) free))
  apply_in_state-Takes (inl requested) h = pure-Preserves R kept _
  apply_in_state-Takes (inl locked) h = pure-Preserves R kept _
  apply_in_state-Takes (inl released) h = pure-Preserves R kept _
  apply_in_state-Takes (inl slashed) h = pure-Preserves R kept _
  apply_in_state-Takes (inl forfeited) h = pure-Preserves R kept _

-- Applying an invoice to a bond changes only rows with that bond's id, and leaves the amounts,
-- shares, owner and slash data of every row as they were. A row that changes was pending-payout with
-- no invoice stored, or failed while the bond was loaded as failed and its claim window was open; it
-- ends pending-payout, with this invoice, and its invoice requests counted from zero.
pub apply_payout_invoice-Takes :
    (bond : Bond) (invoice : String) (now window : ℤ) (w : World)
    → Rows
        (Takes bond invoice now window)
        w.bonds
        (apply_payout_invoice bond invoice now window w).1.bonds
unfolding apply_payout_invoice
apply_payout_invoice-Takes bond invoice now window w =
    (apply_in_state-Takes bond invoice now window (parse_state bond.state)
        (λ e. sym ((parse_iff_show bond.state maker failed timeout).1.0 e))).rows
      w
