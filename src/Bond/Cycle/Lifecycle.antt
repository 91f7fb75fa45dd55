-- ===== src/Bond/Cycle/Lifecycle.antt =====
-- The payout cycle and the lifecycle of a row (src/app/bond/types.rs, src/app/bond/payout.rs).
use text.Mathlib.TextEquality.{eq_iff}
use mostro.Prelude.{
  ℕ, String, ◌≡◌, refl, Option, none, some, true, arith, is_none, inl, inr, ◌⊎◌, ◌∙◌, ap, sym,
}
use mostro.Prelude.Int.{pos}
use mostro.Bond.Types.{pending_payout}
use mostro.Bond.Model.{Bond}
use mostro.Bond.Table.{World, in_state}
use mostro.Bond.Env.{Env}
use mostro.Bond.Rows.{Rows}
use mostro.Bond.Cycle.{Clock, NodeAnswers, run_bond_payout_cycle}
use mostro.Bond.Cycle.Steps.{Rules}
use mostro.Bond.Cycle.Kept.{run_bond_payout_cycle-Rows}

-- The row less what the payout may change: its state, the invoice and its bookkeeping.
abbrev pub settlement : Bond → Bond
settlement b = record b {
  state = "";
  payout_invoice = none;
  payout_routing_fee_sats = none;
  payout_payment_hash = none;
  payout_attempts = pos 0;
  invoice_request_attempts = pos 0;
  last_invoice_request_at = none;
}

-- Where a row that awaits its payout may be found afterwards.
pub data Outcome (c : Bond) : Type 0 where
  waits : c.state ≡ "pending-payout" → Outcome c
  paid : c.state ≡ "slashed" → Outcome c
  kept : c.state ≡ "forfeited" → c.payout_invoice ≡ none → Outcome c
  gave_up : c.state ≡ "failed" → Outcome c

pub record Settles (b c : Bond) : Type 0 where
  pub frozen : settlement c ≡ settlement b
  pub step : (c ≡ b) ⊎ ((b.state ≡ "pending-payout") × Outcome c)

chained : (b c d : Bond) → Settles b c → Settles c d → Settles b d
chained b c d h k = record {
  frozen = k.frozen ∙ h.frozen;
  step = elim k.step [
    | inl same ↦ elim h.step [
      | inl old ↦ inl (same ∙ old)
      | inr (waited, after) ↦ inr (waited, rw same after)
    ]
    | inr (waits_c, after) ↦ elim h.step [
      | inl old ↦ inr (ap (λ x. x.state) (sym old) ∙ waits_c, after)
      | inr (waited, _) ↦ inr (waited, after)
    ]
  ];
}

pending : (b : Bond) → in_state pending_payout b ≡ true → b.state ≡ "pending-payout"
pending b h = (eq_iff b.state "pending-payout").0 h

pub unset : (o : Option String) → is_none o ≡ true → o ≡ none
unset none h = refl
unset (some x) h = ground arith

settles : Rules Settles
settles = record {
  same = λ b. record { frozen = refl; step = inl refl };
  chain = chained;
  forfeits = λ b h bare. record {
    frozen = refl;
    step = inr (pending b h, kept refl (unset b.payout_invoice bare));
  };
  slashes = λ b h. record { frozen = refl; step = inr (pending b h, paid refl) };
  fails = λ b h. record { frozen = refl; step = inr (pending b h, gave_up refl) };
  asks = λ now b h. record { frozen = refl; step = inr (pending b h, waits (pending b h)) };
  hashes = λ cap hash b h. record { frozen = refl; step = inr (pending b h, waits (pending b h)) };
  tries = λ n b h. record { frozen = refl; step = inr (pending b h, waits (pending b h)) };
  rearms = λ b h. record { frozen = refl; step = inr (pending b h, waits (pending b h)) };
}

-- Whatever the statements, the clock and the Lightning node answer, a round of the payout cycle
-- keeps every row of the table in its place and its amounts, shares, owner and slash data as they
-- were; a row changes only if it was pending-payout, and then it is still pending-payout, or
-- slashed, or failed, or forfeited with no payout invoice stored.
pub run_bond_payout_cycle-Settles :
    (env : Env) (clock : ℕ → Clock) (node : ℕ → NodeAnswers) (w : World)
    → Rows Settles w.bonds (run_bond_payout_cycle env clock node w).bonds
run_bond_payout_cycle-Settles = run_bond_payout_cycle-Rows Settles settles
