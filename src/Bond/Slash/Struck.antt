-- ===== src/Bond/Slash/Struck.antt =====
-- What the slash of one bond does (src/app/bond/slash.rs).
use text.Mathlib.TextEquality.{eq_iff}
use mostro.Prelude.{
  ℕ, ◌∙◌, String, Bool, true, ◌≡◌, refl, ◌&&◌, ◌⊎◌, inl, inr, Option, none, some, List, ◌∷◌,
  Bool-cases, arith, ◌==◌, ==_iff,
}
use mostro.Prelude.Float.{Float64}
use mostro.Result.{Result, ok, err}
use mostro.Bond.Types.{BondSlashReason, locked}
use mostro.Bond.Model.{Bond}
use mostro.Bond.Table.{World, HtlcCall, settle, ◌>>=◌, pure, execute, cas, in_state, is_faulty}
use mostro.Bond.Statements.{continue, bind_continue}
use mostro.Bond.Math.{compute_node_share}
use mostro.Bond.Payout.{ignore}
use mostro.Bond.Rows.{Rows, Rows-refl, execute_bind-Preserves}
use mostro.Bond.Lightning.{Lightning, call, settle_hold_invoice, is_settled}
use mostro.Bond.Queries.{or_warn}
use mostro.Bond.Slash.{set_slashed, slash_with, slash_one}

both : (p q : Bool) → (p && q) ≡ true → (p ≡ true) × (q ≡ true)
both p q h = ground arith

silent_execute :
    (fits : Bond → Bool) (change : Bond → Bond) (w : World)
    → (execute fits change w).1.htlc_calls ≡ w.htlc_calls
unfolding execute
silent_execute fits change w = elim (Bool-cases (is_faulty w.faults)) [
  | inl fault ↦ rw fault refl
  | inr fine ↦ rw fine refl
]

silent_after : (p : Result ℕ × World) → (continue (λ _. pure tt) p).1.htlc_calls ≡ p.1.htlc_calls
unfolding pure
silent_after (ok rows, w) = refl
silent_after (err e, w) = refl

silent :
    (fits : Bond → Bool) (change : Bond → Bond) (w : World)
    → (ignore (execute fits change) w).1.htlc_calls ≡ w.htlc_calls
silent fits change w =
    rw (bind_continue (execute fits change) (λ _. pure tt) w)
      (silent_after (execute fits change w) ∙ silent_execute fits change w)

module _ (f : Float64) (pct : f.F) (lnd : Lightning) (bond : Bond) (reason : BondSlashReason) where
  -- The row was locked, its hold invoice is settled, and the share is that of the amount loaded.
  pub record Struck (b c : Bond) : Type 0 where
    pub mine : b.id ≡ bond.id
    pub was_locked : b.state ≡ "locked"
    pub preimage : String
    pub has : bond.preimage ≡ some preimage
    pub settled : is_settled (lnd.settle_answer preimage) ≡ true
    pub row :
        c ≡ set_slashed reason (lnd.clock bond.id) (compute_node_share f bond.amount_sats pct) b

  abbrev pub Strikes : Bond → Bond → Type 0
  Strikes b c = (c ≡ b) ⊎ Struck b c

  -- The calls made: none, or the settlement.
  abbrev pub Settling : List HtlcCall → List HtlcCall → Type 0
  Settling before after =
      (after ≡ before)
      ⊎ ((preimage : String) × (bond.preimage ≡ some preimage)
          × (after ≡ (settle preimage ∷ before)))

  Slashing : World → Result (Unit {0}) × World → Type 0
  Slashing w p =
      (p.0 ≡ ok tt) × Rows Strikes w.bonds p.1.bonds × Settling w.htlc_calls p.1.htlc_calls

  strikes :
      (preimage : String)
      → bond.preimage ≡ some preimage
      → is_settled (lnd.settle_answer preimage) ≡ true
      → (b : Bond) → cas bond.id locked b ≡ true
      → Strikes b
          (set_slashed reason (lnd.clock bond.id) (compute_node_share f bond.amount_sats pct) b)
  strikes preimage has settled b fit =
      let fits = both (b.id == bond.id) (in_state locked b) fit in
      inr (record {
        mine = (==_iff b.id bond.id).0 fits.0;
        was_locked = (eq_iff b.state "locked").0 fits.1;
        preimage = preimage;
        has = has;
        settled = settled;
        row = refl;
      })

  slashing :
      (preimage : Option String) (w : World)
      → bond.preimage ≡ preimage
      → Slashing w (slash_with f pct lnd bond reason preimage w)
  unfolding settle_hold_invoice call or_warn ◌>>=◌ pure Slashing
  slashing none w has = (refl, Rows-refl Strikes (λ b. inl refl) w.bonds, inl refl)
  slashing (some preimage) w has = elim (Bool-cases (is_settled (lnd.settle_answer preimage))) [
    | inl settled ↦ rw settled (
      refl,
      (execute_bind-Preserves Strikes (λ b. inl refl) (cas bond.id locked)
            (set_slashed reason (lnd.clock bond.id) (compute_node_share f bond.amount_sats pct))
            (λ _. tt) (strikes preimage has settled)).rows
          (record w { htlc_calls = settle preimage ∷ w.htlc_calls }),
      inr (preimage, has, silent _ _ _),
    )
    | inr failed ↦
        rw failed (refl, Rows-refl Strikes (λ b. inl refl) w.bonds, inr (preimage, has, refl))
  ]

  -- Whatever fails, the slash of one bond answers no error. It makes no call, or settles the bond's
  -- hold invoice. A row that changes has the bond's id and was locked, its hold invoice is settled,
  -- and it waits for its payout with the reason, the time and the node's share, all written at once.
  pub slash_one-Strikes :
      (w : World)
      → ((slash_one f pct lnd bond reason w).0 ≡ ok tt)
        × Rows Strikes w.bonds (slash_one f pct lnd bond reason w).1.bonds
        × Settling w.htlc_calls (slash_one f pct lnd bond reason w).1.htlc_calls
  unfolding slash_one Slashing
  slash_one-Strikes w = slashing bond.preimage w refl
