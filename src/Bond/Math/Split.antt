-- ===== src/Bond/Math/Split.antt =====
-- The split of a slashed bond adds up (src/app/bond/math.rs, src/app/bond/payout.rs).
use mostro.Prelude.{◌≡◌, Bool-cases, inl, inr, some, arith}
use mostro.Prelude.Int.{ℤ, pos, ◌≤ℤ◌, leb_ℤ, ◌-ℤ◌, ◌+ℤ◌, i64_max, i64_of_IsI64, int_laws}
use mostro.Prelude.Float.{Float64}
use mostro.Result.{ok}
use mostro.Bond.Recipient.{share_of}
use mostro.Bond.Math.{compute_node_share}

-- The share of the counterparty is what is left of the amount.
pub record Splits (amount node counterparty : ℤ) : Type 0 where
  pub whole : node +ℤ counterparty ≡ amount
  pub node_positive : pos 0 ≤ℤ node
  pub counterparty_positive : pos 0 ≤ℤ counterparty

split :
    (amount node : ℤ)
    → pos 0 ≤ℤ amount
    → amount ≤ℤ i64_max
    → pos 0 ≤ℤ node
    → node ≤ℤ amount
    → (share_of amount (some node) ≡ ok (amount -ℤ node)) × Splits amount node (amount -ℤ node)
split amount node h fits low high = (
  rw (i64_of_IsI64 (amount -ℤ node) (grind int_laws, grind int_laws)) (ground arith),
  record { whole = grind int_laws; node_positive = low; counterparty_positive = grind int_laws },
)

module _ (f : Float64) where
  pub compute_node_share_bounds :
      (amount : ℤ) (pct : f.F)
      → pos 0 ≤ℤ amount
      → (pos 0 ≤ℤ compute_node_share f amount pct) × (compute_node_share f amount pct ≤ℤ amount)
  unfolding compute_node_share
  compute_node_share_bounds amount pct h =
      let floored = f.floor (f.mul (f.of_i64 amount) (f.clamp pct f.zero f.one)) in
      elim (Bool-cases (leb_ℤ amount (pos 0))) [
        | inl none_left ↦ rw none_left (ground arith)
        | inr some_left ↦ rw some_left (elim (Bool-cases (f.le floored f.zero)) [
          | inl low ↦ rw low (ground arith)
          | inr high ↦ rw high (elim (Bool-cases (f.le (f.of_i64 amount) floored)) [
            | inl over ↦ rw over (ground arith)
            | inr under ↦ rw under (f.to_i64_between floored amount h high under)
          ])
        ])
      ]

  -- Whatever the percentage, the node's share of an amount that is not negative and the
  -- counterparty's share that the payout derives from it are not negative and add up to the amount.
  pub compute_node_share-Splits :
      (amount : ℤ) (pct : f.F)
      → pos 0 ≤ℤ amount
      → amount ≤ℤ i64_max
      → let node = compute_node_share f amount pct in
        (share_of amount (some node) ≡ ok (amount -ℤ node)) × Splits amount node (amount -ℤ node)
  compute_node_share-Splits amount pct h fits =
      split amount (compute_node_share f amount pct) h fits
        (compute_node_share_bounds amount pct h).0 (compute_node_share_bounds amount pct h).1
