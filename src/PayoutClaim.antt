-- ===== src/PayoutClaim.antt =====
-- The claim of an order's payout to its buyer (src/db.rs): the compare-and-swaps that set, refresh
-- and clear the marker of a payout in flight, on the columns of `orders` that they read and write.
-- A statement that the database refuses answers an error and changes nothing. The tasks that use the
-- claim (src/app/release.rs) are in Dispatch.
pub mod Accounts
pub mod Dispatch
pub mod Exclusive
pub mod Lease
pub mod Marked
pub mod Stretches
pub mod Once
pub mod Reconciled
pub mod Refinement
pub mod Statements
pub mod Owner
mod Tests
use text.Mathlib.Text.{◌==◌ as str_eq}
use mostro.Prelude.{
  ℕ, String, Bool, true, false, ◌&&◌, ◌||◌, Option, none, some, is_none, List, [], ◌∷◌,
  if◌then◌else◌, ◌==◌,
}
use mostro.Prelude.Rows.{affects, rewrite}
use mostro.Prelude.Int.{ℤ, leb_ℤ}
use mostro.Result.{Result, ok, err, db_access}

pub record OrderRow : Type 0 where
  pub id : ℕ
  pub status : String
  pub payout_payment_hash : Option String
  pub payout_claimed_at : Option ℤ
  pub failed_payment : Bool

-- `=` of a column and a text: false when the column is null.
abbrev pub equals : Option String → String → Bool
equals none _ = false
equals (some a) b = str_eq a b

-- `IS` of a column and a number that may be null.
abbrev pub is : Option ℤ → Option ℤ → Bool
is none none = true
is (some a) (some b) = leb_ℤ a b && leb_ℤ b a
is none (some _) = false
is (some _) none = false

-- Run one `UPDATE`; the answer is whether it changed a row.
unfoldable pub apply_update :
    Bool → (OrderRow → Bool) → (OrderRow → OrderRow) → List OrderRow → Result Bool × List OrderRow
apply_update true fits change os = (err db_access, os)
apply_update false fits change os = (ok (affects fits os), rewrite fits change os)

-- `then_some` under the result.
abbrev pub stamped : ℤ → Result Bool → Result (Option ℤ)
stamped now (err e) = err e
stamped now (ok true) = ok (some now)
stamped now (ok false) = ok none

unfoldable pub settled_hold_invoice : OrderRow → Bool
settled_hold_invoice o = str_eq o.status "settled-hold-invoice"

unfoldable pub unclaimed : ℕ → OrderRow → Bool
unclaimed order_id o = o.id == order_id && is_none o.payout_payment_hash && settled_hold_invoice o

-- The marker is the claim of this hash and this time.
unfoldable pub owns : ℕ → String → Option ℤ → OrderRow → Bool
owns order_id payment_hash claimed_at o =
    o.id == order_id
    && equals o.payout_payment_hash payment_hash
    && is o.payout_claimed_at claimed_at

unfoldable pub owns_settled : ℕ → String → Option ℤ → OrderRow → Bool
owns_settled order_id payment_hash claimed_at o =
    owns order_id payment_hash claimed_at o && settled_hold_invoice o

abbrev pub set_claim : String → ℤ → OrderRow → OrderRow
set_claim payment_hash now o = record o {
  payout_payment_hash = some payment_hash;
  payout_claimed_at = some now;
}

abbrev pub set_claimed_at : ℤ → OrderRow → OrderRow
set_claimed_at now o = record o { payout_claimed_at = some now }

abbrev pub set_cleared : OrderRow → OrderRow
set_cleared o = record o { payout_payment_hash = none; payout_claimed_at = none }

abbrev pub set_failed : OrderRow → OrderRow
set_failed o = record o {
  payout_payment_hash = none;
  payout_claimed_at = none;
  failed_payment = true;
}

-- `now` is the reading of the clock, `fault` whether the database refuses the statement.
unfoldable pub claim_order_payout :
    Bool → ℕ → String → ℤ → List OrderRow → Result (Option ℤ) × List OrderRow
claim_order_payout fault order_id payment_hash now os =
    let (r, os') = apply_update fault (unclaimed order_id) (set_claim payment_hash now) os in
    (stamped now r, os')

unfoldable pub touch_order_payout_claim :
    Bool → ℕ → String → Option ℤ → ℤ → List OrderRow → Result (Option ℤ) × List OrderRow
touch_order_payout_claim fault order_id payment_hash claimed_at now os =
    let (r, os') =
      apply_update fault (owns_settled order_id payment_hash claimed_at) (set_claimed_at now) os in
    (stamped now r, os')

unfoldable pub clear_order_payout :
    Bool → ℕ → String → Option ℤ → List OrderRow → Result Bool × List OrderRow
clear_order_payout fault order_id payment_hash claimed_at os =
    apply_update fault (owns order_id payment_hash claimed_at) set_cleared os

unfoldable pub fail_order_payout :
    Bool → ℕ → String → Option ℤ → List OrderRow → Result Bool × List OrderRow
fail_order_payout fault order_id payment_hash claimed_at os =
    apply_update fault (owns order_id payment_hash claimed_at) set_failed os
