-- ===== src/PayoutClaim/Once.antt =====
-- An order's payout is not sent twice (src/app/release.rs).
use text.Mathlib.Text.{◌==◌ as str_eq}
use mostro.Prelude.{
  ℕ, String, Bool, true, false, ◌≡◌, refl, Option, List, [], ◌∷◌, ◌==◌, All, ◌⊎◌, inl, inr, arith,
}
use mostro.Prelude.Int.{ℤ}
use mostro.PaymentLog.{Sends, Sends-map}
use mostro.DevFee.Payment.{PaymentStatus}
use mostro.PayoutClaim.{OrderRow, settled_hold_invoice, apply_update}
use mostro.PayoutClaim.Dispatch.{
  Payouts, Lookup, SendOutcome, is_this, claim_payout, heartbeat, start_payment_if_owned,
  on_payment_update, on_send_end, reconcile_inflight_payout,
}
use mostro.PayoutClaim.Accounts.{accounts, RowOk, Single, IsKeyed, update-Sound, each}
use mostro.PayoutClaim.Reconciled.{end-Sound, reconcile-Sound}
use mostro.PayoutClaim.Stretches.{
  claim_payout-Sound, heartbeat-Sound, start-Sound, on_payment_update-Sound, Holds,
}

-- A stretch of a task, with what it knows and what it is told, in any order: the tasks, the watchers
-- and the reconciliation run side by side. Or another handler moves an order to a status.
pub data Stretch : Type 0 where
  claims : Bool → ℕ → String → ℤ → Stretch
  beats starts : Bool → ℕ → String → ℤ → ℤ → Stretch
  updates : Bool → Bool → Bool → ℕ → String → ℤ → PaymentStatus → Stretch
  ends : Bool → ℕ → String → ℤ → SendOutcome → Lookup → Stretch
  reconciles : Bool → Bool → Bool → Bool → ℕ → String → Option ℤ → Lookup → Stretch
  moves : ℕ → String → Stretch

abbrev pub with_status : String → OrderRow → OrderRow
with_status status o = record o { status = status }

unfoldable pub act : (String → Bool) → Stretch → Payouts → Payouts
act usable (claims f id h now) w = claim_payout f id h now w
act usable (beats f id h at now) w = heartbeat f id h at now w
act usable (starts f id h at now) w = start_payment_if_owned f id h at now w
act usable (updates p f f' id h at status) w = on_payment_update p f f' id h at status w
act usable (ends f id h at outcome answer) w = on_send_end (usable h) f id h at outcome answer w
act usable (reconciles r p f f' id h t answer) w =
    reconcile_inflight_payout (usable h) r p f f' id h t answer w
act usable (moves id status) w = record w {
  rows = (apply_update false (is_this id) (with_status status) w.rows).1;
}

unfoldable pub act_all : (String → Bool) → List Stretch → Payouts → Payouts
act_all usable [] w = w
act_all usable (a ∷ rest) w = act_all usable rest (act usable a w)

-- A payout is started under the hash of its decoded invoice, and no other handler moves an order
-- of which a payout was started to "settled-hold-invoice".
abbrev pub IsUsual : (String → Bool) → Stretch → Payouts → Type 0
IsUsual usable (claims _ _ _ _) w = Unit
IsUsual usable (beats _ _ _ _ _) w = Unit
IsUsual usable (starts _ _ h _ _) w = usable h ≡ true
IsUsual usable (updates _ _ _ _ _ _ _) w = Unit
IsUsual usable (ends _ _ _ _ _ _) w = Unit
IsUsual usable (reconciles _ _ _ _ _ _ _ _) w = Unit
IsUsual usable (moves id status) w =
    (str_eq status "settled-hold-invoice" ≡ false) ⊎ Sends (λ id' _. (id == id') ≡ false) w.log

abbrev pub AllUsual : (String → Bool) → List Stretch → Payouts → Type 0
AllUsual usable [] w = Unit
AllUsual usable (a ∷ rest) w = IsUsual usable a w × AllUsual usable rest (act usable a w)

module _ (usable : String → Bool) where
  moved-RowOk :
      (status : String) (w : Payouts) (id : ℕ) (o : OrderRow)
      → IsUsual usable (moves id status) w
      → is_this id o ≡ true
      → RowOk w.log o
      → RowOk w.log (with_status status o)
  unfolding settled_hold_invoice
  moved-RowOk status w id o (inl not_settled) this ok =
      each w.log o ok (λ id h. accounts w.log (with_status status o) id h ≡ true)
        (λ id h a. rw not_settled (ground arith))
  moved-RowOk status w id o (inr unpaid) this ok =
      Sends-map (λ id' _. (id == id') ≡ false)
        (λ id h. accounts w.log (with_status status o) id h ≡ true) (λ id' h other. ground arith)
        w.log unpaid

  act-Sound :
      (a : Stretch) (w : Payouts)
      → IsUsual usable a w
      → Holds usable w
      → Holds usable (act usable a w)
  unfolding act
  act-Sound (claims f id h now) w u s = claim_payout-Sound usable f id h now w s
  act-Sound (beats f id h at now) w u s = heartbeat-Sound usable f id h at now w s
  act-Sound (starts f id h at now) w u s = start-Sound usable f id h at now w u s
  act-Sound (updates p f f' id h at status) w u s =
      on_payment_update-Sound usable p f f' id h at status w s
  act-Sound (ends f id h at outcome answer) w u s = end-Sound usable f id h at outcome answer w s
  act-Sound (reconciles r p f f' id h t answer) w u s =
      reconcile-Sound usable (usable h) r p f f' id h t answer w refl s
  act-Sound (moves id status) w u s =
      update-Sound usable false (is_this id) (with_status status) (λ _. refl) w.rows w.log
        (λ o this ok. moved-RowOk status w id o u this ok) s

  act_all-Sound :
      (rest : List Stretch) (w : Payouts)
      → AllUsual usable rest w
      → Holds usable w
      → Holds usable (act_all usable rest w)
  unfolding act_all
  act_all-Sound [] w u s = s
  act_all-Sound (a ∷ rest) w u s = act_all-Sound rest (act usable a w) u.1 (act-Sound a w u.0 s)

abbrev pub unsent : List OrderRow → Payouts
unsent os = record { rows = os; log = [] }

unsent-Sound : (usable : String → Bool) (os : List OrderRow) → IsKeyed os → Holds usable (unsent os)
unsent-Sound usable os k = record { keyed = k; rows_ok = quiet os; hashes = tt; single = tt }
  where
    quiet : (os : List OrderRow) → All (RowOk []) os
    quiet [] = tt
    quiet (o ∷ os) = (tt, quiet os)

-- The ids of the orders are a key, payouts are started under hashes that the node can be asked
-- about, and no other handler moves an order of which a payout was started to
-- "settled-hold-invoice". Then, in whatever order the
-- stretches of the tasks, the watchers and the reconciliation run, whichever statements fail and
-- whatever the node answers, a payout of an order is started only when the node has reported each
-- earlier payout of that order with another hash rest failed, unknown or without a record.
pub act_all-Single :
    (usable : String → Bool) (os : List OrderRow) (rest : List Stretch)
    → IsKeyed os
    → AllUsual usable rest (unsent os)
    → Single (act_all usable rest (unsent os)).log
act_all-Single usable os rest keyed usual =
    (act_all-Sound usable rest (unsent os) usual (unsent-Sound usable os keyed)).single
