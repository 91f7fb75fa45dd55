-- ===== src/PayoutClaim/Stretches.antt =====
-- Each stretch of a payout's dispatch up to its updates keeps the invariant (src/app/release.rs).
use text.Mathlib.TextPositions.{eq_refl}
use mostro.Prelude.{
  ℕ, String, Bool, true, false, not, ◌||◌, ◌≡◌, refl, Option, some, List, [], ◌∷◌, All, Bool-cases,
  inl, inr, arith,
}
use mostro.Prelude.Int.{ℤ}
use mostro.Prelude.Rows.{affects, rewrite}
use mostro.PaymentLog.{Entry, sent, failed, has_failed}
use mostro.DevFee.Payment.{PaymentStatus, succeeded, in_flight, payment_failed, other}
use mostro.PayoutClaim.{
  OrderRow, settled_hold_invoice, unclaimed, owns, owns_settled, apply_update, set_claim,
  set_claimed_at, set_cleared, set_failed, claim_order_payout, touch_order_payout_claim,
  clear_order_payout, fail_order_payout,
}
use mostro.PayoutClaim.Dispatch.{
  Payouts, set_success, unfinished, payment_success, finalize, claim_payout, heartbeat,
  start_payment_if_owned, on_payment_update,
}
use mostro.PayoutClaim.Accounts.{
  accounts, RowOk, Sound, update-Sound, update-Sound-given, failed-Sound, claimed-RowOk,
  touched-RowOk, cleared-RowOk, each,
}
use mostro.PayoutClaim.Marked.{marks, owned-marks, owned-AllLost}

sent-accounts :
    (order_id : ℕ) (hash : String) (log : List Entry) (o : OrderRow)
    → marks order_id hash o ≡ true
    → RowOk log o
    → RowOk (sent order_id hash ∷ log) o
unfolding has_failed
sent-accounts order_id hash log o m ok = (
  ground arith,
  each log o ok (λ id h. accounts (sent order_id hash ∷ log) o id h ≡ true) (λ id h a. a),
)

rows-sent :
    (order_id : ℕ) (hash : String) (log : List Entry) (os : List OrderRow)
    → All (λ o. marks order_id hash o ≡ true) os
    → All (RowOk log) os
    → All (RowOk (sent order_id hash ∷ log)) os
rows-sent order_id hash log [] m ok = tt
rows-sent order_id hash log (o ∷ os) m ok =
    (sent-accounts order_id hash log o m.0 ok.0, rows-sent order_id hash log os m.1 ok.1)

module _ (usable : String → Bool) where
  -- The order's payout is started by the owner of the claim.
  sent-Sound :
      (id : ℕ) (h : String) (t : Option ℤ) (os : List OrderRow) (log : List Entry)
      → usable h ≡ true
      → affects (owns_settled id h t) os ≡ true
      → Sound usable os log
      → Sound usable os (sent id h ∷ log)
  sent-Sound id h t os log u hit s = record {
    keyed = s.keyed;
    rows_ok = rows-sent id h log os (owned-marks id h t os s.keyed hit) s.rows_ok;
    hashes = (u, s.hashes);
    single = (owned-AllLost id h t os log s.rows_ok hit, s.single);
  }

  abbrev pub Holds : Payouts → Type 0
  Holds w = Sound usable w.rows w.log

  pub claim_payout-Sound :
      (fault : Bool) (id : ℕ) (h : String) (now : ℤ) (w : Payouts)
      → Holds w
      → Holds (claim_payout fault id h now w)
  unfolding claim_payout claim_order_payout
  claim_payout-Sound fault id h now w s =
      update-Sound usable fault (unclaimed id) (set_claim h now) (λ _. refl) w.rows w.log
        (λ o fits ok. claimed-RowOk w.log o ok id h now fits) s

  touch-Sound :
      (fault : Bool) (id : ℕ) (h : String) (t : Option ℤ) (now : ℤ) (os : List OrderRow)
      (log : List Entry)
      → Sound usable os log
      → Sound usable (touch_order_payout_claim fault id h t now os).1 log
  unfolding touch_order_payout_claim
  touch-Sound fault id h t now os log s =
      update-Sound usable fault (owns_settled id h t) (set_claimed_at now) (λ _. refl) os log
        (λ o _ ok. touched-RowOk log o ok now) s

  pub heartbeat-Sound :
      (fault : Bool) (id : ℕ) (h : String) (at now : ℤ) (w : Payouts)
      → Holds w
      → Holds (heartbeat fault id h at now w)
  unfolding heartbeat
  heartbeat-Sound fault id h at now w s = touch-Sound fault id h (some at) now w.rows w.log s

  pub start-Sound :
      (fault : Bool) (id : ℕ) (h : String) (at now : ℤ) (w : Payouts)
      → usable h ≡ true
      → Holds w
      → Holds (start_payment_if_owned fault id h at now w)
  unfolding start_payment_if_owned touch_order_payout_claim apply_update
  start-Sound true id h at now w u s = s
  start-Sound false id h at now w u s =
      elim (Bool-cases (affects (owns_settled id h (some at)) w.rows)) [
        | inl hit ↦ rw hit (unfold touch_order_payout_claim in touched hit)
        | inr miss ↦ rw miss (touch-Sound false id h (some at) now w.rows w.log s)
      ]
    where
      touched :
          affects (owns_settled id h (some at)) w.rows ≡ true
          → Sound usable
              (touch_order_payout_claim false id h (some at) now w.rows).1
              (sent id h ∷ w.log)
      touched hit =
          touch-Sound false id h (some at) now w.rows (sent id h ∷ w.log)
            (sent-Sound id h (some at) w.rows w.log u hit s)

  -- The marker of a lost payout is cleared.
  pub fail-Sound :
      (fault : Bool) (id : ℕ) (h : String) (t : Option ℤ) (os : List OrderRow) (log : List Entry)
      → has_failed h log ≡ true
      → Sound usable os log
      → Sound usable (fail_order_payout fault id h t os).1 log
  unfolding fail_order_payout
  fail-Sound fault id h t os log lost s =
      update-Sound usable fault (owns id h t) set_failed (λ _. refl) os log
        (λ o fits ok. cleared-RowOk log o ok id h t (set_failed o) fits (refl, refl) (ground arith))
        s

  -- An order that is final.
  abbrev Final : ℕ → List OrderRow → Type 0
  Final id os = All (λ o. unfinished id o ≡ false) os

  success-RowOk : (log : List Entry) (o : OrderRow) → RowOk log o → RowOk log (set_success o)
  unfolding settled_hold_invoice
  success-RowOk log o ok =
      each log o ok (λ id h. accounts log (set_success o) id h ≡ true) (λ id h a. ground arith)

  success-unfinished : (id : ℕ) (o : OrderRow) → unfinished id (set_success o) ≡ false
  unfolding unfinished settled_hold_invoice
  success-unfinished id o = ground arith

  all-Final : (id : ℕ) (os : List OrderRow) → Final id (rewrite (unfinished id) set_success os)
  unfolding rewrite
  all-Final id [] = tt
  all-Final id (o ∷ os) = (
    elim (Bool-cases (unfinished id o)) [
      | inl hit ↦ rw hit (success-unfinished id o)
      | inr miss ↦ rw miss miss
    ],
    all-Final id os,
  )

  clear-Sound :
      (fault : Bool) (id : ℕ) (h : String) (t : Option ℤ) (os : List OrderRow) (log : List Entry)
      → Final id os
      → Sound usable os log
      → Sound usable (clear_order_payout fault id h t os).1 log
  unfolding clear_order_payout
  clear-Sound fault id h t os log final s =
      update-Sound-given usable (λ o. unfinished id o ≡ false) fault (owns id h t) set_cleared
        (λ _. refl) os log
        (λ o fits over ok.
          cleared-RowOk log o ok id h t (set_cleared o) fits (refl, refl) (ended o fits over))
        final s
    where
      ended :
          (o : OrderRow)
          → owns id h t o ≡ true
          → unfinished id o ≡ false
          → (not (settled_hold_invoice o) || has_failed h log) ≡ true
      ended o fits over = unfold owns in unfold unfinished in ground arith

  success-Sound :
      (published fault : Bool) (id : ℕ) (os : List OrderRow) (log : List Entry)
      → Sound usable os log
      → Sound usable (payment_success published fault id os).1 log
  unfolding payment_success
  success-Sound false fault id os log s = s
  success-Sound true fault id os log s =
      update-Sound usable fault (unfinished id) set_success (λ _. refl) os log
        (λ o _ ok. success-RowOk log o ok) s

  success-Final :
      (published fault : Bool) (id : ℕ) (os : List OrderRow)
      → (payment_success published fault id os).0 ≡ true
      → Final id (payment_success published fault id os).1
  unfolding payment_success apply_update
  success-Final false fault id os final = absurd (cc)
  success-Final true true id os final = absurd (cc)
  success-Final true false id os final = all-Final id os

  pub finalize-Sound :
      (published fault fault' : Bool) (id : ℕ) (h : String) (t : Option ℤ) (os : List OrderRow)
      (log : List Entry)
      → Sound usable os log
      → Sound usable (finalize published fault fault' id h t os) log
  unfolding finalize
  finalize-Sound published fault fault' id h t os log s =
      let s' = success-Sound published fault id os log s in
      elim (Bool-cases (payment_success published fault id os).0) [
        | inl final ↦ rw final (
            clear-Sound fault' id h t (payment_success published fault id os).1 log
              (success-Final published fault id os final) s')
        | inr not_final ↦ rw not_final s'
      ]

  pub on_payment_update-Sound :
      (published fault fault' : Bool) (id : ℕ) (h : String) (at : ℤ) (status : PaymentStatus)
      (w : Payouts)
      → Holds w
      → Holds (on_payment_update published fault fault' id h at status w)
  unfolding on_payment_update has_failed
  on_payment_update-Sound published fault fault' id h at succeeded w s =
      finalize-Sound published fault fault' id h (some at) w.rows w.log s
  on_payment_update-Sound published fault fault' id h at payment_failed w s =
      fail-Sound fault id h (some at) w.rows (failed h ∷ w.log) (rw (eq_refl h) refl)
        (failed-Sound usable h w.rows w.log s)
  on_payment_update-Sound published fault fault' id h at in_flight w s = s
  on_payment_update-Sound published fault fault' id h at other w s = s
