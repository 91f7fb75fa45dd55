-- ===== src/PayoutClaim/Reconciled.antt =====
-- The end of a payout's call and the reconciliation keep the invariant (src/app/release.rs).
use text.Mathlib.TextPositions.{eq_refl}
use mostro.Prelude.{
  ℕ, String, Bool, true, false, ◌≡◌, refl, ap, Option, some, List, ◌∷◌, Bool-cases, inl, inr, arith,
}
use mostro.Prelude.Int.{ℤ}
use mostro.PaymentLog.{Entry, failed, has_failed, Sends-map, Sends-both}
use mostro.DevFee.Payment.{succeeded, in_flight, payment_failed, other}
use mostro.PayoutClaim.{OrderRow, equals, settled_hold_invoice, owns, set_failed, fail_order_payout}
use mostro.PayoutClaim.Dispatch.{
  Payouts, Lookup, found, no_record, lookup_error, SendOutcome, send_ok, send_error, elapsed,
  classify_dispatch, noted, on_send_end, on_lookup, reconcile_inflight_payout,
}
use mostro.PayoutClaim.Accounts.{accounts, Sound, update-Sound, failed-Sound, equals-path}
use mostro.PayoutClaim.Stretches.{Holds, fail-Sound, finalize-Sound}

module _ (usable : String → Bool) where
  -- A hash that the node cannot be asked about was never sent.
  garbled-accounts :
      (id : ℕ) (h : String) (t : Option ℤ) (log : List Entry) (o : OrderRow)
      → usable h ≡ false
      → owns id h t o ≡ true
      → (id' : ℕ) (h' : String) → accounts log o id' h' ≡ true
      → usable h' ≡ true
      → accounts log (set_failed o) id' h' ≡ true
  unfolding owns settled_hold_invoice
  garbled-accounts id h t log o garbled fits id' h' a u =
      elim (Bool-cases (equals o.payout_payment_hash h')) [
        | inl also ↦ absurd (
            cc (ap usable (equals-path o.payout_payment_hash h h' (ground arith) also), garbled, u))
        | inr not_held ↦ ground arith
      ]

  garbled-Sound :
      (fault : Bool) (id : ℕ) (h : String) (t : Option ℤ) (os : List OrderRow) (log : List Entry)
      → usable h ≡ false
      → Sound usable os log
      → Sound usable (fail_order_payout fault id h t os).1 log
  unfolding fail_order_payout
  garbled-Sound fault id h t os log garbled s =
      update-Sound usable fault (owns id h t) set_failed (λ _. refl) os log
        (λ o fits ok.
          Sends-map (λ id h. (accounts log o id h ≡ true) × (usable h ≡ true))
            (λ id h. accounts log (set_failed o) id h ≡ true)
            (λ id' h' p. garbled-accounts id h t log o garbled fits id' h' p.0 p.1) log
            (Sends-both (λ id h. accounts log o id h ≡ true) (λ _ h. usable h ≡ true) log ok
              s.hashes))
        s

  -- After an error of the call the node is asked, and the claim is released if the payout is lost.
  lost-Sound :
      (fault : Bool) (id : ℕ) (h : String) (t : Option ℤ) (os : List OrderRow) (log : List Entry)
      → Sound usable os log
      → Sound usable (fail_order_payout fault id h t os).1 (failed h ∷ log)
  lost-Sound fault id h t os log s =
      fail-Sound usable fault id h t os (failed h ∷ log) (unfold has_failed in rw (eq_refl h) refl)
        (failed-Sound usable h os log s)

  asked-Sound :
      (u fault : Bool) (id : ℕ) (h : String) (at : ℤ) (answer : Lookup) (w : Payouts)
      → usable h ≡ u
      → Holds usable w
      → Holds usable (on_send_end u fault id h at send_error answer w)
  unfolding on_send_end classify_dispatch
  asked-Sound false fault id h at answer w u s = garbled-Sound fault id h (some at) w.rows w.log u s
  asked-Sound true fault id h at (found succeeded) w u s = s
  asked-Sound true fault id h at (found in_flight) w u s = s
  asked-Sound true fault id h at (found payment_failed) w u s =
      lost-Sound fault id h (some at) w.rows w.log s
  asked-Sound true fault id h at (found other) w u s =
      lost-Sound fault id h (some at) w.rows w.log s
  asked-Sound true fault id h at no_record w u s = lost-Sound fault id h (some at) w.rows w.log s
  asked-Sound true fault id h at lookup_error w u s = s

  pub end-Sound :
      (fault : Bool) (id : ℕ) (h : String) (at : ℤ) (outcome : SendOutcome) (answer : Lookup)
      (w : Payouts)
      → Holds usable w
      → Holds usable (on_send_end (usable h) fault id h at outcome answer w)
  end-Sound fault id h at send_ok answer w s = unfold on_send_end in unfold classify_dispatch in s
  end-Sound fault id h at send_error answer w s =
      asked-Sound (usable h) fault id h at answer w refl s
  end-Sound fault id h at elapsed answer w s = unfold on_send_end in unfold classify_dispatch in s

  lookup-Sound :
      (answer : Lookup) (readable published fault fault' : Bool) (id : ℕ) (h : String)
      (t : Option ℤ) (os : List OrderRow) (log : List Entry)
      → Sound usable os log
      → Sound usable
          (on_lookup answer readable published fault fault' id h t os)
          (noted h answer log)
  lookup-Sound (found succeeded) false published fault fault' id h t os log s = s
  lookup-Sound (found succeeded) true published fault fault' id h t os log s =
      finalize-Sound usable published fault fault' id h t os log s
  lookup-Sound (found in_flight) readable published fault fault' id h t os log s = s
  lookup-Sound (found payment_failed) readable published fault fault' id h t os log s =
      lost-Sound fault id h t os log s
  lookup-Sound (found other) readable published fault fault' id h t os log s =
      lost-Sound fault id h t os log s
  lookup-Sound no_record readable published fault fault' id h t os log s =
      lost-Sound fault id h t os log s
  lookup-Sound lookup_error readable published fault fault' id h t os log s = s

  pub reconcile-Sound :
      (u readable published fault fault' : Bool) (id : ℕ) (h : String) (t : Option ℤ)
      (answer : Lookup) (w : Payouts)
      → usable h ≡ u
      → Holds usable w
      → Holds usable (reconcile_inflight_payout u readable published fault fault' id h t answer w)
  unfolding reconcile_inflight_payout
  reconcile-Sound false readable published fault fault' id h t answer w u s =
      garbled-Sound fault id h t w.rows w.log u s
  reconcile-Sound true readable published fault fault' id h t answer w u s =
      lookup-Sound answer readable published fault fault' id h t w.rows w.log s
