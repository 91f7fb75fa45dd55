-- ===== src/DevFee/Recovery.antt =====
-- The recovery of a payment whose outcome was not seen keeps the invariant (src/app/dev_fee.rs).
use mostro.Prelude.{
  ℕ, String, Bool, true, false, ◌&&◌, ◌≡◌, refl, ◌∙◌, Option, none, some, Bool-cases, inl, inr,
  arith,
}
use mostro.PaymentLog.{has_failed}
use mostro.DevFee.Table.{FeeOrder, Ledger, ◌>>=◌, done, modify, select, confirm, find_order}
use mostro.DevFee.Payment.{
  Outside, DevFeePaymentState, state_succeeded, state_in_flight, state_failed, state_unknown,
  is_pending, check_dev_fee_payment_status,
}
use mostro.DevFee.Columns.{is_pending_hash, or_empty, awaits, set_paid, without_hash, reset}
use mostro.DevFee.Cycle.{
  ignore, confirm_found, confirm_if_paid, audit_found, confirm_and_audit, after_marking,
  on_recovered, recover_one, is_partial, recover_partial_payments, on_timeout,
  handle_payment_timeout,
}
use mostro.DevFee.Programs.{
  bind-Ensures, Holds, Keeps, done-Keeps, bind-Keeps, confirm-Keeps, audit-Keeps, select-Keeps,
}
use mostro.DevFee.Sound.{Sound, KeepsId}
use mostro.DevFee.Changes.{failed-over, paid-RowOk, over-RowOk, is_pending_hash-holds}
use mostro.DevFee.Phases.{
  modify-Sound, ignore-Keeps, awaits-parts, Answered, check_dev_fee_payment_status-Answered,
  phase-Keeps,
}

found_paid : (id : ℕ) (found : Option (Option FeeOrder)) → Keeps Sound (confirm_found id found)
found_paid id none = done-Keeps Sound tt
found_paid id (some none) = done-Keeps Sound tt
found_paid id (some (some o)) = elim (Bool-cases o.dev_fee_paid) [
  | inl yes_paid ↦ rw yes_paid (confirm-Keeps Sound id)
  | inr not_paid ↦ rw not_paid (done-Keeps Sound tt)
]

pub confirm_if_paid-Keeps : (id : ℕ) → Keeps Sound (confirm_if_paid id)
unfolding confirm_if_paid
confirm_if_paid-Keeps id =
    bind-Keeps Sound (select (find_order id)) (confirm_found id)
      (select-Keeps Sound (find_order id)) (found_paid id)

found_audit :
    (id : ℕ) (hash : String) (found : Option (Option FeeOrder))
    → Keeps Sound (audit_found id hash found)
found_audit id hash none = done-Keeps Sound tt
found_audit id hash (some none) = done-Keeps Sound tt
found_audit id hash (some (some o)) = audit-Keeps Sound id hash

pub confirm_and_audit-Keeps : (id : ℕ) (hash : String) → Keeps Sound (confirm_and_audit id hash)
unfolding confirm_and_audit
confirm_and_audit-Keeps id hash = bind-Keeps Sound (confirm id) _ (confirm-Keeps Sound id) (λ _.
    bind-Keeps Sound (select (find_order id)) (audit_found id hash)
      (select-Keeps Sound (find_order id)) (found_audit id hash))

-- A payment that has succeeded is written down.
paid-Keeps :
    (id : ℕ) (hash : String)
    → is_pending hash ≡ false
    → Keeps Sound (modify (awaits id hash) set_paid)
paid-Keeps id hash plain w s =
    modify-Sound (awaits id hash) set_paid w (λ _. refl)
      (λ o fits ok.
        paid-RowOk w.log s.hashes o ok (set_paid o) refl (
          is_pending_hash-holds o.dev_fee_payment_hash hash (awaits-parts id hash o fits).2
          ∙ plain))
      s

-- The hash of a payment that has failed is cleared.
module _ (id : ℕ) (hash : String) (change : FeeOrder → FeeOrder) (same : KeepsId change)
    (clears : (o : FeeOrder)
      → ((change o).dev_fee_paid && is_pending_hash (change o).dev_fee_payment_hash) ≡ false) where
  cleared-Sound :
      (w : Ledger)
      → has_failed hash w.log ≡ true
      → Holds Sound w
      → Holds Sound (ignore (modify (awaits id hash) change) w).1
  unfolding ignore ◌>>=◌ done
  cleared-Sound w lost s =
      modify-Sound (awaits id hash) change w same
        (λ o fits ok.
          let (_, fresh, held) = awaits-parts id hash o fits in
          over-RowOk w.log o.id (change o) (same o)
            (failed-over w.log s.hashes o ok hash fresh held lost) (clears o))
        s

marking :
    (id : ℕ) (hash : String) (marked : Option Bool) → Keeps Sound (after_marking id hash marked)
marking id hash none = done-Keeps Sound tt
marking id hash (some true) = confirm_and_audit-Keeps id hash
marking id hash (some false) = confirm_if_paid-Keeps id

clears_hash :
    (o : FeeOrder)
    → ((without_hash o).dev_fee_paid && is_pending_hash (without_hash o).dev_fee_payment_hash)
      ≡ false
clears_hash o = ground arith

recovered :
    (id : ℕ) (hash : String) (state : DevFeePaymentState) (w : Ledger)
    → Answered hash state w
    → Holds Sound (on_recovered id hash state w).1
recovered id hash state_succeeded w a =
    bind-Keeps Sound (modify (awaits id hash) set_paid) (after_marking id hash)
      (paid-Keeps id hash a.1) (marking id hash) w a.0
recovered id hash state_in_flight w a = done-Keeps Sound tt w a
recovered id hash state_failed w a =
    cleared-Sound id hash without_hash (λ _. refl) clears_hash w a.1 a.0
recovered id hash state_unknown w a = done-Keeps Sound tt w a

recover_one-Keeps : (out : Outside) (o : FeeOrder) → Keeps Sound (recover_one out o)
unfolding recover_one
recover_one-Keeps out o =
    bind-Ensures (Holds Sound) (Answered (or_empty o.dev_fee_payment_hash)) (λ _. Holds Sound)
      (check_dev_fee_payment_status out o) (on_recovered o.id (or_empty o.dev_fee_payment_hash))
      (check_dev_fee_payment_status-Answered out o)
      (recovered o.id (or_empty o.dev_fee_payment_hash))

pub recover_partial_payments-Keeps : (out : Outside) → Keeps Sound (recover_partial_payments out)
unfolding recover_partial_payments
recover_partial_payments-Keeps out =
    phase-Keeps is_partial (recover_one out) (λ o _. recover_one-Keeps out o)

timeout :
    (id : ℕ) (hash : String) (state : DevFeePaymentState) (w : Ledger)
    → Answered hash state w
    → Holds Sound (on_timeout id hash state w).1
timeout id hash state_succeeded w a =
    bind-Keeps Sound (ignore (modify (awaits id hash) set_paid)) (λ _. confirm id)
      (ignore-Keeps (modify (awaits id hash) set_paid) (paid-Keeps id hash a.1))
      (λ _. confirm-Keeps Sound id) w a.0
timeout id hash state_in_flight w a = done-Keeps Sound tt w a
timeout id hash state_failed w a = cleared-Sound id hash reset (λ _. refl) (λ _. refl) w a.1 a.0
timeout id hash state_unknown w a = done-Keeps Sound tt w a

pub handle_payment_timeout-Keeps :
    (out : Outside) (o : FeeOrder) → Keeps Sound (handle_payment_timeout out o)
unfolding handle_payment_timeout
handle_payment_timeout-Keeps out o =
    bind-Ensures (Holds Sound) (Answered (or_empty o.dev_fee_payment_hash)) (λ _. Holds Sound)
      (check_dev_fee_payment_status out o) (on_timeout o.id (or_empty o.dev_fee_payment_hash))
      (check_dev_fee_payment_status-Answered out o) (timeout o.id (or_empty o.dev_fee_payment_hash))
