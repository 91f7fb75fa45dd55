-- ===== src/DevFee/Phases.antt =====
-- The statements and the phases keep the invariant (src/app/dev_fee.rs).
use text.Mathlib.TextPositions.{eq_refl}
use mostro.Prelude.{
  ℕ, suc, String, Bool, true, false, ◌≡◌, refl, Option, none, some, List, ◌==◌, All, Bool-cases,
  inl, inr, arith, keep,
}
use mostro.PaymentLog.{has_failed}
use mostro.DevFee.Table.{
  FeeOrder, Fault, fine, refused, crash, Ledger, Task, ◌>>=◌, done, fate, modify, modify_at, select,
  observe,
}
use mostro.DevFee.Marker.{parse_pending_timestamp}
use mostro.DevFee.Payment.{
  Outside, DevFeePaymentState, state_succeeded, state_in_flight, state_failed, state_unknown,
  state_of, noted, ask, ask_unless, check_hash, is_pending, check_dev_fee_payment_status,
}
use mostro.DevFee.Columns.{
  hash_is, is_pending_hash, or_empty, holds, is_unpaid, awaits, without_hash, reset,
}
use mostro.DevFee.Cycle.{
  ignore, cleanup_one, on_rows, has_marker, is_stale, cleanup_stale_pending_markers,
  is_paid_with_hash, mem, on_verified, verify_one, verify_confirmed_orders, release_pending_claim,
}
use mostro.DevFee.Programs.{
  Ensures, bind-Ensures, Holds, Keeps, done-Keeps, bind-Keeps, observe-Keeps, confirm-Keeps,
  select-Keeps, for_each-Keeps, Read, select-Read, keep-All,
}
use mostro.DevFee.Sound.{RowOk, Sound, KeepsId, rewrite-Sound, failed-Sound}
use mostro.DevFee.Changes.{marked-over, over-RowOk}

modify_at-Sound :
    (f : Fault) (fits : FeeOrder → Bool) (change : FeeOrder → FeeOrder) (w : Ledger)
    → KeepsId change
    → ((o : FeeOrder) → fits o ≡ true → RowOk w.log o → RowOk w.log (change o))
    → Holds Sound w
    → Holds Sound (modify_at f fits change w).1
modify_at-Sound fine fits change w same ok s = rewrite-Sound fits change same w.orders w.log ok s
modify_at-Sound refused fits change w same ok s = s
modify_at-Sound crash fits change w same ok s = s

pub modify-Sound :
    (fits : FeeOrder → Bool) (change : FeeOrder → FeeOrder) (w : Ledger)
    → KeepsId change
    → ((o : FeeOrder) → fits o ≡ true → RowOk w.log o → RowOk w.log (change o))
    → Holds Sound w
    → Holds Sound (modify fits change w).1
unfolding modify
modify-Sound fits change w same ok s = modify_at-Sound (fate w) fits change w same ok s

pub ignore-Keeps : {A : Type 0} (m : Task A) → Keeps Sound m → Keeps Sound (ignore m)
unfolding ignore
ignore-Keeps m k = bind-Keeps Sound m (λ _. done tt) k (λ _. done-Keeps Sound tt)

holds-parts :
    (id : ℕ) (hash : String) (o : FeeOrder)
    → holds id hash o ≡ true
    → hash_is hash o.dev_fee_payment_hash ≡ true
unfolding holds
holds-parts id hash o p = ground arith

pub awaits-parts :
    (id : ℕ) (hash : String) (o : FeeOrder)
    → awaits id hash o ≡ true
    → ((o.id == id) ≡ true)
      × (o.dev_fee_paid ≡ false)
      × (hash_is hash o.dev_fee_payment_hash ≡ true)
unfolding awaits is_unpaid
awaits-parts id hash o p = (ground arith, ground arith, ground arith)

-- A claim is given up, whether the order is taken for unpaid or not.
pub reset-Keeps :
    (id : ℕ) (marker : String)
    → is_pending marker ≡ true
    → Keeps Sound (ignore (modify (holds id marker) reset))
reset-Keeps id marker m = ignore-Keeps (modify (holds id marker) reset) (λ w s.
    modify-Sound (holds id marker) reset w (λ _. refl)
      (λ o fits ok.
        over-RowOk w.log o.id (reset o) refl
          (marked-over w.log s.hashes o ok marker (holds-parts id marker o fits) m) refl)
      s)

pub release_pending_claim-Keeps :
    (id : ℕ) (marker : String)
    → is_pending marker ≡ true
    → Keeps Sound (release_pending_claim id marker)
unfolding release_pending_claim
release_pending_claim-Keeps id marker m =
    ignore-Keeps (modify (holds id marker) without_hash) (λ w s.
      modify-Sound (holds id marker) without_hash w (λ _. refl)
        (λ o fits ok.
          over-RowOk w.log o.id (without_hash o) refl
            (marked-over w.log s.hashes o ok marker (holds-parts id marker o fits) m)
            (ground arith))
        s)

-- The node's answer on a hash, and what is known after it.
abbrev pub Answered : String → DevFeePaymentState → Ledger → Type 0
Answered hash state_succeeded w = Holds Sound w × (is_pending hash ≡ false)
Answered hash state_in_flight w = Holds Sound w
Answered hash state_failed w = Holds Sound w × (has_failed hash w.log ≡ true)
Answered hash state_unknown w = Holds Sound w

noted-Answered :
    (hash : String) (state : DevFeePaymentState) (w : Ledger) (n : ℕ)
    → is_pending hash ≡ false
    → Holds Sound w
    → Answered hash state (record w { calls = n; log = noted hash state w.log })
unfolding has_failed
noted-Answered hash state_succeeded w n p s = (s, p)
noted-Answered hash state_in_flight w n p s = s
noted-Answered hash state_failed w n p s =
    (failed-Sound hash w.orders w.log s, rw (eq_refl hash) refl)
noted-Answered hash state_unknown w n p s = s

pub check_dev_fee_payment_status-Answered :
    (out : Outside) (o : FeeOrder)
    → Ensures
        (Holds Sound)
        (check_dev_fee_payment_status out o)
        (Answered (or_empty o.dev_fee_payment_hash))
unfolding check_dev_fee_payment_status check_hash ask done
check_dev_fee_payment_status-Answered out o = answered o.dev_fee_payment_hash
  where
    asked :
        (down : Bool) (hash : String) (w : Ledger)
        → is_pending hash ≡ false
        → Holds Sound w
        → Answered hash (ask_unless down out hash w).0 (ask_unless down out hash w).1
    asked true hash w plain s = s
    asked false hash w plain s =
        noted-Answered hash (state_of (out.status w.calls hash)) w (suc w.calls) plain s

    answered :
        (x : Option String) → Ensures (Holds Sound) (check_hash out x) (Answered (or_empty x))
    answered none w s = s
    answered (some hash) w s = elim (Bool-cases (is_pending hash)) [
      | inl marker ↦ rw marker s
      | inr plain ↦ elim (Bool-cases (out.is_hex hash)) [
        | inl hex ↦ rw (plain, hex) (asked w.down hash w plain s)
        | inr garbled ↦ rw (plain, garbled) s
      ]
    ]

-- Phase 1

cleanup_one-Keeps : (now : ℕ) (o : FeeOrder) → has_marker o ≡ true → Keeps Sound (cleanup_one now o)
unfolding cleanup_one has_marker
cleanup_one-Keeps now o m =
    elim (Bool-cases (is_stale now (parse_pending_timestamp (or_empty o.dev_fee_payment_hash)))) [
      | inl stale ↦
          rw stale
            (reset-Keeps o.id (or_empty o.dev_fee_payment_hash) (marker o.dev_fee_payment_hash m))
      | inr fresh ↦ rw fresh (done-Keeps Sound tt)
    ]
  where
    marker : (x : Option String) → is_pending_hash x ≡ true → is_pending (or_empty x) ≡ true
    marker none p = absurd (cc)
    marker (some h) p = p

-- A phase: the rows of a query that all satisfy its test, one after the other.
pub phase-Keeps :
    (test : FeeOrder → Bool) (body : FeeOrder → Task (Unit {0}))
    → ((o : FeeOrder) → test o ≡ true → Keeps Sound (body o))
    → Keeps Sound (select (keep test) >>= on_rows body)
phase-Keeps test body each =
    bind-Ensures (Holds Sound)
      (λ rows w. Read (λ os. All (λ o. test o ≡ true) os) rows × Holds Sound w) (λ _. Holds Sound)
      (select (keep test)) (on_rows body)
      (λ w s. (
        select-Read (λ os. All (λ o. test o ≡ true) os) (keep test) w (keep-All test w.orders),
        select-Keeps Sound (keep test) w s,
      ))
      body-Keeps
  where
    body-Keeps :
        (rows : Option (List FeeOrder)) (w : Ledger)
        → Read (λ os. All (λ o. test o ≡ true) os) rows × Holds Sound w
        → Holds Sound (on_rows body rows w).1
    body-Keeps none w h = done-Keeps Sound tt w h.1
    body-Keeps (some os) w h = for_each-Keeps Sound (λ o. test o ≡ true) body each os h.0 w h.1

pub cleanup_stale_pending_markers-Keeps :
    (out : Outside) → Keeps Sound (cleanup_stale_pending_markers out)
unfolding cleanup_stale_pending_markers
cleanup_stale_pending_markers-Keeps out =
    bind-Keeps Sound (observe out.clock) _ (observe-Keeps Sound out.clock)
      (λ now. phase-Keeps has_marker (cleanup_one now) (cleanup_one-Keeps now))

-- Phase 2

verify_one-Keeps : (out : Outside) (o : FeeOrder) → Keeps Sound (verify_one out o)
unfolding verify_one
verify_one-Keeps out o w s = elim (Bool-cases (mem o.id w.confirmed)) [
  | inl known ↦ rw known s
  | inr unknown ↦ rw unknown (
      bind-Ensures (Holds Sound) (Answered (or_empty o.dev_fee_payment_hash)) (λ _. Holds Sound)
        (check_dev_fee_payment_status out o) (on_verified o.id)
        (check_dev_fee_payment_status-Answered out o) verified w s)
]
  where
    verified :
        (state : DevFeePaymentState) (w : Ledger)
        → Answered (or_empty o.dev_fee_payment_hash) state w
        → Holds Sound (on_verified o.id state w).1
    verified state_succeeded w a = confirm-Keeps Sound o.id w a.0
    verified state_in_flight w a = done-Keeps Sound tt w a
    verified state_failed w a = done-Keeps Sound tt w a.0
    verified state_unknown w a = done-Keeps Sound tt w a

pub verify_confirmed_orders-Keeps : (out : Outside) → Keeps Sound (verify_confirmed_orders out)
unfolding verify_confirmed_orders
verify_confirmed_orders-Keeps out =
    phase-Keeps is_paid_with_hash (verify_one out) (λ o _. verify_one-Keeps out o)
