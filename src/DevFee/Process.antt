-- ===== src/DevFee/Process.antt =====
-- The payment of new development fees, and so a whole cycle, keeps the invariant
-- (src/app/dev_fee.rs).
use mostro.Prelude.{not, ◌&&◌}
use mostro.Prelude.{
  ℕ, suc, String, Bool, true, false, ◌≡◌, refl, sym, Option, none, some, List, [], ◌∷◌, ◌==◌, All,
  Bool-cases, inl, inr, arith, if◌then◌else◌,
}
use Prim.Native.String.{◌++◌}
use mathlib.Core.Path.{subst}
use text.Mathlib.Text.{◌==◌ as str_eq}
use text.Mathlib.TextPositions.{starts_with-append}
use mostro.Prelude.Int.{pos, leb_ℤ}
use mostro.DevFee.Table.{FeeOrder, Ledger, ◌>>=◌, done, modify, select, observe, find_order}
use mostro.DevFee.Marker.{pending_marker, pending, decimal}
use mostro.DevFee.Payment.{
  Outside, Submitted, taken, rejected, late, Update, paid, lost, pending_still, Outcome, sent_with,
  send_failed, timed_out, await_result, after_submit, is_pending, usable, dev_fee_comment,
  resolve_dev_fee_invoice, start_send, send_dev_fee_payment,
}
use mostro.DevFee.Columns.{is_unset, is_unpaid, awaits, set_unpaid, with_hash, paid_with}
use mostro.DevFee.Cycle.{
  claimable, is_new, after_success, handle_payment_success, handle_payment_failure, on_outcome,
  pay_found, after_storing, store_and_pay, after_claim, process_new, find_unpaid_dev_fees,
  try_claim_order_for_dev_fee, process_new_dev_fee_payments, run_dev_fee_cycle,
}
use mostro.DevFee.Programs.{
  Ensures, bind-Ensures, Holds, Keeps, done-Keeps, bind-Keeps, observe-Keeps, select-Keeps, Read,
  select-Read,
}
use mostro.DevFee.Sound.{IsHash, Sound}
use mostro.DevFee.Changes.{unset-over, paid-RowOk, same-RowOk, over-RowOk}
use mostro.DevFee.Phases.{
  modify-Sound, ignore-Keeps, release_pending_claim-Keeps, phase-Keeps,
  cleanup_stale_pending_markers-Keeps, verify_confirmed_orders-Keeps,
}
use mostro.DevFee.Recovery.{
  confirm_if_paid-Keeps, confirm_and_audit-Keeps, recover_partial_payments-Keeps,
  handle_payment_timeout-Keeps,
}
use mostro.DevFee.Stored.{Ready, Storing, modify-Storing, start_send-Sound}

abbrev pub NamesHash : Update → Type 0
NamesHash (paid hash) = IsHash hash
NamesHash lost = Unit
NamesHash pending_still = Unit

-- The node and the invoices name payments by hashes in hexadecimal.
pub record HasHashes (out : Outside) : Type 0 where
  pub invoices : (request : String) → IsHash (out.hash_of request)
  pub updated : (n : ℕ) (request : String) → All NamesHash (out.updates n request)

abbrev OutcomeOk : Outcome → Type 0
OutcomeOk (sent_with hash) = IsHash hash
OutcomeOk send_failed = Unit
OutcomeOk timed_out = Unit

await-OutcomeOk : (us : List Update) → All NamesHash us → OutcomeOk (await_result us)
await-OutcomeOk [] h = tt
await-OutcomeOk (paid hash ∷ us) h = h.0
await-OutcomeOk (lost ∷ us) h = tt
await-OutcomeOk (pending_still ∷ us) h = await-OutcomeOk us h.1

submit-OutcomeOk :
    (s : Submitted) (us : List Update) → All NamesHash us → OutcomeOk (after_submit s us)
submit-OutcomeOk taken us h = await-OutcomeOk us h
submit-OutcomeOk rejected us h = tt
submit-OutcomeOk late us h = tt

is_unpaid-fresh : (id : ℕ) (o : FeeOrder) → is_unpaid id o ≡ true → o.dev_fee_paid ≡ false
unfolding is_unpaid
is_unpaid-fresh id o p = ground arith

succeeded :
    (id : ℕ) (hash : String) (marked : Option Bool) → Keeps Sound (after_success id hash marked)
succeeded id hash none = done-Keeps Sound tt
succeeded id hash (some true) = confirm_and_audit-Keeps id hash
succeeded id hash (some false) = confirm_if_paid-Keeps id

handle_payment_success-Keeps :
    (o : FeeOrder) (hash : String) → IsHash hash → Keeps Sound (handle_payment_success o hash)
unfolding handle_payment_success
handle_payment_success-Keeps o hash h =
    bind-Keeps Sound (modify (is_unpaid o.id) (paid_with hash)) (after_success o.id hash)
      (λ w s.
        modify-Sound (is_unpaid o.id) (paid_with hash) w (λ _. refl)
          (λ row fits ok. paid-RowOk w.log s.hashes row ok (paid_with hash row) refl h.0) s)
      (succeeded o.id hash)

handle_payment_failure-Keeps : (o : FeeOrder) → Keeps Sound (handle_payment_failure o)
unfolding handle_payment_failure
handle_payment_failure-Keeps o = ignore-Keeps (modify (is_unpaid o.id) set_unpaid) (λ w s.
    modify-Sound (is_unpaid o.id) set_unpaid w (λ _. refl)
      (λ row fits ok.
        same-RowOk w.log s.hashes row ok (set_unpaid row) refl (sym (is_unpaid-fresh o.id row fits))
          refl)
      s)

module _ (out : Outside) (hashes : HasHashes out) where
  outcome-Keeps : (o : FeeOrder) (oc : Outcome) → OutcomeOk oc → Keeps Sound (on_outcome out o oc)
  outcome-Keeps o (sent_with hash) h = handle_payment_success-Keeps o hash h
  outcome-Keeps o send_failed h = handle_payment_failure-Keeps o
  outcome-Keeps o timed_out h = handle_payment_timeout-Keeps out o

  in_time-OutcomeOk :
      (b : Bool) (oc : Outcome) → OutcomeOk oc → OutcomeOk (if b then oc else timed_out)
  in_time-OutcomeOk true oc h = h
  in_time-OutcomeOk false oc h = tt

  sending :
      (o : FeeOrder) (request : String)
      → Ensures
          (Holds (Ready o.id (out.hash_of request)))
          (send_dev_fee_payment out o request)
          (λ oc w. OutcomeOk oc × Holds Sound w)
  unfolding send_dev_fee_payment done observe ◌>>=◌
  sending o request w r = elim (Bool-cases (leb_ℤ o.dev_fee (pos 0))) [
    | inl free ↦ rw free (tt, r.0)
    | inr fee ↦
        let w1 = (start_send o.id (out.hash_of request) w).1 in
        rw fee (
          in_time-OutcomeOk (out.sent_in_time (suc (suc w1.calls)))
              (after_submit (out.submit w1.calls request) (out.updates (suc w1.calls) request))
              (submit-OutcomeOk (out.submit w1.calls request) (out.updates (suc w1.calls) request)
                (hashes.updated (suc w1.calls) request)),
          start_send-Sound o.id (out.hash_of request) (hashes.invoices request) w r,
        )
  ]

  -- The row that is read again is the order's.
  Found : ℕ → Option FeeOrder → Type 0
  Found id none = Unit
  Found id (some o) = o.id ≡ id

  find_order-Found : (id : ℕ) (os : List FeeOrder) → Found id (find_order id os)
  unfolding find_order Found
  find_order-Found id [] = tt
  find_order-Found id (o ∷ os) = elim (Bool-cases (o.id == id)) [
    | inl this ↦ rw this (ground arith)
    | inr other ↦ rw other (find_order-Found id os)
  ]

  paying :
      (id : ℕ) (request : String) (found : Option (Option FeeOrder)) (w : Ledger)
      → Read (Found id) found × Holds (Ready id (out.hash_of request)) w
      → Holds Sound (pay_found out request found w).1
  unfolding Found
  paying id request none w h = done-Keeps Sound tt w h.1.0
  paying id request (some none) w h = done-Keeps Sound tt w h.1.0
  paying id request (some (some o)) w h =
      bind-Ensures (Holds (Ready o.id (out.hash_of request))) (λ oc w. OutcomeOk oc × Holds Sound w)
        (λ _. Holds Sound) (send_dev_fee_payment out o request) (on_outcome out o)
        (sending o request) (λ oc w k. outcome-Keeps o oc k.0 w k.1) w
        (subst (λ n. Holds (Ready n (out.hash_of request)) w) (sym h.0) h.1)

  storing :
      (id : ℕ) (marker request : String) (stored : Option Bool) (w : Ledger)
      → is_pending marker ≡ true
      → Storing id (out.hash_of request) stored w
      → Holds Sound (after_storing out id marker request stored w).1
  storing id marker request none w m h = release_pending_claim-Keeps id marker m w h
  storing id marker request (some false) w m h = done-Keeps Sound tt w h
  storing id marker request (some true) w m h =
      bind-Ensures (Holds (Ready id (out.hash_of request)))
        (λ found w. Read (Found id) found × Holds (Ready id (out.hash_of request)) w)
        (λ _. Holds Sound) (select (find_order id)) (pay_found out request)
        (λ w r. (
          select-Read (Found id) (find_order id) w (find_order-Found id w.orders),
          select-Keeps (Ready id (out.hash_of request)) (find_order id) w r,
        ))
        (paying id request) w h

  -- An invoice comes with the hash that it pays.
  Resolved : Option (String × String) → Type 0
  Resolved none = Unit
  Resolved (some (request, hash)) = hash ≡ out.hash_of request

  usable-Resolved :
      (b : Bool) (answer : Option String) → Resolved (if b then usable out answer else none)
  unfolding Resolved
  usable-Resolved false answer = tt
  usable-Resolved true none = tt
  usable-Resolved true (some request) =
      elim (Bool-cases (not (str_eq request "") && out.decodes request)) [
        | inl good ↦ rw good refl
        | inr bad ↦ rw bad tt
      ]

  resolving :
      (o : FeeOrder)
      → Ensures (Holds Sound) (resolve_dev_fee_invoice out o) (λ r w. Resolved r × Holds Sound w)
  unfolding resolve_dev_fee_invoice done observe ◌>>=◌
  resolving o w s = elim (Bool-cases (leb_ℤ o.dev_fee (pos 0))) [
    | inl free ↦ rw free (unfold Resolved in tt, s)
    | inr fee ↦ rw fee (
      usable-Resolved (out.resolved_in_time (suc w.calls))
          (out.resolve w.calls o.dev_fee (dev_fee_comment out o.id)),
      s,
    )
  ]

  resolved :
      (id : ℕ) (marker : String) (r : Option (String × String)) (w : Ledger)
      → is_pending marker ≡ true
      → Resolved r × Holds Sound w
      → Holds Sound (store_and_pay out id marker r w).1
  unfolding Resolved
  resolved id marker none w m h = release_pending_claim-Keeps id marker m w h.1
  resolved id marker (some (request, hash)) w m h =
      bind-Ensures (Holds Sound) (Storing id (out.hash_of request)) (λ _. Holds Sound)
        (modify (awaits id marker) (with_hash hash)) (after_storing out id marker request)
        (subst
          (λ hash.
            Ensures (Holds Sound) (modify (awaits id marker) (with_hash hash))
              (Storing id (out.hash_of request)))
          (sym h.0) (modify-Storing id marker (out.hash_of request) m))
        (λ stored w k. storing id marker request stored w m k) w h.1

  claimed :
      (o : FeeOrder) (marker : String) (answer : Option Bool)
      → is_pending marker ≡ true
      → Keeps Sound (after_claim out o marker answer)
  claimed o marker none m = done-Keeps Sound tt
  claimed o marker (some false) m = done-Keeps Sound tt
  claimed o marker (some true) m =
      bind-Ensures (Holds Sound) (λ r w. Resolved r × Holds Sound w) (λ _. Holds Sound)
        (resolve_dev_fee_invoice out o) (store_and_pay out o.id marker) (resolving o)
        (λ r w h. resolved o.id marker r w m h)

  new_parts :
      (id : ℕ) (o : FeeOrder)
      → claimable id o ≡ true
      → (o.dev_fee_paid ≡ false) × (is_unset o.dev_fee_payment_hash ≡ true)
  unfolding claimable is_new
  new_parts id o p = (ground arith, ground arith)

  claim-Keeps : (id : ℕ) (marker : String) → Keeps Sound (try_claim_order_for_dev_fee id marker)
  unfolding try_claim_order_for_dev_fee
  claim-Keeps id marker w s =
      modify-Sound (claimable id) (with_hash marker) w (λ _. refl)
        (λ o fits ok.
          let (fresh, unset) = new_parts id o fits in
          over-RowOk w.log o.id (with_hash marker o) refl
            (unset-over w.log s.hashes o ok fresh unset) (rw fresh refl))
        s

  marker_pending : (uuid : String) (now : ℕ) → is_pending (pending_marker uuid now) ≡ true
  unfolding pending_marker
  marker_pending uuid now = starts_with-append pending (uuid ++ ("-" ++ decimal now))

  process_new-Keeps : (o : FeeOrder) → Keeps Sound (process_new out o)
  unfolding process_new
  process_new-Keeps o =
      bind-Keeps Sound (observe out.clock) _ (observe-Keeps Sound out.clock) (λ now.
        bind-Keeps Sound (observe out.uuid) _ (observe-Keeps Sound out.uuid) (λ uuid.
          bind-Keeps Sound (try_claim_order_for_dev_fee o.id (pending_marker uuid now))
            (after_claim out o (pending_marker uuid now))
            (claim-Keeps o.id (pending_marker uuid now))
            (λ answer. claimed o (pending_marker uuid now) answer (marker_pending uuid now))))

  pub run_dev_fee_cycle-Keeps : Keeps Sound (run_dev_fee_cycle out)
  unfolding run_dev_fee_cycle process_new_dev_fee_payments find_unpaid_dev_fees
  run_dev_fee_cycle-Keeps = bind-Keeps Sound _ _ (cleanup_stale_pending_markers-Keeps out) (λ _.
      bind-Keeps Sound _ _ (verify_confirmed_orders-Keeps out) (λ _.
        bind-Keeps Sound _ _ (recover_partial_payments-Keeps out)
          (λ _. phase-Keeps is_new (process_new out) (λ o _. process_new-Keeps o))))
