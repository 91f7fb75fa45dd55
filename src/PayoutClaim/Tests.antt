-- ===== src/PayoutClaim/Tests.antt =====
-- Runs of the statements on a payout's claim (src/db.rs), and the witness.
use mostro.Prelude.{◌≡◌, refl, true, false, none, some, inr, List, [], ◌∷◌}
use mostro.Prelude.Int.{pos}
use mostro.Result.{ok}
use mostro.Prelude.Rows.{affects, rewrite}
use mostro.PayoutClaim.{
  fail_order_payout, OrderRow, apply_update, settled_hold_invoice, unclaimed, owns, owns_settled,
  claim_order_payout, touch_order_payout_claim, clear_order_payout,
}
use mostro.PaymentLog.{sent, failed}
use mostro.DevFee.Payment.{succeeded}
use mostro.PayoutClaim.Dispatch.{
  no_record, elapsed, classify_dispatch, unfinished, payment_success, finalize, claim_payout,
  heartbeat, start_payment_if_owned, on_payment_update, on_send_end, reconcile_inflight_payout,
}
use mostro.PayoutClaim.Accounts.{Single}
use mostro.PayoutClaim.Once.{
  Stretch, claims, beats, starts, updates, ends, reconciles, moves, act, act_all, unsent,
  act_all-Single,
}
use mostro.PayoutClaim.Lease.{answers, lease_answers, lease_all, leases}
use mostro.PayoutClaim.Refinement.{answers-lease_answers}
use mostro.PayoutClaim.Exclusive.{claim_order_payout-excludes}
use mostro.PayoutClaim.Owner.{
  Call, claim, touch, clear, fail, move, call_all, claim_order_payout-owned,
}

abbrev settled : OrderRow
settled = record {
  id = 7;
  status = "settled-hold-invoice";
  payout_payment_hash = none;
  payout_claimed_at = none;
  failed_payment = false;
}

-- A second claim, a stale release, a refused touch, and the move of the order to another status.
abbrev others : List Call
others =
    claim false 7 "beef" (pos 101)
    ∷ clear false 7 "cafe" (some (pos 90))
    ∷ fail false 7 "beef" (some (pos 101))
    ∷ touch true 7 "beef" none (pos 102)
    ∷ move 7 "success"
    ∷ []

claim_runs : (claim_order_payout false 7 "cafe" (pos 100) (settled ∷ [])).0 ≡ ok (some (pos 100))
unfolding claim_order_payout apply_update affects rewrite unclaimed settled_hold_invoice
claim_runs = refl

-- A touch moves the claim to its own time, so that the release of the old one fails.
touch_runs :
    (clear_order_payout false 7 "cafe"
      (some (pos 100))
      (touch_order_payout_claim false 7 "cafe"
        (some (pos 100))
        (pos 130)
        (claim_order_payout false 7 "cafe" (pos 100) (settled ∷ [])).1).1).0
    ≡ ok false
unfolding claim_order_payout touch_order_payout_claim clear_order_payout apply_update affects
    rewrite unclaimed owns owns_settled settled_hold_invoice
touch_runs = refl

claim_order_payout-owned_example :
    (clear_order_payout false 7 "cafe"
      (some (pos 100))
      (call_all others (claim_order_payout false 7 "cafe" (pos 100) (settled ∷ [])).1)).0
    ≡ ok true
claim_order_payout-owned_example =
    claim_order_payout-owned false 7 "cafe" (pos 100) (pos 100) others (settled ∷ []) claim_runs
      (tt, (refl, (refl, (refl, (tt, tt)))))

claim_order_payout-excludes_example :
    ((claim_order_payout false 7 "beef"
        (pos 140)
        (call_all others (claim_order_payout false 7 "cafe" (pos 100) (settled ∷ [])).1)).0
      ≡ ok none)
    × ((touch_order_payout_claim false 7 "beef"
          (some (pos 101))
          (pos 140)
          (call_all others (claim_order_payout false 7 "cafe" (pos 100) (settled ∷ [])).1)).0
        ≡ ok none)
claim_order_payout-excludes_example =
    claim_order_payout-excludes false 7 "cafe" (pos 100) (pos 100) others (settled ∷ []) claim_runs
      ((λ _. unfold affects in refl), tt) (tt, (refl, (refl, (refl, (tt, tt))))) "beef"
      (some (pos 101)) (pos 140) refl

abbrev active : OrderRow
active = record settled { status = "active" }

-- The order's hold invoice is settled. A payout that is sent, left by a timeout and found lost by the reconciliation is sent again under
-- the buyer's next invoice.
abbrev payout_story : List Stretch
payout_story =
    moves 7 "settled-hold-invoice"
    ∷ claims false 7 "cafe" (pos 100)
    ∷ beats false 7 "cafe" (pos 100) (pos 130)
    ∷ starts false 7 "cafe" (pos 130) (pos 150)
    ∷ ends false 7 "cafe" (pos 150) elapsed no_record
    ∷ claims false 7 "beef" (pos 160)
    ∷ reconciles true true false false 7 "cafe" (some (pos 150)) no_record
    ∷ claims false 7 "beef" (pos 170)
    ∷ starts false 7 "beef" (pos 170) (pos 171)
    ∷ updates true false false 7 "beef" (pos 171) succeeded
    ∷ []

payout_story_log :
    (act_all (λ _. true) payout_story (unsent (active ∷ []))).log
    ≡ sent 7 "beef" ∷ failed "cafe" ∷ sent 7 "cafe" ∷ []
unfolding act_all act claim_payout heartbeat start_payment_if_owned on_send_end classify_dispatch
    reconcile_inflight_payout on_payment_update finalize payment_success claim_order_payout
    touch_order_payout_claim clear_order_payout fail_order_payout apply_update affects rewrite
    unclaimed owns owns_settled unfinished settled_hold_invoice
payout_story_log = refl

act_all-Single_example : Single (act_all (λ _. true) payout_story (unsent (active ∷ []))).log
act_all-Single_example =
    act_all-Single (λ _. true) (active ∷ []) payout_story (unfold affects in refl, tt)
      (inr tt, (tt, (tt, (refl, (tt, (tt, (tt, (tt, (refl, (tt, tt))))))))))

answers-lease_answers_example :
    (answers others (settled ∷ []) ≡ lease_answers others (leases (settled ∷ [])))
    × (leases (call_all others (settled ∷ [])) ≡ lease_all others (leases (settled ∷ [])))
answers-lease_answers_example =
    answers-lease_answers others (settled ∷ []) (unfold affects in refl, tt)
