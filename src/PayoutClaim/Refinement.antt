-- ===== src/PayoutClaim/Refinement.antt =====
-- The table of orders implements the leases of their payouts (src/db.rs).
use std.Path.{fun_ext}
use mostro.Prelude.{
  ◌≡◌, refl, ap, ◌∙◌, Bool, true, false, none, some, List, [], ◌∷◌, if◌then◌else◌, ◌==◌,
}
use mostro.Prelude.Int.{ℤ}
use mostro.Prelude.Rows.{rewrite-IsKeyed}
use mostro.Result.{ok}
use mostro.PayoutClaim.{
  OrderRow, apply_update, stamped, unclaimed, owns, owns_settled, set_claim, set_claimed_at,
  set_cleared, set_failed, claim_order_payout, touch_order_payout_claim, clear_order_payout,
  fail_order_payout,
}
use mostro.PayoutClaim.Owner.{Call, claim, touch, clear, fail, move, call, call_all}
use mostro.PayoutClaim.Lease.{
  grant, renew, accepts, time, done, lease_answer, lease_call, lease_answers, lease_all, answer,
  answers, leases,
}
use mostro.PayoutClaim.Accounts.{IsKeyed}
use mostro.PayoutClaim.Statements.{
  leases-rewrite, affects-accepts, claim-Implements, touch-Implements, clear-Implements,
  fail-Implements, move-Implements,
}

stamped-time : (now : ℤ) (b : Bool) → stamped now (ok b) ≡ ok (if b then some now else none)
stamped-time now true = refl
stamped-time now false = refl

answer-lease_answer :
    (c : Call) (os : List OrderRow) → IsKeyed os → answer c os ≡ lease_answer c (leases os)
unfolding answer lease_answer claim_order_payout touch_order_payout_claim clear_order_payout
    fail_order_payout apply_update
answer-lease_answer (claim true id h now) os k = refl
answer-lease_answer (claim false id h now) os k =
    rw (affects-accepts (claim-Implements id h now) os k)
      (ap time (stamped-time now (accepts (grant h now) id (leases os))))
answer-lease_answer (touch true id h at now) os k = refl
answer-lease_answer (touch false id h at now) os k =
    rw (affects-accepts (touch-Implements id h at now) os k)
      (ap time (stamped-time now (accepts (renew h at now) id (leases os))))
answer-lease_answer (clear true id h at) os k = refl
answer-lease_answer (clear false id h at) os k =
    ap (λ b. done (ok b)) (affects-accepts (clear-Implements id h at) os k)
answer-lease_answer (fail true id h at) os k = refl
answer-lease_answer (fail false id h at) os k =
    ap (λ b. done (ok b)) (affects-accepts (fail-Implements id h at) os k)
answer-lease_answer (move id status) os k = refl

leases-call : (c : Call) (os : List OrderRow) → leases (call c os) ≡ lease_call c (leases os)
unfolding call lease_call claim_order_payout touch_order_payout_claim clear_order_payout
    fail_order_payout apply_update
leases-call (claim true id h now) os = refl
leases-call (claim false id h now) os =
    fun_ext (λ n. leases-rewrite (claim-Implements id h now) n os)
leases-call (touch true id h at now) os = refl
leases-call (touch false id h at now) os =
    fun_ext (λ n. leases-rewrite (touch-Implements id h at now) n os)
leases-call (clear true id h at) os = refl
leases-call (clear false id h at) os = fun_ext (λ n. leases-rewrite (clear-Implements id h at) n os)
leases-call (fail true id h at) os = refl
leases-call (fail false id h at) os = fun_ext (λ n. leases-rewrite (fail-Implements id h at) n os)
leases-call (move id status) os = fun_ext (λ n. leases-rewrite (move-Implements id status) n os)

call-IsKeyed : (c : Call) (os : List OrderRow) → IsKeyed os → IsKeyed (call c os)
unfolding call claim_order_payout touch_order_payout_claim clear_order_payout fail_order_payout
    apply_update
call-IsKeyed (claim true id h now) os k = k
call-IsKeyed (claim false id h now) os k =
    rewrite-IsKeyed (λ (o : OrderRow). o.id) (unclaimed id) (set_claim h now) (λ _. refl) os k
call-IsKeyed (touch true id h at now) os k = k
call-IsKeyed (touch false id h at now) os k =
    rewrite-IsKeyed (λ (o : OrderRow). o.id) (owns_settled id h at) (set_claimed_at now) (λ _. refl)
      os k
call-IsKeyed (clear true id h at) os k = k
call-IsKeyed (clear false id h at) os k =
    rewrite-IsKeyed (λ (o : OrderRow). o.id) (owns id h at) set_cleared (λ _. refl) os k
call-IsKeyed (fail true id h at) os k = k
call-IsKeyed (fail false id h at) os k =
    rewrite-IsKeyed (λ (o : OrderRow). o.id) (owns id h at) set_failed (λ _. refl) os k
call-IsKeyed (move id status) os k =
    rewrite-IsKeyed (λ (o : OrderRow). o.id) (λ o. o.id == id) (λ o. record o { status = status })
      (λ _. refl) os k

-- The ids of the orders are a key. Then any calls, of whatever callers and with whatever statements
-- refused, are answered as the operations on the leases answer them, and leave the leases that
-- these leave.
pub answers-lease_answers :
    (cs : List Call) (os : List OrderRow)
    → IsKeyed os
    → (answers cs os ≡ lease_answers cs (leases os))
      × (leases (call_all cs os) ≡ lease_all cs (leases os))
unfolding answers lease_answers call_all lease_all
answers-lease_answers [] os k = (refl, refl)
answers-lease_answers (c ∷ cs) os k =
    let rest = answers-lease_answers cs (call c os) (call-IsKeyed c os k) in
    let now = answer-lease_answer c os k in
    let after = leases-call c os in
    (
      ap (λ a. a ∷ answers cs (call c os)) now
          ∙ ap (λ l. lease_answer c (leases os) ∷ l) (rest.0 ∙ ap (lease_answers cs) after),
      rest.1 ∙ ap (lease_all cs) after,
    )
