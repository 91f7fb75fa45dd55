-- ===== src/Orderbook/Tests.antt =====
-- Runs of the order book's registry and queue on small inputs, and instances of their theorems.
use mostro.Prelude.{ℕ, ◌<◌, ◌≡◌, refl, some, none, [], ◌∷◌, arith}
use mostro.Prelude.Equality.{nat_eq}
use mostro.Prelude.Map.{lookup, insert}
use mostro.Result.{ok}
use mostro.Orderbook.{
  initial, stamp_locked, monotonic_created_at, pruned, try_stamp_orderbook_event_quiescent,
}
use mostro.Orderbook.Queue.{
  mark_orderbook_publish_failed_at, requeue_orderbook_publish_failure,
  take_failed_orderbook_publishes,
}
use mostro.Orderbook.Publish.{
  State, Answers, Reload, reloaded, rejected, reconcile_orderbook_once, reconcile_entries,
  reconcile_entry, update_order_event_stamped, publish_event, stamp_for, record_send,
  after_republish, Sent,
}
use mostro.Orderbook.Stamps.{stamp_locked_strict, stamp_all}
use mostro.Orderbook.Failures.{mark-survives, IsQueued, apply_ops, mark, clear_up_to, requeue}
use mostro.Orderbook.Attempts.{reconcile_orderbook_once-Spent, Spent}

stamps_of_one_second : (stamp_locked (stamp_locked initial 7 1000).1 7 1000).0.created_at ≡ 1001
unfolding stamp_locked monotonic_created_at pruned lookup insert
stamps_of_one_second = refl

stamp_locked_strict_example :
    (stamp_locked initial 7 1000).0.created_at
    < (stamp_locked
        (stamp_all ((8, 1000) ∷ (7, 1000) ∷ []) (stamp_locked initial 7 1000).1)
        7
        990).0.created_at
unfolding stamp_locked monotonic_created_at pruned lookup insert
stamp_locked_strict_example =
    stamp_locked_strict initial 7 1000 990 2000 ((8, 1000) ∷ (7, 1000) ∷ []) tt (omega arith)
      (omega arith) (omega arith, (omega arith, (omega arith, tt)))

mark-survives_example :
    IsQueued 5 (
      lookup 7
        (take_failed_orderbook_publishes (
          apply_ops
            (clear_up_to 7 4 ∷ requeue 7 2 3 ∷ mark 8 9 ∷ [])
            (mark_orderbook_publish_failed_at 7 5 []))).0)
    × (lookup 7
          (take_failed_orderbook_publishes (
            apply_ops
              (clear_up_to 7 4 ∷ requeue 7 2 3 ∷ mark 8 9 ∷ [])
              (mark_orderbook_publish_failed_at 7 5 []))).1
        ≡ none)
mark-survives_example =
    mark-survives 7 5 (clear_up_to 7 4 ∷ requeue 7 2 3 ∷ mark 8 9 ∷ []) [] (omega arith, tt)

abbrev answers : Sent → Answers
answers sent = record {
  ratings = ok tt;
  tags = ok (some tt);
  now = 5000;
  event = ok "e1";
  sent = sent;
}

abbrev waiting : State
waiting = record { registry = initial; queue = (7, (3, 1)) ∷ (8, (2, 5)) ∷ (9, (4, 2)) ∷ [] }

abbrev reloads : ℕ → Reload
reloads id = reloaded (answers rejected)

-- Order 8 has no attempt left, and the others use up one each.
one_pass : (reconcile_orderbook_once reloads waiting).queue ≡ ((7, (3, 2)) ∷ (9, (4, 3)) ∷ [])
unfolding reconcile_orderbook_once reconcile_entries reconcile_entry update_order_event_stamped
    publish_event stamp_for record_send after_republish take_failed_orderbook_publishes
    requeue_orderbook_publish_failure mark_orderbook_publish_failed_at lookup insert
    try_stamp_orderbook_event_quiescent stamp_locked monotonic_created_at pruned
one_pass = refl

reconcile_orderbook_once-Spent_example :
    Spent (lookup 9 waiting.queue) (lookup 9 (reconcile_orderbook_once reloads waiting).queue)
reconcile_orderbook_once-Spent_example =
    reconcile_orderbook_once-Spent reloads waiting 9 (unfold lookup in (refl, (refl, (refl, tt))))
