-- ===== src/Orderbook/Failures.antt =====
-- A recorded failure outlives the successes of older publications, and reaches the reconciler
-- (src/util.rs, the queue).
use mostro.Prelude.{
  ℕ, ◌≤◌, ◌<◌, ◌≡◌, refl, Option, none, some, List, [], ◌∷◌, arith, inl, inr, Bool-cases,
}
use mostro.Prelude.Equality.{nat_eq, beq_refl}
use mostro.Prelude.Map.{lookup, lookup-insert, lookup-remove}
use mostro.Orderbook.Queue.{
  Queue, mark_orderbook_publish_failed_at, requeue_orderbook_publish_failure,
  clear_orderbook_publish_failure_up_to, take_failed_orderbook_publishes,
}

-- The calls on the queue between two takes of it, for any orders: those of the publishers, and those
-- of the reconciler's pass for the orders that it took before. The pass drops an order by making no
-- call for it.
pub data QueueOp : Type 0 where
  mark : ℕ → ℕ → QueueOp
  requeue : ℕ → ℕ → ℕ → QueueOp
  clear_up_to : ℕ → ℕ → QueueOp

unfoldable pub apply_op : QueueOp → Queue → Queue
apply_op (mark id g) q = mark_orderbook_publish_failed_at id g q
apply_op (requeue id g a) q = requeue_orderbook_publish_failure id g a q
apply_op (clear_up_to id g) q = clear_orderbook_publish_failure_up_to id g q

unfoldable pub apply_ops : List QueueOp → Queue → Queue
apply_ops [] q = q
apply_ops (op ∷ ops) q = apply_ops ops (apply_op op q)

-- Each success among these calls is of a publication stamped before `generation`.
abbrev pub OlderClears : ℕ → List QueueOp → Type 0
OlderClears generation [] = Unit
OlderClears generation (mark _ _ ∷ ops) = OlderClears generation ops
OlderClears generation (requeue _ _ _ ∷ ops) = OlderClears generation ops
OlderClears generation (clear_up_to _ g ∷ ops) = (g < generation) × OlderClears generation ops

-- The order is queued with a failure that is no older than `generation`.
abbrev pub IsQueued : ℕ → Option (ℕ × ℕ) → Type 0
IsQueued generation none = ⊥
IsQueued generation (some (failed_at, attempts)) = (generation ≤ failed_at) × (1 ≤ attempts)

module _ (id generation : ℕ) where
  mark-IsQueued :
      (key g : ℕ) (q : Queue)
      → IsQueued generation (lookup id q)
      → IsQueued generation (lookup id (mark_orderbook_publish_failed_at key g q))
  unfolding mark_orderbook_publish_failed_at
  mark-IsQueued key g q h = rw lookup-insert (elim (Bool-cases (nat_eq.beq id key)) [
    | inl same ↦ let h' = rw ((nat_eq.beq_iff id key).0 same) at h in rw same (ground (arith, h'))
    | inr other ↦ rw other h
  ])

  mark-IsQueued_self :
      (q : Queue)
      → IsQueued generation (lookup id (mark_orderbook_publish_failed_at id generation q))
  unfolding mark_orderbook_publish_failed_at
  mark-IsQueued_self q = rw (lookup-insert, beq_refl id) (ground arith)

  requeue-IsQueued :
      (key g a : ℕ) (q : Queue)
      → IsQueued generation (lookup id q)
      → IsQueued generation (lookup id (requeue_orderbook_publish_failure key g a q))
  unfolding requeue_orderbook_publish_failure
  requeue-IsQueued key g a q h = rw lookup-insert (elim (Bool-cases (nat_eq.beq id key)) [
    | inl same ↦ let h' = rw ((nat_eq.beq_iff id key).0 same) at h in rw same (ground (arith, h'))
    | inr other ↦ rw other h
  ])

  clear-IsQueued :
      (key g : ℕ) (q : Queue)
      → g < generation
      → IsQueued generation (lookup id q)
      → IsQueued generation (lookup id (clear_orderbook_publish_failure_up_to key g q))
  unfolding clear_orderbook_publish_failure_up_to
  clear-IsQueued key g q older h = ground (arith, lookup-remove id key q, nat_eq.beq_iff id key)

  apply_ops-IsQueued :
      (ops : List QueueOp) (q : Queue)
      → OlderClears generation ops
      → IsQueued generation (lookup id q)
      → IsQueued generation (lookup id (apply_ops ops q))
  unfolding apply_ops apply_op
  apply_ops-IsQueued [] q c h = h
  apply_ops-IsQueued (mark key g ∷ ops) q c h = apply_ops-IsQueued ops _ c (mark-IsQueued key g q h)
  apply_ops-IsQueued (requeue key g a ∷ ops) q c h =
      apply_ops-IsQueued ops _ c (requeue-IsQueued key g a q h)
  apply_ops-IsQueued (clear_up_to key g ∷ ops) q c h =
      apply_ops-IsQueued ops _ c.1 (clear-IsQueued key g q c.0 h)

  -- Once a publication of this generation is recorded as failed, the reconciler's next take of the
  -- queue hands out the order, with at least that generation and at least one attempt, and leaves the
  -- order out of the queue; whatever failures and requeues of any orders are recorded before that
  -- take, as long as each success recorded before it is of a publication stamped before this one.
  pub mark-survives :
      (ops : List QueueOp) (q : Queue)
      → OlderClears generation ops
      → (let (taken, left) =
            take_failed_orderbook_publishes
              (apply_ops ops (mark_orderbook_publish_failed_at id generation q)) in
          IsQueued generation (lookup id taken) × (lookup id left ≡ none))
  unfolding take_failed_orderbook_publishes lookup
  mark-survives ops q c = (apply_ops-IsQueued ops _ c (mark-IsQueued_self q), refl)
