-- ===== src/Orderbook/Attempts.antt =====
-- How the reconciler's pass uses up the attempts of a queued order (src/scheduler.rs,
-- `reconcile_orderbook_once`).
use mostro.Prelude.{
  if◌then◌else◌, ℕ, ◌+◌, ◌≤◌, ◌<◌, ◌≡◌, refl, ◌∙◌, ◌≢◌, Option, none, some, [], ◌∷◌, arith, inl,
  inr, false, Bool-cases, leb, Option-cases,
}
use mostro.Prelude.Equality.{nat_eq, beq_refl, beq_ne}
use mostro.Prelude.Map.{lookup, lookup-insert, lookup-remove, Distinct}
use mostro.Result.{Result, ok, err}
use mostro.Orderbook.Queue.{
  Queue, max_orderbook_republish_attempts, mark_orderbook_publish_failed_at,
  requeue_orderbook_publish_failure, clear_orderbook_publish_failure_up_to,
  take_failed_orderbook_publishes,
}
use mostro.Orderbook.Publish.{
  State, StampPolicy, if_quiescent, Answers, stamp_for, record_send, delivered, rejected,
  send_error, no_client, Sent, publish_event, update_order_event_stamped, orderbook_quiescent_secs,
  Reload, reloaded, bad_status, missing, reload_error, after_republish, reconcile_entry,
  reconcile_entries, reconcile_orderbook_once,
}

module _ (j id : ℕ) (other : j ≢ id) where
  mark-other : (g : ℕ) (q : Queue) → lookup j (mark_orderbook_publish_failed_at id g q) ≡ lookup j q
  unfolding mark_orderbook_publish_failed_at
  mark-other g q = rw (lookup-insert, beq_ne j id other)

  requeue-other :
      (g a : ℕ) (q : Queue) → lookup j (requeue_orderbook_publish_failure id g a q) ≡ lookup j q
  unfolding requeue_orderbook_publish_failure
  requeue-other g a q = rw (lookup-insert, beq_ne j id other)

  clear-other :
      (g : ℕ) (q : Queue) → lookup j (clear_orderbook_publish_failure_up_to id g q) ≡ lookup j q
  unfolding clear_orderbook_publish_failure_up_to
  clear-other g q = ground (arith, lookup-remove j id q, beq_ne j id other)

  send-other : (sent : Sent) (g : ℕ) (q : Queue) → lookup j (record_send sent id g q) ≡ lookup j q
  unfolding record_send
  send-other delivered g q = clear-other g q
  send-other rejected g q = mark-other g q
  send-other send_error g q = mark-other g q
  send-other no_client g q = mark-other g q

  publish-other :
      (p : StampPolicy) (a : Answers) (s : State)
      → lookup j (publish_event p id a s).1.queue ≡ lookup j s.queue
  unfolding publish_event
  publish-other p a s = grind (arith, send-other)

  update-other :
      (p : StampPolicy) (o : ℕ) (a : Answers) (s : State)
      → lookup j (update_order_event_stamped (λ (o : ℕ). o) (λ _ o. o) p id o a s).1.queue
        ≡ lookup j s.queue
  unfolding update_order_event_stamped
  update-other p o a s = ground (arith, publish-other p a s)

  entry-other :
      (reload : Reload) (g a : ℕ) (s : State)
      → lookup j (reconcile_entry reload id g a s).queue ≡ lookup j s.queue
  unfolding reconcile_entry after_republish
  entry-other (reloaded answers) g a s =
      let s' = record s { queue = requeue_orderbook_publish_failure id g a s.queue } in
      let result =
        update_order_event_stamped (λ (o : ℕ). o) (λ _ o. o) (if_quiescent orderbook_quiescent_secs)
          id id answers s' in
      ground (
        arith,
        requeue-other g a s.queue,
        update-other (if_quiescent orderbook_quiescent_secs) id answers s',
        mark-other g result.1.queue,
      )
  entry-other bad_status g a s = ground arith
  entry-other missing g a s = ground arith
  entry-other reload_error g a s = ground (arith, requeue-other g a s.queue)

-- Between no and one attempt was used up, and the failure is no older.
abbrev pub Within : ℕ → ℕ → Option (ℕ × ℕ) → Type 0
Within g a none = Unit
Within g a (some (failed_at, attempts)) = (g ≤ failed_at) × (a ≤ attempts) × (attempts ≤ a + 1)

module _ (id g a : ℕ) (few : a < max_orderbook_republish_attempts) where
  mark_self :
      (g' : ℕ) (q : Queue)
      → lookup id q ≡ some (g, a)
      → Within g a (lookup id (mark_orderbook_publish_failed_at id g' q))
  unfolding mark_orderbook_publish_failed_at
  mark_self g' q e = rw (lookup-insert, beq_refl id, e) (ground arith)

  clear_self :
      (g' : ℕ) (q : Queue)
      → lookup id q ≡ some (g, a)
      → Within g a (lookup id (clear_orderbook_publish_failure_up_to id g' q))
  unfolding clear_orderbook_publish_failure_up_to
  clear_self g' q e = ground (arith, lookup-remove id id q, beq_refl id)

  send_self :
      (sent : Sent) (g' : ℕ) (q : Queue)
      → lookup id q ≡ some (g, a)
      → Within g a (lookup id (record_send sent id g' q))
  unfolding record_send
  send_self delivered g' q e = clear_self g' q e
  send_self rejected g' q e = mark_self g' q e
  send_self send_error g' q e = mark_self g' q e
  send_self no_client g' q e = mark_self g' q e

  -- An error leaves the entry as it was; an answer uses up one attempt at most.
  abbrev Tried : {A : Type 0} → Result A × State → Type 0
  Tried (ok _, s) = Within g a (lookup id s.queue)
  Tried (err _, s) = lookup id s.queue ≡ some (g, a)

  publish_self :
      (p : StampPolicy) (answers : Answers) (s : State)
      → lookup id s.queue ≡ some (g, a)
      → Tried (publish_event p id answers s)
  unfolding publish_event
  publish_self p answers s e = elim (Option-cases (stamp_for p id answers.now s.registry).0) [
    | inl skipped ↦ ground arith
    | inr (stamped, q) ↦ ground (arith, send_self answers.sent stamped.generation s.queue e)
  ]

  update_self :
      (p : StampPolicy) (answers : Answers) (s : State)
      → lookup id s.queue ≡ some (g, a)
      → Tried (update_order_event_stamped (λ (o : ℕ). o) (λ _ o. o) p id id answers s)
  unfolding update_order_event_stamped
  update_self p answers s e = ground (arith, publish_self p answers s e)

  requeue_self :
      (q : Queue)
      → lookup id q ≡ none
      → lookup id (requeue_orderbook_publish_failure id g a q) ≡ some (g, a)
  unfolding requeue_orderbook_publish_failure
  requeue_self q e = rw (lookup-insert, beq_refl id, e) (ground arith)

  entry_self :
      (reload : Reload) (s : State)
      → lookup id s.queue ≡ none
      → Within g a (lookup id (reconcile_entry reload id g a s).queue)
  unfolding reconcile_entry after_republish
  entry_self (reloaded answers) s e =
      let s' = record s { queue = requeue_orderbook_publish_failure id g a s.queue } in
      let result =
        update_order_event_stamped (λ (o : ℕ). o) (λ _ o. o) (if_quiescent orderbook_quiescent_secs)
          id id answers s' in
      ground (
        arith,
        update_self (if_quiescent orderbook_quiescent_secs) answers s' (requeue_self s.queue e),
        mark_self g result.1.queue,
      )
  entry_self bad_status s e = ground arith
  entry_self missing s e = ground arith
  entry_self reload_error s e = ground (arith, requeue_self s.queue e)

-- What the pass may leave of an entry that it found in the queue.
abbrev pub Spent : Option (ℕ × ℕ) → Option (ℕ × ℕ) → Type 0
Spent none after = after ≡ none
Spent (some (g, a)) after =
    if leb max_orderbook_republish_attempts a then after ≡ none else Within g a after

entry-Spent :
    (id g a : ℕ) (reload : Reload) (s : State)
    → lookup id s.queue ≡ none
    → Spent (some (g, a)) (lookup id (reconcile_entry reload id g a s).queue)
entry-Spent id g a reload s e = elim (Bool-cases (leb max_orderbook_republish_attempts a)) [
  | inl over ↦ unfold reconcile_entry in rw (over, e) refl
  | inr few ↦ rw few (entry_self id g a (ground arith) reload s e)
]

ne_of_beq : (j k : ℕ) → nat_eq.beq j k ≡ false → j ≢ k
ne_of_beq j k h = ground arith

entries-absent :
    (reload : ℕ → Reload) (id : ℕ) (entries : Queue) (s : State)
    → lookup id entries ≡ none
    → lookup id (reconcile_entries reload entries s).queue ≡ lookup id s.queue
unfolding reconcile_entries lookup
entries-absent reload id [] s e = refl
entries-absent reload id ((key, (g, a)) ∷ rest) s e = elim (Bool-cases (nat_eq.beq id key)) [
  | inl same ↦ cc (rw same at e)
  | inr other ↦
      entries-absent reload id rest (reconcile_entry (reload key) key g a s) (rw other at e)
      ∙ entry-other id key (ne_of_beq id key other) (reload key) g a s
]

entries-Spent :
    (reload : ℕ → Reload) (id : ℕ) (entries : Queue) (s : State)
    → Distinct entries
    → lookup id s.queue ≡ none
    → Spent (lookup id entries) (lookup id (reconcile_entries reload entries s).queue)
unfolding reconcile_entries lookup
entries-Spent reload id [] s d e = e
entries-Spent reload id ((key, (g, a)) ∷ rest) s d e = elim (Bool-cases (nat_eq.beq id key)) [
  | inl same ↦
      let q : id ≡ key = (nat_eq.beq_iff id key).0 same in
      rw
        (
          same,
          entries-absent reload id rest (reconcile_entry (reload key) key g a s) (rw q d.0),
          ← q,
        )
        (entry-Spent id g a (reload id) s e)
  | inr other ↦ rw other (
      entries-Spent reload id rest (reconcile_entry (reload key) key g a s) d.1
        (entry-other id key (ne_of_beq id key other) (reload key) g a s ∙ e))
]

-- One pass over a queue that lists no order twice, for every order and whatever the database, the
-- tags, the signer and the relays answer: an order that was not queued is still not queued; one
-- with five attempts or more is dropped; any other is dropped, or stays with a generation that is
-- no older and with its attempts the same or raised by exactly one.
pub reconcile_orderbook_once-Spent :
    (reload : ℕ → Reload) (s : State) (id : ℕ)
    → Distinct s.queue
    → Spent (lookup id s.queue) (lookup id (reconcile_orderbook_once reload s).queue)
unfolding reconcile_orderbook_once take_failed_orderbook_publishes
reconcile_orderbook_once-Spent reload s id d =
    entries-Spent reload id s.queue (record s { queue = [] }) d (unfold lookup in refl)
