-- ===== src/Bond/Cycle/Steps.antt =====
-- The writes that the payout cycle makes on a row, and the rule by which a relation that each of
-- them keeps is kept by the whole cycle (src/app/bond/payout.rs).
use mostro.Prelude.{
  ℕ, zero, suc, String, ◌≡◌, Bool, true, false, ◌&&◌, Option, none, some, List, arith, inl, inr,
  Bool-cases, is_none, ◌==◌,
}
use mostro.Prelude.Int.{ℤ, pos, ltb_ℤ, ◌+ℤ◌, i64, min_ℤ}
use mostro.Result.{Result, ok, err}
use mostro.Bond.Types.{slashed, forfeited, failed, pending_payout}
use mostro.Bond.Model.{Bond}
use mostro.Bond.Table.{World, M, pure, execute, cas, in_state, Send, find_bond_by_id}
use mostro.Bond.Env.{Env, Order}
use mostro.Bond.Payout.{
  ignore, set_state, set_requested, set_hash, set_attempts, rearm, forfeit_bond, finalize_node_only,
  ask_recipient, ask_for_order, request_payout_invoice, blocked_by, parent_blocks,
  enqueue_completed, after_slash, slash_attempts, PaymentFailureKind, is_indeterminate,
  within_window, on_send_payment_failure,
}
use mostro.Bond.Rows.{
  Rows, Preserves, Rows-refl, Rows-trans, notify-Preserves, if-Preserves, execute-Preserves,
  fetch-Preserves, pure-Preserves, lift-Preserves, >>=-Preserves,
}
use mostro.Bond.Cycle.{start}

-- Closed under doing nothing, under composition, and under each write on a row that awaits its
-- payout; the forfeiture is only made where no invoice is stored.
pub record Rules (R : Bond → Bond → Type 0) : Type 0 where
  pub same : (b : Bond) → R b b
  pub chain : (b c d : Bond) → R b c → R c d → R b d
  pub forfeits :
      (b : Bond)
      → in_state pending_payout b ≡ true
      → is_none b.payout_invoice ≡ true
      → R b (set_state forfeited b)
  pub slashes : (b : Bond) → in_state pending_payout b ≡ true → R b (set_state slashed b)
  pub fails : (b : Bond) → in_state pending_payout b ≡ true → R b (set_state failed b)
  pub asks : (now : ℤ) (b : Bond) → in_state pending_payout b ≡ true → R b (set_requested now b)
  pub hashes :
      (cap : ℤ) (hash : String) (b : Bond)
      → in_state pending_payout b ≡ true
      → R b (set_hash cap hash b)
  pub tries : (n : ℤ) (b : Bond) → in_state pending_payout b ≡ true → R b (set_attempts n b)
  pub rearms : (b : Bond) → in_state pending_payout b ≡ true → R b (rearm b)

both : (p q : Bool) → (p && q) ≡ true → (p ≡ true) × (q ≡ true)
both p q h = ground arith

ruleset program = (
  execute-Preserves, fetch-Preserves, pure-Preserves, lift-Preserves, notify-Preserves,
  >>=-Preserves, if-Preserves,
)

module _ (R : Bond → Bond → Type 0) (rules : Rules R) where
  open rules use {same, chain, forfeits, slashes, fails, asks, hashes, tries, rearms}

  pub start-Preserves : (send : Send) → Preserves R (start send)
  unfolding start
  start-Preserves send = record { rows = λ w. Rows-refl R same w.bonds }

  ignored : {A : Type 0} (m : M A) → Preserves R m → Preserves R (ignore m)
  ignored m h = >>=-Preserves R chain m (λ _. pure tt) h (λ _. pure-Preserves R same tt)

  pub cas-Preserves :
      (id : ℕ) (change : Bond → Bond)
      → ((b : Bond) → in_state pending_payout b ≡ true → R b (change b))
      → Preserves R (execute (cas id pending_payout) change)
  cas-Preserves id change h =
      execute-Preserves R same (cas id pending_payout) change
        (λ b fit. h b (both (b.id == id) (in_state pending_payout b) fit).1)

  pub forfeit-Preserves : (bond : Bond) → Preserves R (forfeit_bond bond)
  unfolding forfeit_bond
  forfeit-Preserves bond =
      >>=-Preserves R chain _ _
        (execute-Preserves R same _ (set_state forfeited) (λ b fit.
          let (mine, bare) = both (cas bond.id pending_payout b) (is_none b.payout_invoice) fit in
          forfeits b (both (b.id == bond.id) (in_state pending_payout b) mine).1 bare))
        (λ _. pure-Preserves R same tt)

  pub finalize-Preserves : (bond : Bond) → Preserves R (finalize_node_only bond)
  unfolding finalize_node_only
  finalize-Preserves bond =
      search (program, same, chain, cas-Preserves bond.id (set_state slashed) slashes)

  pub blocked_by-Preserves : (parent : Option ℕ) → Preserves R (blocked_by parent)
  unfolding find_bond_by_id
  blocked_by-Preserves none = pure-Preserves R same false
  blocked_by-Preserves (some p) =
      >>=-Preserves R chain _ _ (fetch-Preserves R same _)
        (λ found. pure-Preserves R same (parent_blocks found))

  ask_recipient-Preserves :
      (bond : Bond) (now : ℤ) (order : Order) (key : Option String)
      → Preserves R (ask_recipient bond now order key)
  unfolding ask_recipient
  ask_recipient-Preserves bond now order none = pure-Preserves R same tt
  ask_recipient-Preserves bond now order (some key) =
      >>=-Preserves R chain _ _ (lift-Preserves R same _) (λ share.
        >>=-Preserves R chain _ _ (lift-Preserves R same _) (λ slashed_at.
          >>=-Preserves R chain _ _ (lift-Preserves R same _) (λ small.
            >>=-Preserves R chain _ _ (cas-Preserves bond.id (set_requested now) (asks now))
              (λ rows.
                if-Preserves R (rows == 0) _ _ (pure-Preserves R same tt)
                  (notify-Preserves R same _)))))

  ask_for_order-Preserves :
      (env : Env) (bond : Bond) (now : ℤ) (order : Option Order)
      → Preserves R (ask_for_order env bond now order)
  unfolding ask_for_order
  ask_for_order-Preserves env bond now none = pure-Preserves R same tt
  ask_for_order-Preserves env bond now (some order) =
      >>=-Preserves R chain _ _ (lift-Preserves R same _) (λ reason.
        >>=-Preserves R chain _ _ (lift-Preserves R same _)
          (ask_recipient-Preserves bond now order))

  pub request-Preserves :
      (env : Env) (bond : Bond) (window now : ℤ)
      → Preserves R (request_payout_invoice env bond window now)
  unfolding request_payout_invoice
  request-Preserves env bond window now =
      if-Preserves R _ _ _ (pure-Preserves R same tt)
        (>>=-Preserves R chain _ _ (lift-Preserves R same _) (ask_for_order-Preserves env bond now))

  completed-Preserves :
      (env : Env) (bond : Bond) (share : ℤ) → Preserves R (enqueue_completed env bond share)
  unfolding enqueue_completed
  completed-Preserves env bond share = >>=-Preserves R chain _ _ (lift-Preserves R same _) (λ found.
      >>=-Preserves R chain _ _ (lift-Preserves R same _) (λ order.
        >>=-Preserves R chain _ _ (lift-Preserves R same _) (λ reason.
          >>=-Preserves R chain _ _ (lift-Preserves R same _) (λ recipient.
            >>=-Preserves R chain _ _ (lift-Preserves R same _) (λ key.
              >>=-Preserves R chain _ _ (lift-Preserves R same _)
                (λ small. notify-Preserves R same _))))))

  after_slash-Rows :
      (env : Env) (bond : Bond) (share : ℤ) (again : M (Unit {0})) (bs : List Bond)
      (p : Result ℕ × World)
      → Rows R bs p.1.bonds
      → Preserves R again
      → Rows R bs (after_slash env bond share again p).1.bonds
  after_slash-Rows env bond share again bs (ok rows, w) h k = elim (Bool-cases (rows == 1)) [
    | inl one ↦
        rw one (Rows-trans R chain bs w.bonds _ h ((completed-Preserves env bond share).rows w))
    | inr other ↦ rw other h
  ]
  after_slash-Rows env bond share again bs (err _, w) h k =
      Rows-trans R chain bs w.bonds _ h (k.rows w)

  pub slash_attempts-Preserves :
      (left : ℕ) (env : Env) (bond : Bond) (share : ℤ)
      → Preserves R (slash_attempts left env bond share)
  unfolding slash_attempts
  slash_attempts-Preserves zero env bond share = record { rows = λ w. Rows-refl R same w.bonds }
  slash_attempts-Preserves (suc left) env bond share = record {
    rows = λ w.
        after_slash-Rows env bond share (slash_attempts left env bond share) w.bonds
          (execute (cas bond.id pending_payout) (set_state slashed) w)
          ((cas-Preserves bond.id (set_state slashed) slashes).rows w)
          (slash_attempts-Preserves left env bond share);
  }

  pub failure-Preserves :
      (bond : Bond) (retries window : ℤ) (kind : PaymentFailureKind) (now : ℤ)
      → Preserves R (on_send_payment_failure bond retries window kind now)
  unfolding on_send_payment_failure
  failure-Preserves bond retries window kind now =
      >>=-Preserves R chain _ _ (cas-Preserves bond.id _ (tries _)) (λ _.
        if-Preserves R (ltb_ℤ (min_ℤ (i64 (bond.payout_attempts +ℤ pos 1)) retries) retries) _ _
          (pure-Preserves R same tt)
          (if-Preserves R (is_indeterminate kind) _ _ (pure-Preserves R same tt) (
            if-Preserves R (within_window now window bond.slashed_at) _ _
              (ignored _ (cas-Preserves bond.id rearm rearms))
              (ignored _ (cas-Preserves bond.id (set_state failed) fails)))))
