-- ===== src/Bond/Quiet.antt =====
-- The programs that start no Lightning payment, whatever the table holds (src/app/bond/payout.rs).
use mostro.Prelude.{
  String, ℕ, zero, suc, Bool, true, false, ◌≡◌, refl, ◌∙◌, Option, none, some, List, if◌then◌else◌,
  Bool-cases, inl, inr, ◌==◌,
}
use mostro.Prelude.Int.{ℤ, pos, ◌+ℤ◌, i64, min_ℤ, ltb_ℤ}
use mostro.Result.{Result, ok, err}
use mostro.Bond.Types.{pending_payout, slashed}
use mostro.Bond.Model.{Bond}
use mostro.Bond.Env.{Env, Order}
use mostro.Bond.Table.{
  find_bond_by_id, World, M, ◌>>=◌, pure, lift, execute, fetch, notify, Notice, is_faulty, cas,
}
use mostro.Bond.Payout.{
  asked_lately, ignore, enqueue_completed, after_slash, slash_attempts, on_send_payment_failure,
  PaymentFailureKind, is_indeterminate, within_window, set_state, forfeit_bond, finalize_node_only,
  ask_recipient, ask_for_order, request_payout_invoice, blocked_by, parent_blocks,
}

pub record Quiet {A : Type 0} (m : M A) : Type 0 where
  pub sends : (w : World) → (m w).1.sends ≡ w.sends

pub execute-Quiet : (fits : Bond → Bool) (change : Bond → Bond) → Quiet (execute fits change)
unfolding execute
execute-Quiet fits change = record {
  sends = λ w. elim (Bool-cases (is_faulty w.faults)) [
    | inl fault ↦ rw fault refl
    | inr fine ↦ rw fine refl
  ];
}

pub fetch-Quiet : {A : Type 0} (read : List Bond → A) → Quiet (fetch read)
unfolding fetch
fetch-Quiet read = record { sends = λ w. refl }

pub pure-Quiet : {A : Type 0} (a : A) → Quiet (pure a)
unfolding pure
pure-Quiet a = record { sends = λ w. refl }

pub lift-Quiet : {A : Type 0} (r : Result A) → Quiet (lift r)
unfolding lift
lift-Quiet r = record { sends = λ w. refl }

pub notify-Quiet : (n : Notice) → Quiet (notify n)
unfolding notify
notify-Quiet n = record { sends = λ w. refl }

after_bind :
    {A B : Type 0} (w : World) (p : Result A × World) (f : A → M B)
    → p.1.sends ≡ w.sends
    → ((a : A) → Quiet (f a))
    → (let (r, w') = p in
        (elim r as (λ _. Result B × World) [ ok a ↦ f a w' | err e ↦ (err e, w') ]).1.sends)
      ≡ w.sends
after_bind w (ok a, w') f h k = (k a).sends w' ∙ h
after_bind w (err e, w') f h k = h

pub >>=-Quiet :
    {A B : Type 0} (m : M A) (f : A → M B) → Quiet m → ((a : A) → Quiet (f a)) → Quiet (m >>= f)
unfolding ◌>>=◌
>>=-Quiet m f h k = record { sends = λ w. after_bind w (m w) f (h.sends w) k }

pub if-Quiet :
    {A : Type 0} (test : Bool) (m k : M A) → Quiet m → Quiet k → Quiet (if test then m else k)
if-Quiet true m k hm hk = hm
if-Quiet false m k hm hk = hk

ignored : {A : Type 0} (m : M A) → Quiet m → Quiet (ignore m)
ignored m h = >>=-Quiet m _ h (λ _. pure-Quiet tt)

completed-Quiet : (env : Env) (bond : Bond) (share : ℤ) → Quiet (enqueue_completed env bond share)
unfolding enqueue_completed
completed-Quiet env bond share = >>=-Quiet _ _ (lift-Quiet _) (λ found.
    >>=-Quiet _ _ (lift-Quiet _) (λ order. >>=-Quiet _ _ (lift-Quiet _) (λ reason.
      >>=-Quiet _ _ (lift-Quiet _) (λ recipient.
        >>=-Quiet _ _ (lift-Quiet _)
          (λ key. >>=-Quiet _ _ (lift-Quiet _) (λ small. notify-Quiet _))))))

after_slash-Quiet :
    (env : Env) (bond : Bond) (share : ℤ) (again : M (Unit {0})) (w : World) (p : Result ℕ × World)
    → p.1.sends ≡ w.sends
    → Quiet again
    → (after_slash env bond share again p).1.sends ≡ w.sends
after_slash-Quiet env bond share again w (ok rows, w') h k = elim (Bool-cases (rows == 1)) [
  | inl one ↦ rw one ((completed-Quiet env bond share).sends w' ∙ h)
  | inr other ↦ rw other h
]
after_slash-Quiet env bond share again w (err _, w') h k = k.sends w' ∙ h

pub slash_attempts-Quiet :
    (left : ℕ) (env : Env) (bond : Bond) (share : ℤ) → Quiet (slash_attempts left env bond share)
unfolding slash_attempts
slash_attempts-Quiet zero env bond share = record { sends = λ w. refl }
slash_attempts-Quiet (suc left) env bond share = record {
  sends = λ w.
      after_slash-Quiet env bond share (slash_attempts left env bond share) w
        (execute (cas bond.id pending_payout) (set_state slashed) w) ((execute-Quiet _ _).sends w)
        (slash_attempts-Quiet left env bond share);
}

pub failure-Quiet :
    (bond : Bond) (retries window : ℤ) (kind : PaymentFailureKind) (now : ℤ)
    → Quiet (on_send_payment_failure bond retries window kind now)
unfolding on_send_payment_failure
failure-Quiet bond retries window kind now = >>=-Quiet _ _ (execute-Quiet _ _) (λ _.
    if-Quiet (ltb_ℤ (min_ℤ (i64 (bond.payout_attempts +ℤ pos 1)) retries) retries) _ _
      (pure-Quiet tt)
      (if-Quiet (is_indeterminate kind) _ _ (pure-Quiet tt) (
        if-Quiet (within_window now window bond.slashed_at) _ _ (ignored _ (execute-Quiet _ _))
          (ignored _ (execute-Quiet _ _)))))

pub forfeit-Quiet : (bond : Bond) → Quiet (forfeit_bond bond)
unfolding forfeit_bond
forfeit-Quiet bond = ignored _ (execute-Quiet _ _)

pub finalize-Quiet : (bond : Bond) → Quiet (finalize_node_only bond)
unfolding finalize_node_only
finalize-Quiet bond = ignored _ (execute-Quiet _ _)

pub blocked_by-Quiet : (parent : Option ℕ) → Quiet (blocked_by parent)
unfolding find_bond_by_id
blocked_by-Quiet none = pure-Quiet false
blocked_by-Quiet (some p) =
    >>=-Quiet _ _ (fetch-Quiet _) (λ found. pure-Quiet (parent_blocks found))

ask_recipient-Quiet :
    (bond : Bond) (now : ℤ) (order : Order) (key : Option String)
    → Quiet (ask_recipient bond now order key)
unfolding ask_recipient
ask_recipient-Quiet bond now order none = pure-Quiet tt
ask_recipient-Quiet bond now order (some key) = >>=-Quiet _ _ (lift-Quiet _) (λ share.
    >>=-Quiet _ _ (lift-Quiet _) (λ slashed_at. >>=-Quiet _ _ (lift-Quiet _) (λ small.
      >>=-Quiet _ _ (execute-Quiet _ _)
        (λ rows. if-Quiet (rows == 0) _ _ (pure-Quiet tt) (notify-Quiet _)))))

ask_for_order-Quiet :
    (env : Env) (bond : Bond) (now : ℤ) (order : Option Order)
    → Quiet (ask_for_order env bond now order)
unfolding ask_for_order
ask_for_order-Quiet env bond now none = pure-Quiet tt
ask_for_order-Quiet env bond now (some order) =
    >>=-Quiet _ _ (lift-Quiet _)
      (λ reason. >>=-Quiet _ _ (lift-Quiet _) (ask_recipient-Quiet bond now order))

pub request-Quiet :
    (env : Env) (bond : Bond) (window now : ℤ) → Quiet (request_payout_invoice env bond window now)
unfolding request_payout_invoice
request-Quiet env bond window now =
    if-Quiet (asked_lately now window bond.last_invoice_request_at) _ _ (pure-Quiet tt)
      (>>=-Quiet _ _ (lift-Quiet _) (ask_for_order-Quiet env bond now))
