-- ===== src/Bond/Cycle/Payments.antt =====
-- The Lightning payments that one call of the payout starts (src/app/bond/payout.rs).
use mostro.Prelude.{
  String, ◌≡◌, refl, ◌∙◌, sym, Option, none, some, Bool, true, false, inl, inr, ◌⊎◌, is_none, ◌==◌,
  ◌&&◌,
}
use mostro.Prelude.Int.{ℤ, pos, leb_ℤ, i64, ◌-ℤ◌}
use mostro.Result.{Result, ok, err}
use mostro.Bond.Model.{Bond}
use mostro.Bond.Table.{World, M, Send}
use mostro.Bond.Env.{Env, claim_window}
use mostro.Bond.Recipient.{counterparty_share_sats}
use mostro.Bond.Quiet.{
  Quiet, execute-Quiet, pure-Quiet, lift-Quiet, slash_attempts-Quiet, failure-Quiet, forfeit-Quiet,
  finalize-Quiet, blocked_by-Quiet, request-Quiet,
}
use mostro.Bond.Payout.{
  SendVerdict, settled, failure, terminal, PaymentStatus, unknown, in_flight, succeeded,
  failed_payment, child_payout_blocked_by_locked_parent, slash_after_success,
}
use mostro.Bond.Cycle.{
  Clock, NodeAnswers, on_verdict, send_payout, is_persisted, reconcile, pay_decoded,
  pay_counterparty, request_or_pay, forfeit_or_pay, process_one_bond,
}
use mostro.Bond.Cycle.Pays.{Paid, Pays, of_Quiet, Quiet-then, lift_then, start_then, branch}

-- The node does not know what became of the persisted payment.
abbrev pub is_undecided : Result (Option PaymentStatus) → Bool
is_undecided (err _) = true
is_undecided (ok none) = true
is_undecided (ok (some unknown)) = true
is_undecided (ok (some in_flight)) = false
is_undecided (ok (some succeeded)) = false
is_undecided (ok (some failed_payment)) = false

-- A payment that the bond owes: its stored invoice, for the counterparty's positive share, when no
-- earlier payment of that invoice is under way or decided.
pub record Due (env : Env) (node : NodeAnswers) (bond : Bond) (send : Send) : Type 0 where
  pub stored : bond.payout_invoice ≡ some send.invoice
  pub share : counterparty_share_sats bond ≡ ok send.amount
  pub positive : leb_ℤ send.amount (pos 0) ≡ false
  pub hash : String
  pub hashed : env.payment_hash send.invoice ≡ some hash
  pub clear :
      (is_persisted hash bond.payout_payment_hash ≡ false)
      ⊎ (is_undecided node.lookup_status ≡ true)

verdict-Quiet :
    (env : Env) (bond : Bond) (share retries window now : ℤ) (v : SendVerdict)
    → Quiet (on_verdict env bond share retries window now v)
unfolding on_verdict slash_after_success
verdict-Quiet env bond share retries window now settled = slash_attempts-Quiet _ env bond share
verdict-Quiet env bond share retries window now (failure kind) =
    failure-Quiet bond retries window kind now

module _ (env : Env) (node : NodeAnswers) (bond : Bond) where
  due :
      (invoice hash : String) (share : ℤ)
      → bond.payout_invoice ≡ some invoice
      → counterparty_share_sats bond ≡ ok share
      → leb_ℤ share (pos 0) ≡ false
      → env.payment_hash invoice ≡ some hash
      → (is_persisted hash bond.payout_payment_hash ≡ false)
        ⊎ (is_undecided node.lookup_status ≡ true)
      → Due env node bond (record { invoice = invoice; amount = share })
  due invoice hash share stored owed positive hashed clear = record {
    stored = stored;
    share = owed;
    positive = positive;
    hash = hash;
    hashed = hashed;
    clear = clear;
  }

module _ (env : Env) (node : NodeAnswers) (bond : Bond) (retries window : ℤ) where
  send-Pays :
      (invoice hash : String) (share : ℤ)
      → Due env node bond (record { invoice = invoice; amount = share })
      → Pays (Due env node bond) (send_payout env node bond invoice hash share retries window)
  unfolding send_payout
  send-Pays invoice hash share due =
      let P = Due env node bond in
      Quiet-then P _ _ (execute-Quiet _ _) (λ rows.
        branch P (rows == 0) _ _ (λ _. of_Quiet P _ (pure-Quiet tt))
          (λ _.
            start_then P _ _ due (verdict-Quiet env bond share retries window node.failed_at _)))

  reconcile-Pays :
      (share now : ℤ) (fresh : M (Unit {0})) (status : Result (Option PaymentStatus))
      → (is_undecided status ≡ true → Pays (Due env node bond) fresh)
      → Pays (Due env node bond) (reconcile env bond share retries window now fresh status)
  unfolding reconcile slash_after_success
  reconcile-Pays share now fresh (err _) h = h refl
  reconcile-Pays share now fresh (ok none) h = h refl
  reconcile-Pays share now fresh (ok (some unknown)) h = h refl
  reconcile-Pays share now fresh (ok (some in_flight)) h = of_Quiet _ _ (pure-Quiet tt)
  reconcile-Pays share now fresh (ok (some succeeded)) h =
      of_Quiet _ _ (slash_attempts-Quiet _ env bond share)
  reconcile-Pays share now fresh (ok (some failed_payment)) h =
      of_Quiet _ _ (failure-Quiet bond retries window terminal now)

  pay_decoded-Pays :
      (invoice : String) (share : ℤ) (hash : Option String)
      → bond.payout_invoice ≡ some invoice
      → counterparty_share_sats bond ≡ ok share
      → leb_ℤ share (pos 0) ≡ false
      → env.payment_hash invoice ≡ hash
      → Pays (Due env node bond) (pay_decoded env node bond invoice share retries window hash)
  unfolding pay_decoded
  pay_decoded-Pays invoice share none stored owed positive hashed =
      of_Quiet _ _ (failure-Quiet bond retries window terminal node.failed_at)
  pay_decoded-Pays invoice share (some hash) stored owed positive hashed =
      let fresh =
        λ (clear : (is_persisted hash bond.payout_payment_hash ≡ false)
            ⊎ (is_undecided node.lookup_status ≡ true)).
          send-Pays invoice hash share
            (due env node bond invoice hash share stored owed positive hashed clear) in
      branch _ (is_persisted hash bond.payout_payment_hash) _ _
        (λ _. reconcile-Pays share node.failed_at _ node.lookup_status (λ u. fresh (inr u)))
        (λ stale. fresh (inl stale))

ok_injective : {A : Type 0} (a b : A) → ok a ≡ ok b → a ≡ b
ok_injective a b h = cc

request_or_pay-Pays :
    (env : Env) (clock : Clock) (node : NodeAnswers) (bond : Bond) (share : ℤ)
    (invoice : Option String)
    → bond.payout_invoice ≡ invoice
    → counterparty_share_sats bond ≡ ok share
    → leb_ℤ share (pos 0) ≡ false
    → Pays (Due env node bond) (request_or_pay env clock node bond invoice)
unfolding request_or_pay pay_counterparty
request_or_pay-Pays env clock node bond share none stored owed positive =
    of_Quiet _ _ (request-Quiet env bond _ clock.asked)
request_or_pay-Pays env clock node bond share (some invoice) stored owed positive =
    lift_then _ _ _ (λ share' owed'.
      pay_decoded-Pays env node bond _ _ invoice share' _ stored owed'
        (rw (ok_injective share' share (sym owed' ∙ owed)) positive) refl)

-- One call of the payout for a bond starts no payment, or exactly one: of the invoice that the bond
-- stores, for the counterparty's share, which is positive; and then the payment hash that the
-- bond carries is not this invoice's, or the node's lookup of it failed or found nothing known, so
-- that a payment that is in flight, done or failed for good is not started again.
pub process_one_bond-Paid :
    (env : Env) (clock : Clock) (node : NodeAnswers) (bond : Bond) (w : World)
    → Paid (Due env node bond) w.sends (process_one_bond env clock node bond w).1.sends
unfolding process_one_bond forfeit_or_pay child_payout_blocked_by_locked_parent
process_one_bond-Paid env clock node bond w =
    let P = Due env node bond in
    (Quiet-then P _ _ (blocked_by-Quiet bond.parent_bond_id) (λ blocked.
        branch P blocked _ _ (λ _. of_Quiet P _ (pure-Quiet tt))
          (λ _. Quiet-then P _ _ (lift-Quiet _) (λ slashed_at.
            branch P
              (is_none bond.payout_invoice
                && leb_ℤ (claim_window env.config) (i64 (clock.started -ℤ slashed_at)))
              _ _ (λ _. of_Quiet P _ (forfeit-Quiet bond))
              (λ _. lift_then P _ _ (λ share owed.
                branch P (leb_ℤ share (pos 0)) _ _ (λ _. of_Quiet P _ (finalize-Quiet bond))
                  (λ positive.
                    request_or_pay-Pays env clock node bond share _ refl owed positive))))))).pays
      w
