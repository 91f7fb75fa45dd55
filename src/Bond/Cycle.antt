-- ===== src/Bond/Cycle.antt =====
-- One round of the payout cycle over the bonds that await a payout (src/app/bond/payout.rs).
pub mod Kept
pub mod Lifecycle
pub mod Payments
pub mod Pays
pub mod Persisted
pub mod Slashed
pub mod Steps
use text.Mathlib.Text.{◌==◌ as str_eq}
use mostro.Prelude.{
  ℕ, String, Bool, true, false, ◌&&◌, Option, none, some, List, [], ◌∷◌, if◌then◌else◌, is_none,
  ◌==◌,
}
use mostro.Prelude.Int.{ℤ, pos, ◌-ℤ◌, leb_ℤ, i64}
use mostro.Result.{Result, ok, err}
use mostro.Bond.Types.{pending_payout}
use mostro.Bond.Model.{Bond}
use mostro.Bond.Table.{World, M, ◌>>=◌, ◌>>◌, pure, lift, execute, cas, Send, find_bonds_by_state}
use mostro.Bond.Env.{Env, claim_window, invoice_window, max_retries}
use mostro.Bond.Recipient.{counterparty_share_sats}
use mostro.Bond.Payout.{
  or_err, set_hash, forfeit_bond, finalize_node_only, child_payout_blocked_by_locked_parent,
  request_payout_invoice, PaymentStatus, unknown, in_flight, succeeded, failed_payment, SendOutcome,
  SendVerdict, settled, failure, terminal, drain, classify_send_verdict, slash_after_success,
  on_send_payment_failure,
}

-- What the node answers in one `pay_counterparty`: the lookup of the persisted hash, the updates of
-- the payment, how the send ended, and the clock on a failure.
pub record NodeAnswers : Type 0 where
  pub lookup_status : Result (Option PaymentStatus)
  pub updates : List (Option PaymentStatus)
  pub outcome : SendOutcome
  pub failed_at : ℤ

-- `send_payment` is called.
unfoldable pub start : Send → M (Unit {0})
start send w = (ok tt, record w { sends = send ∷ w.sends })

unfoldable pub on_verdict : Env → Bond → ℤ → ℤ → ℤ → ℤ → SendVerdict → M (Unit {0})
on_verdict env bond share retries window now settled = slash_after_success env bond share
on_verdict env bond share retries window now (failure kind) =
    on_send_payment_failure bond retries window kind now

-- After the CAS that persists the hash, on the number of its rows.
abbrev pub start_payment : Env → NodeAnswers → Bond → String → ℤ → ℤ → ℤ → ℕ → M (Unit {0})
start_payment env node bond invoice share retries window rows =
    if rows == 0
    then pure tt
    else (start (record { invoice = invoice; amount = share })
        >> on_verdict env bond share retries window node.failed_at
            (classify_send_verdict node.outcome (drain node.updates)))

-- `pay_counterparty` from the CAS that persists the hash on.
unfoldable pub send_payout : Env → NodeAnswers → Bond → String → String → ℤ → ℤ → ℤ → M (Unit {0})
send_payout env node bond invoice hash share retries window =
    execute (cas bond.id pending_payout) (set_hash (env.routing_fee_cap share) hash)
    >>= start_payment env node bond invoice share retries window

-- The persisted hash is that of this invoice.
abbrev pub is_persisted : String → Option String → Bool
is_persisted hash none = false
is_persisted hash (some persisted) = str_eq persisted hash

-- The reconciliation with the node; `fresh` is the send that it falls through to.
unfoldable pub reconcile :
    Env → Bond → ℤ → ℤ → ℤ → ℤ → M (Unit {0}) → Result (Option PaymentStatus) → M (Unit {0})
reconcile env bond share retries window now fresh (err _) = fresh
reconcile env bond share retries window now fresh (ok none) = fresh
reconcile env bond share retries window now fresh (ok (some unknown)) = fresh
reconcile env bond share retries window now fresh (ok (some in_flight)) = pure tt
reconcile env bond share retries window now fresh (ok (some succeeded)) =
    slash_after_success env bond share
reconcile env bond share retries window now fresh (ok (some failed_payment)) =
    on_send_payment_failure bond retries window terminal now

-- From the decoded invoice on; `none` is an invoice that does not decode.
unfoldable pub pay_decoded :
    Env → NodeAnswers → Bond → String → ℤ → ℤ → ℤ → Option String → M (Unit {0})
pay_decoded env node bond invoice share retries window none =
    on_send_payment_failure bond retries window terminal node.failed_at
pay_decoded env node bond invoice share retries window (some hash) =
    let fresh = send_payout env node bond invoice hash share retries window in
    if is_persisted hash bond.payout_payment_hash
    then reconcile env bond share retries window node.failed_at fresh node.lookup_status
    else fresh

unfoldable pub pay_counterparty : Env → NodeAnswers → Bond → String → ℤ → ℤ → M (Unit {0})
pay_counterparty env node bond invoice retries window = do
  share ← lift (counterparty_share_sats bond)
  pay_decoded env node bond invoice share retries window (env.payment_hash invoice)

-- The clock's readings in `process_one_bond` and in `request_payout_invoice`.
pub record Clock : Type 0 where
  pub started : ℤ
  pub asked : ℤ

unfoldable pub request_or_pay : Env → Clock → NodeAnswers → Bond → Option String → M (Unit {0})
request_or_pay env clock node bond none =
    request_payout_invoice env bond (invoice_window env.config) clock.asked
request_or_pay env clock node bond (some invoice) =
    pay_counterparty env node bond invoice (max_retries env.config) (claim_window env.config)

-- From the forfeit test on.
unfoldable pub forfeit_or_pay : Env → Clock → NodeAnswers → Bond → ℤ → M (Unit {0})
forfeit_or_pay env clock node bond slashed_at =
    if is_none bond.payout_invoice
      && leb_ℤ (claim_window env.config) (i64 (clock.started -ℤ slashed_at))
    then forfeit_bond bond
    else (lift (counterparty_share_sats bond) >>= λ share.
        if leb_ℤ share (pos 0)
        then finalize_node_only bond
        else request_or_pay env clock node bond bond.payout_invoice)

unfoldable pub process_one_bond : Env → Clock → NodeAnswers → Bond → M (Unit {0})
process_one_bond env clock node bond = do
  blocked ← child_payout_blocked_by_locked_parent bond
  if blocked
      then pure tt
      else (lift (or_err bond.slashed_at) >>= forfeit_or_pay env clock node bond)

-- The loop of the cycle: an error of one bond is logged, and the next is taken.
unfoldable pub process_bonds : Env → (ℕ → Clock) → (ℕ → NodeAnswers) → List Bond → World → World
process_bonds env clock node [] w = w
process_bonds env clock node (b ∷ bs) w =
    process_bonds env clock node bs (process_one_bond env (clock b.id) (node b.id) b w).1

abbrev pub process_found :
    Env → (ℕ → Clock) → (ℕ → NodeAnswers) → Result (List Bond) × World → World
process_found env clock node (err _, w) = w
process_found env clock node (ok bonds, w) = process_bonds env clock node bonds w

unfoldable pub run_bond_payout_cycle : Env → (ℕ → Clock) → (ℕ → NodeAnswers) → World → World
run_bond_payout_cycle env clock node w =
    process_found env clock node (find_bonds_by_state pending_payout w)
