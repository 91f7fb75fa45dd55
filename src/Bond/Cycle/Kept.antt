-- ===== src/Bond/Cycle/Kept.antt =====
-- One round of the payout cycle makes the writes of its steps alone (src/app/bond/payout.rs).
use mostro.Prelude.{ℕ, String, Option, none, some, List, [], ◌∷◌, ◌==◌}
use mostro.Prelude.Int.{ℤ}
use mostro.Result.{Result, ok, err}
use mostro.Bond.Types.{pending_payout}
use mostro.Bond.Model.{Bond}
use mostro.Bond.Table.{World, M, find_bonds_by_state}
use mostro.Bond.Env.{Env}
use mostro.Bond.Payout.{
  child_payout_blocked_by_locked_parent, terminal, slash_after_success, SendVerdict, settled,
  failure, PaymentStatus, unknown, in_flight, succeeded, failed_payment,
}
use mostro.Bond.Rows.{
  Rows, Preserves, Rows-refl, Rows-trans, if-Preserves, fetch-Preserves, pure-Preserves,
  lift-Preserves, >>=-Preserves,
}
use mostro.Bond.Cycle.{
  NodeAnswers, Clock, start, on_verdict, pay_decoded, request_or_pay, forfeit_or_pay, send_payout,
  reconcile, pay_counterparty, process_one_bond, process_bonds, process_found,
  run_bond_payout_cycle,
}
use mostro.Bond.Cycle.Steps.{
  Rules, cas-Preserves, forfeit-Preserves, finalize-Preserves, blocked_by-Preserves,
  request-Preserves, slash_attempts-Preserves, failure-Preserves, start-Preserves,
}

module _ (R : Bond → Bond → Type 0) (rules : Rules R) where
  open rules use {same, chain, hashes}

  verdict-Preserves :
      (env : Env) (bond : Bond) (share retries window now : ℤ) (v : SendVerdict)
      → Preserves R (on_verdict env bond share retries window now v)
  unfolding on_verdict slash_after_success
  verdict-Preserves env bond share retries window now settled =
      slash_attempts-Preserves R rules _ env bond share
  verdict-Preserves env bond share retries window now (failure kind) =
      failure-Preserves R rules bond retries window kind now

  send-Preserves :
      (env : Env) (node : NodeAnswers) (bond : Bond) (invoice hash : String)
      (share retries window : ℤ)
      → Preserves R (send_payout env node bond invoice hash share retries window)
  unfolding send_payout
  send-Preserves env node bond invoice hash share retries window =
      >>=-Preserves R chain _ _ (cas-Preserves R rules bond.id _ (hashes _ hash)) (λ rows.
        if-Preserves R (rows == 0) _ _ (pure-Preserves R same tt) (
          >>=-Preserves R chain (start _) _ (start-Preserves R rules _)
            (λ _. verdict-Preserves env bond share retries window node.failed_at _)))

  reconcile-Preserves :
      (env : Env) (bond : Bond) (share retries window now : ℤ) (fresh : M (Unit {0}))
      (status : Result (Option PaymentStatus))
      → Preserves R fresh
      → Preserves R (reconcile env bond share retries window now fresh status)
  unfolding reconcile slash_after_success
  reconcile-Preserves env bond share retries window now fresh (err _) h = h
  reconcile-Preserves env bond share retries window now fresh (ok none) h = h
  reconcile-Preserves env bond share retries window now fresh (ok (some unknown)) h = h
  reconcile-Preserves env bond share retries window now fresh (ok (some in_flight)) h =
      pure-Preserves R same tt
  reconcile-Preserves env bond share retries window now fresh (ok (some succeeded)) h =
      slash_attempts-Preserves R rules _ env bond share
  reconcile-Preserves env bond share retries window now fresh (ok (some failed_payment)) h =
      failure-Preserves R rules bond retries window terminal now

  pay_decoded-Preserves :
      (env : Env) (node : NodeAnswers) (bond : Bond) (invoice : String) (share retries window : ℤ)
      (hash : Option String)
      → Preserves R (pay_decoded env node bond invoice share retries window hash)
  unfolding pay_decoded
  pay_decoded-Preserves env node bond invoice share retries window none =
      failure-Preserves R rules bond retries window terminal node.failed_at
  pay_decoded-Preserves env node bond invoice share retries window (some hash) =
      let fresh = send-Preserves env node bond invoice hash share retries window in
      if-Preserves R _ _ _
        (reconcile-Preserves env bond share retries window node.failed_at _ node.lookup_status
          fresh)
        fresh

  request_or_pay-Preserves :
      (env : Env) (clock : Clock) (node : NodeAnswers) (bond : Bond) (invoice : Option String)
      → Preserves R (request_or_pay env clock node bond invoice)
  unfolding request_or_pay pay_counterparty
  request_or_pay-Preserves env clock node bond none =
      request-Preserves R rules env bond _ clock.asked
  request_or_pay-Preserves env clock node bond (some invoice) =
      >>=-Preserves R chain _ _ (lift-Preserves R same _)
        (λ share. pay_decoded-Preserves env node bond invoice share _ _ _)

  -- A relation that each write keeps is kept by a whole call, on every row of the table.
  pub process_one_bond-Preserves :
      (env : Env) (clock : Clock) (node : NodeAnswers) (bond : Bond)
      → Preserves R (process_one_bond env clock node bond)
  unfolding process_one_bond forfeit_or_pay child_payout_blocked_by_locked_parent
  process_one_bond-Preserves env clock node bond =
      >>=-Preserves R chain _ _ (blocked_by-Preserves R rules bond.parent_bond_id) (λ blocked.
        if-Preserves R blocked _ _ (pure-Preserves R same tt) (
          >>=-Preserves R chain _ _ (lift-Preserves R same _) (λ slashed_at.
            if-Preserves R _ _ _ (forfeit-Preserves R rules bond) (
              >>=-Preserves R chain _ _ (lift-Preserves R same _) (λ share.
                if-Preserves R _ _ _ (finalize-Preserves R rules bond)
                  (request_or_pay-Preserves env clock node bond bond.payout_invoice))))))

  process_bonds-Rows :
      (env : Env) (clock : ℕ → Clock) (node : ℕ → NodeAnswers) (bonds : List Bond) (w : World)
      → Rows R w.bonds (process_bonds env clock node bonds w).bonds
  unfolding process_bonds
  process_bonds-Rows env clock node [] w = Rows-refl R same w.bonds
  process_bonds-Rows env clock node (b ∷ bs) w =
      let w' = (process_one_bond env (clock b.id) (node b.id) b w).1 in
      Rows-trans R chain w.bonds w'.bonds _
        ((process_one_bond-Preserves env (clock b.id) (node b.id) b).rows w)
        (process_bonds-Rows env clock node bs w')

  process_found-Rows :
      (env : Env) (clock : ℕ → Clock) (node : ℕ → NodeAnswers) (bs : List Bond)
      (p : Result (List Bond) × World)
      → Rows R bs p.1.bonds
      → Rows R bs (process_found env clock node p).bonds
  process_found-Rows env clock node bs (err _, w) h = h
  process_found-Rows env clock node bs (ok bonds, w) h =
      Rows-trans R chain bs w.bonds _ h (process_bonds-Rows env clock node bonds w)

  pub run_bond_payout_cycle-Rows :
      (env : Env) (clock : ℕ → Clock) (node : ℕ → NodeAnswers) (w : World)
      → Rows R w.bonds (run_bond_payout_cycle env clock node w).bonds
  unfolding run_bond_payout_cycle find_bonds_by_state
  run_bond_payout_cycle-Rows env clock node w =
      process_found-Rows env clock node w.bonds (find_bonds_by_state pending_payout w)
        ((fetch-Preserves R same _).rows w)
