-- ===== src/Bond/Cycle/Persisted.antt =====
-- The payment hash is stored before a payment starts, and stays (src/app/bond/payout.rs).
use mostro.Prelude.{
  if◌then◌else◌, ℕ, String, ◌≡◌, refl, ◌∙◌, some, Bool-cases, inl, inr, ◌⊎◌, List, [], ◌∷◌, ◌==◌,
}
use mostro.Prelude.Int.{ℤ, pos, ◌+ℤ◌, i64, min_ℤ, ltb_ℤ}
use mostro.Bond.Types.{pending_payout}
use mostro.Bond.Model.{Bond}
use mostro.Bond.Table.{World, ◌>>=◌, pure, cas, is_faulty, update_rows}
use mostro.Bond.Statements.{execute_fault, execute_fine, bind_ok, bind_err}
use mostro.Bond.Env.{Env}
use mostro.Bond.Rows.{
  Rows, Preserves, >>=-Preserves, execute-Preserves, pure-Preserves, if-Preserves,
}
use mostro.Bond.Payout.{
  set_hash, set_attempts, indeterminate, failure, classify_send_verdict, drain, stream_ended,
  SendOutcome, elapsed, send_error, finished, on_send_payment_failure,
}
use mostro.Bond.Cycle.{NodeAnswers, start, on_verdict, send_payout, start_payment}

-- What no failure of unknown outcome changes.
abbrev Held : Bond → Bond → Type 0
Held b c =
    (c.state ≡ b.state)
    × (c.payout_invoice ≡ b.payout_invoice)
    × (c.payout_payment_hash ≡ b.payout_payment_hash)

-- A row that the call is for awaits its payout still, with its invoice and the payment's hash.
abbrev pub Persisted : ℕ → String → Bond → Bond → Type 0
Persisted id hash b c =
    if cas id pending_payout b
    then (c.state ≡ b.state)
      × (c.payout_invoice ≡ b.payout_invoice)
      × (c.payout_payment_hash ≡ some hash)
    else Unit

held : (b : Bond) → Held b b
held b = (refl, refl, refl)

Held-chain : (b c d : Bond) → Held b c → Held c d → Held b d
Held-chain b c d h k = (k.0 ∙ h.0, k.1 ∙ h.1, k.2 ∙ h.2)

Held-on :
    (id : ℕ) (hash : String) (b c d : Bond)
    → Persisted id hash b c
    → Held c d
    → Persisted id hash b d
Held-on id hash b c d h k = elim (Bool-cases (cas id pending_payout b)) [
  | inl mine ↦ rw mine (let (s, i, p) = (rw mine at h) in (k.0 ∙ s, k.1 ∙ i, k.2 ∙ p))
  | inr other ↦ rw other tt
]

Persisted-then :
    (id : ℕ) (hash : String) (bs cs ds : List Bond)
    → Rows (Persisted id hash) bs cs
    → Rows Held cs ds
    → Rows (Persisted id hash) bs ds
Persisted-then id hash [] [] ds h k = k
Persisted-then id hash [] (c ∷ cs) ds h k = absurd h
Persisted-then id hash (b ∷ bs) [] ds h k = absurd h
Persisted-then id hash (b ∷ bs) (c ∷ cs) [] h k = absurd k
Persisted-then id hash (b ∷ bs) (c ∷ cs) (d ∷ ds) h k =
    (Held-on id hash b c d h.0 k.0, Persisted-then id hash bs cs ds h.1 k.1)

update_rows-Persisted :
    (id : ℕ) (fee : ℤ) (hash : String) (bs : List Bond)
    → Rows (Persisted id hash) bs (update_rows (cas id pending_payout) (set_hash fee hash) bs)
unfolding update_rows
update_rows-Persisted id fee hash [] = tt
update_rows-Persisted id fee hash (b ∷ bs) = elim (Bool-cases (cas id pending_payout b)) [
  | inl mine ↦ (rw mine (refl, refl, refl), update_rows-Persisted id fee hash bs)
  | inr other ↦ (rw other tt, update_rows-Persisted id fee hash bs)
]

ended : (outcome : SendOutcome) → classify_send_verdict outcome stream_ended ≡ failure indeterminate
unfolding classify_send_verdict
ended elapsed = refl
ended send_error = refl
ended finished = refl

indeterminate-Held :
    (bond : Bond) (retries window now : ℤ)
    → Preserves Held (on_send_payment_failure bond retries window indeterminate now)
unfolding on_send_payment_failure
indeterminate-Held bond retries window now =
    >>=-Preserves Held Held-chain _ _
      (execute-Preserves Held held _ (set_attempts _) (λ b _. (refl, refl, refl)))
      (λ _.
        if-Preserves Held (ltb_ℤ (min_ℤ (i64 (bond.payout_attempts +ℤ pos 1)) retries) retries) _ _
          (pure-Preserves Held held tt) (pure-Preserves Held held tt))

module _ (env : Env) (node : NodeAnswers) (bond : Bond) (invoice hash : String)
    (share retries window : ℤ) where
  abbrev Safe : World → World → Type 0
  Safe w w' = (w'.sends ≡ w.sends) ⊎ Rows (Persisted bond.id hash) w.bonds w'.bonds

  started :
      (w w' : World) (rows : ℕ)
      → w'.sends ≡ w.sends
      → Rows (Persisted bond.id hash) w.bonds w'.bonds
      → drain node.updates ≡ stream_ended
      → Safe w (start_payment env node bond invoice share retries window rows w').1
  unfolding ◌>>=◌ start pure on_verdict
  started w w' rows h k quiet = elim (Bool-cases (rows == 0)) [
    | inl gone ↦ rw gone (inl h)
    | inr found ↦
        rw (found, quiet, ended node.outcome)
          (inr (
            Persisted-then bond.id hash w.bonds w'.bonds _ k
              ((indeterminate-Held bond retries window node.failed_at).rows _)))
  ]

-- When the node's updates end before they tell how a payment ended, `send_payout` either started no
-- payment, or each row that it was called for (with the bond's id, and pending-payout) is still
-- pending-payout with the same invoice, and carries the hash of that payment.
pub send_payout-Persisted :
    (env : Env) (node : NodeAnswers) (bond : Bond) (invoice hash : String)
    (share retries window : ℤ) (w : World)
    → drain node.updates ≡ stream_ended
    → ((send_payout env node bond invoice hash share retries window w).1.sends ≡ w.sends)
      ⊎ Rows
          (Persisted bond.id hash)
          w.bonds
          (send_payout env node bond invoice hash share retries window w).1.bonds
unfolding send_payout
send_payout-Persisted env node bond invoice hash share retries window w quiet =
    let fits = cas bond.id pending_payout in
    let change = set_hash (env.routing_fee_cap share) hash in
    let rest = start_payment env node bond invoice share retries window in
    elim (Bool-cases (is_faulty w.faults)) [
      | inl fault ↦ rw (bind_err _ rest _ w _ (execute_fault fits change w fault)) (inl refl)
      | inr fine ↦ rw (bind_ok _ rest _ w _ (execute_fine fits change w fine)) (
          started env node bond invoice hash share retries window w _ _ refl
            (update_rows-Persisted bond.id (env.routing_fee_cap share) hash w.bonds) quiet)
    ]
