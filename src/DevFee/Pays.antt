-- ===== src/DevFee/Pays.antt =====
-- A new development fee is paid (src/app/dev_fee.rs).
use mostro.Prelude.{not, ◌&&◌}
use mostro.Prelude.{
  ℕ, suc, String, Bool, true, false, ◌≡◌, refl, ap, ◌∙◌, Option, none, some, List, [], ◌∷◌, ◌==◌,
  Bool-cases, inl, inr, arith, if◌then◌else◌,
}
use text.Mathlib.Text.{◌==◌ as str_eq}
use text.Mathlib.TextPositions.{eq_refl}
use mostro.Prelude.Int.{pos, leb_ℤ}
use mostro.Prelude.Rows.{affects, rewrite}
use mostro.DevFee.Table.{
  FeeOrder, Fault, fine, refused, crash, Ledger, ◌>>=◌, done, fate, modify, select, select_at,
  observe, find_order, confirm, audit,
}
use mostro.DevFee.Marker.{pending_marker}
use mostro.DevFee.Payment.{
  Outside, taken, sent_with, await_result, dev_fee_comment, resolve_dev_fee_invoice, start_send,
  start_unless, send_dev_fee_payment,
}
use mostro.DevFee.Columns.{is_unpaid, awaits, with_hash, paid_with}
use mostro.DevFee.Cycle.{
  mem, claimable, is_new, handle_payment_success, pay_found, store_and_pay, after_claim,
  process_new, try_claim_order_for_dev_fee, confirm_and_audit, audit_found,
}
use mostro.DevFee.Sound.{KeepsId}

-- The process runs, no statement is refused, and the order has this row.
pub record Runs (order_id : ℕ) (o : FeeOrder) (w : Ledger) : Type 0 where
  pub up : w.down ≡ false
  pub clear : w.faults ≡ []
  pub row : find_order order_id w.orders ≡ some o

found_rewritten :
    (id : ℕ) (o : FeeOrder) (fits : FeeOrder → Bool) (change : FeeOrder → FeeOrder)
    → KeepsId change
    → fits o ≡ true
    → (os : List FeeOrder) → find_order id os ≡ some o
    → (affects fits os ≡ true) × (find_order id (rewrite fits change os) ≡ some (change o))
unfolding find_order affects rewrite
found_rewritten id o fits change same hit [] f = absurd (cc)
found_rewritten id o fits change same hit (r ∷ os) f = elim (Bool-cases (r.id == id)) [
  | inl here ↦
      let e : r ≡ o = cc (rw here at f) in
      let hit_r : fits r ≡ true = ap fits e ∙ hit in
      let keeps : ((change r).id == id) ≡ true = ap (λ n. n == id) (same r) ∙ here in
      rw (hit_r, keeps) (refl, ap (λ x. some (change x)) e)
  | inr other ↦
      let (hits, row) = found_rewritten id o fits change same hit os (rw other at f) in
      elim (Bool-cases (fits r)) [
        | inl too ↦
            let keeps : ((change r).id == id) ≡ false = ap (λ n. n == id) (same r) ∙ other in
            rw (too, keeps) (refl, row)
        | inr miss ↦ rw (miss, other) (hits, row)
      ]
]

module _ (id : ℕ) (o : FeeOrder) (w : Ledger) (runs : Runs id o w) where
  fate-fine : fate w ≡ fine
  fate-fine = rw (runs.up, runs.clear) refl

  pub modify-Runs :
      (fits : FeeOrder → Bool) (change : FeeOrder → FeeOrder)
      → KeepsId change
      → fits o ≡ true
      → ((modify fits change w).0 ≡ some true) × Runs id (change o) (modify fits change w).1
  unfolding modify
  modify-Runs fits change same hit =
      let (hits, row) = found_rewritten id o fits change same hit w.orders runs.row in
      rw fate-fine (ap some hits, record { up = runs.up; clear = rw runs.clear refl; row = row })

  pub select-Runs :
      ((select (find_order id) w).0 ≡ some (some o)) × Runs id o (select (find_order id) w).1
  unfolding select
  select-Runs =
      rw fate-fine
        (ap some runs.row, record { up = runs.up; clear = rw runs.clear refl; row = runs.row })

  pub start_send-Runs : (hash : String) → Runs id o (start_send id hash w).1
  unfolding start_send
  start_send-Runs hash = sent_or_not w.down
    where
      sent_or_not : (down : Bool) → Runs id o (start_unless down id hash w).1
      sent_or_not true = runs
      sent_or_not false = record { up = runs.up; clear = runs.clear; row = runs.row }

-- The order is confirmed, and its row is as given.
pub record Paid (order_id : ℕ) (o : FeeOrder) (w : Ledger) : Type 0 where
  pub row : find_order order_id w.orders ≡ some o
  pub confirmed : mem order_id w.confirmed ≡ true

audited :
    (id : ℕ) (hash : String) (o : FeeOrder) (found : Option (Option FeeOrder)) (w : Ledger)
    → Paid id o w
    → Paid id o (audit_found id hash found w).1
unfolding done audit
audited id hash o none w p = p
audited id hash o (some none) w p = p
audited id hash o (some (some r)) w p = logged w.down
  where
    logged :
        (down : Bool) → Paid id o (if down then w else record w { audits = (id, hash) ∷ w.audits })
    logged true = p
    logged false = record { row = p.row; confirmed = p.confirmed }

select_at-Paid :
    (id : ℕ) (o : FeeOrder) (f : Fault) (w : Ledger)
    → Paid id o w
    → Paid id o (select_at f (find_order id) w).1
select_at-Paid id o fine w p = record { row = p.row; confirmed = p.confirmed }
select_at-Paid id o refused w p = record { row = p.row; confirmed = p.confirmed }
select_at-Paid id o crash w p = record { row = p.row; confirmed = p.confirmed }

confirm_and_audit-Paid :
    (id : ℕ) (hash : String) (o : FeeOrder) (w : Ledger)
    → Runs id o w
    → Paid id o (confirm_and_audit id hash w).1
unfolding confirm_and_audit confirm select ◌>>=◌
confirm_and_audit-Paid id hash o w runs =
    let w1 : Ledger = record w { confirmed = id ∷ w.confirmed } in
    let there : Paid id o w1 = record { row = runs.row; confirmed = ground arith } in
    audited id hash o (select_at (fate w1) (find_order id) w1).0
      (select_at (fate w1) (find_order id) w1).1 (select_at-Paid id o (fate w1) w1 there)

success-Paid :
    (o : FeeOrder) (hash : String) (w : Ledger)
    → Runs o.id o w
    → o.dev_fee_paid ≡ false
    → Paid o.id (paid_with hash o) (handle_payment_success o hash w).1
unfolding handle_payment_success ◌>>=◌
success-Paid o hash w runs fresh =
    let (hit, runs') =
      modify-Runs o.id o w runs (is_unpaid o.id) (paid_with hash) (λ _. refl) (own fresh) in
    rw hit (
      confirm_and_audit-Paid o.id hash (paid_with hash o)
        (modify (is_unpaid o.id) (paid_with hash) w).1 runs')
  where
    own : o.dev_fee_paid ≡ false → is_unpaid o.id o ≡ true
    own f = unfold is_unpaid in ground arith

-- What the services answer for an order: an invoice, and a payment of it that succeeds.
pub record Serves (out : Outside) (o : FeeOrder) (request hash : String) : Type 0 where
  pub invoice : (n : ℕ) → out.resolve n o.dev_fee (dev_fee_comment out o.id) ≡ some request
  pub decoded : (not (str_eq request "") && out.decodes request) ≡ true
  pub resolved : (n : ℕ) → out.resolved_in_time n ≡ true
  pub submitted : (n : ℕ) → out.submit n request ≡ taken
  pub paid : (n : ℕ) → await_result (out.updates n request) ≡ sent_with hash
  pub sent : (n : ℕ) → out.sent_in_time n ≡ true

positive_fee : (o : FeeOrder) → is_new o ≡ true → leb_ℤ o.dev_fee (pos 0) ≡ false
unfolding is_new
positive_fee o p = ground arith

fresh_fee : (o : FeeOrder) → is_new o ≡ true → o.dev_fee_paid ≡ false
unfolding is_new
fresh_fee o p = ground arith

module _ (out : Outside) (o : FeeOrder) (request hash : String) (serves : Serves out o request hash)
    (new : is_new o ≡ true) where
  resolve_served :
      (w : Ledger)
      → resolve_dev_fee_invoice out o w
        ≡ (some (request, out.hash_of request), record w { calls = suc (suc w.calls) })
  unfolding resolve_dev_fee_invoice observe done ◌>>=◌
  resolve_served w =
      rw (positive_fee o new, serves.resolved (suc w.calls), serves.invoice w.calls, serves.decoded)
        refl

  -- The row while its payment is under way.
  abbrev row_with : String → FeeOrder
  row_with h = with_hash h o

  pay_served :
      (h : String) (w : Ledger)
      → Runs o.id (row_with h) w
      → Paid o.id (paid_with hash o) (pay_found out request (some (some (row_with h))) w).1
  unfolding send_dev_fee_payment observe done ◌>>=◌
  pay_served h w runs =
      let w1 = (start_send o.id (out.hash_of request) w).1 in
      rw
        (
          positive_fee o new,
          serves.sent (suc (suc w1.calls)),
          serves.submitted w1.calls,
          serves.paid (suc w1.calls),
        )
        (success-Paid (row_with h) hash (record w1 { calls = suc (suc (suc w1.calls)) })
          (record { up = runs'.up; clear = runs'.clear; row = runs'.row }) (fresh_fee o new))
    where
      runs' : Runs o.id (row_with h) (start_send o.id (out.hash_of request) w).1
      runs' = start_send-Runs o.id (row_with h) w runs (out.hash_of request)

  store_served :
      (marker : String) (w : Ledger)
      → Runs o.id (row_with marker) w
      → Paid o.id
          (paid_with hash o)
          (store_and_pay out o.id marker (some (request, out.hash_of request)) w).1
  unfolding ◌>>=◌
  store_served marker w runs =
      let h = out.hash_of request in
      let (hit, runs1) =
        modify-Runs o.id (row_with marker) w runs (awaits o.id marker) (with_hash h) (λ _. refl)
          awaiting in
      let w1 = (modify (awaits o.id marker) (with_hash h) w).1 in
      let (found, runs2) = select-Runs o.id (row_with h) w1 runs1 in
      rw (hit, found) (pay_served h (select (find_order o.id) w1).1 runs2)
    where
      fresh : o.dev_fee_paid ≡ false
      fresh = fresh_fee o new

      own : is_unpaid o.id (row_with marker) ≡ true
      own = unfold is_unpaid in ground (arith, fresh)

      awaiting : awaits o.id marker (row_with marker) ≡ true
      awaiting = unfold awaits in rw (own, eq_refl marker) refl

  claim_served :
      (marker : String) (w : Ledger)
      → Runs o.id o w
      → Paid o.id
          (paid_with hash o)
          ((try_claim_order_for_dev_fee o.id marker >>= after_claim out o marker) w).1
  unfolding try_claim_order_for_dev_fee ◌>>=◌
  claim_served marker w runs =
      let (hit, runs1) =
        modify-Runs o.id o w runs (claimable o.id) (with_hash marker) (λ _. refl) claims in
      let w1 = (modify (claimable o.id) (with_hash marker) w).1 in
      rw (hit, resolve_served w1)
        (store_served marker (record w1 { calls = suc (suc w1.calls) })
          (record { up = runs1.up; clear = runs1.clear; row = runs1.row }))
    where
      claims : claimable o.id o ≡ true
      claims = unfold claimable in rw new (ground arith)

  -- The order's row is new (settled, with a fee that is unpaid and unclaimed), the process runs, no
  -- statement is refused, and the services answer in time with an invoice and with its payment's
  -- success. Then one call pays the fee: the row is paid with the hash that the node names, and the
  -- order is confirmed.
  pub process_new-Paid :
      (w : Ledger) → Runs o.id o w → Paid o.id (paid_with hash o) (process_new out o w).1
  unfolding process_new observe ◌>>=◌
  process_new-Paid w runs =
      claim_served (pending_marker (out.uuid (suc w.calls)) (out.clock w.calls))
        (record w { calls = suc (suc w.calls) })
        (record { up = runs.up; clear = runs.clear; row = runs.row })
