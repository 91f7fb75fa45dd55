-- ===== src/PayoutClaim/Marked.antt =====
-- What a task that still owns its claim knows of the order (src/app/release.rs).
use text.Mathlib.Text.{◌==◌ as str_eq}
use text.Mathlib.TextEquality.{eq_iff}
use mostro.Prelude.{
  ℕ, String, Bool, true, false, not, ◌||◌, ◌≡◌, refl, sym, ap, ◌∙◌, Option, List, [], ◌∷◌, ◌==◌,
  All, Bool-cases, inl, inr, arith,
}
use mostro.Prelude.Int.{ℤ}
use mostro.Prelude.Rows.{affects, affects-row}
use mostro.PaymentLog.{Entry, has_failed}
use mostro.PayoutClaim.{OrderRow, equals, settled_hold_invoice, owns, owns_settled}
use mostro.PayoutClaim.Accounts.{RowOk, AllLost, IsKeyed, equals-path, each}

pub owned_parts :
    (id : ℕ) (h : String) (t : Option ℤ) (o : OrderRow)
    → owns_settled id h t o ≡ true
    → ((o.id == id) ≡ true)
      × (equals o.payout_payment_hash h ≡ true)
      × (settled_hold_invoice o ≡ true)
unfolding owns owns_settled
owned_parts id h t o p = (ground arith, ground arith, ground arith)

-- What the rows of an order say of the payout that is about to be started.
abbrev pub marks : ℕ → String → OrderRow → Bool
marks id h o = not (o.id == id) || not (settled_hold_invoice o) || equals o.payout_payment_hash h

module _ (id : ℕ) (h : String) (t : Option ℤ) where
  absent-marks :
      (os : List OrderRow)
      → affects (λ (o : OrderRow). o.id == id) os ≡ false
      → All (λ o. marks id h o ≡ true) os
  unfolding affects
  absent-marks [] n = tt
  absent-marks (o ∷ os) n = (ground arith, absent-marks os (ground arith))

  owned_id :
      (os : List OrderRow)
      → affects (owns_settled id h t) os ≡ true
      → affects (λ (o : OrderRow). o.id == id) os ≡ true
  unfolding affects
  owned_id [] p = p
  owned_id (o ∷ os) p = elim (Bool-cases (owns_settled id h t o)) [
    | inl here ↦ rw ((owned_parts id h t o here).0) refl
    | inr later ↦ ground (arith, owned_id os (ground arith))
  ]

  -- The ids are a key, so the order's one row holds the hash.
  pub owned-marks :
      (os : List OrderRow)
      → IsKeyed os
      → affects (owns_settled id h t) os ≡ true
      → All (λ o. marks id h o ≡ true) os
  unfolding affects
  owned-marks [] k p = tt
  owned-marks (o ∷ os) k p = elim (Bool-cases (owns_settled id h t o)) [
    | inl here ↦
        let (same, held, _) = owned_parts id h t o here in
        let e : o.id ≡ id = ground arith in
        (
          rw (held) (ground arith),
          absent-marks os (ap (λ n. affects (λ (p : OrderRow). p.id == n) os) (sym e) ∙ k.0),
        )
    | inr miss ↦
        let later : affects (owns_settled id h t) os ≡ true = ground arith in
        (elsewhere later, owned-marks os k.1 later)
  ]
    where
      elsewhere : affects (owns_settled id h t) os ≡ true → marks id h o ≡ true
      elsewhere later = elim (Bool-cases (o.id == id)) [
        | inl this ↦
            let e : o.id ≡ id = ground arith in
            absurd
              (cc (ap (λ n. affects (λ (p : OrderRow). p.id == n) os) e, k.0, owned_id os later))
        | inr differs ↦ rw differs refl
      ]

  pub owned-AllLost :
      (os : List OrderRow) (log : List Entry)
      → All (RowOk log) os
      → affects (owns_settled id h t) os ≡ true
      → AllLost id h log log
  owned-AllLost os log ok p =
      let (o, fits, row) = affects-row (RowOk log) (owns_settled id h t) os ok p in
      let (same, held, settled) = owned_parts id h t o fits in
      let e : o.id ≡ id = ground arith in
      each log o row (λ id' h'. (not (id == id') || has_failed h' log || str_eq h h') ≡ true)
        (λ id' h' a. elim (Bool-cases (equals o.payout_payment_hash h')) [
          | inl also ↦
              let same_hash = (eq_iff h h').1 (equals-path o.payout_payment_hash h h' held also) in
              ground arith
          | inr not_held ↦ ground arith
        ])
