-- ===== src/Bond/Invoice/Handled.antt =====
-- Who may hand in a payout invoice, and what a refusal leaves (src/app/bond/payout.rs).
use mostro.Prelude.{
  ℕ, String, ◌≡◌, refl, Option, none, some, List, Bool, true, false, Bool-cases, inl, inr, ◌⊎◌,
  arith, if◌then◌else◌, ◌==◌,
}
use mostro.Prelude.Int.{ℤ, pos, leb_ℤ}
use mostro.Result.{Error, Result, ok, err, not_allowed_by_status}
use mostro.Bond.Types.{
  BondState, BondParseError, requested, locked, released, pending_payout, slashed, forfeited,
  failed,
}
use mostro.Bond.Model.{Bond}
use mostro.Bond.Table.{World, M, ◌>>=◌, pure, raise, lift, execute}
use mostro.Bond.Env.{Env, claim_window}
use mostro.Bond.Recipient.{counterparty_share_sats}
use mostro.Bond.Answers.{Answer, Reads, bind-Answer, lift-Reads, execute-Answer}
use mostro.Bond.Invoice.{
  InvoiceApplyOutcome, persisted, resurrected, rejected, applied, is_closed, apply_in_state,
  apply_payout_invoice, find_recoverable_bond_for_recipient, notify_invoice_received, is_rejected,
  accept_for, usable_invoice, known_order, add_bond_invoice_action,
}
use mostro.Bond.Invoice.Chosen.{Chosen, find_recoverable-Chosen}
use mostro.Bond.Invoice.Debts.{Owed, IfSome, find_recoverable-Owed}

-- A submission that the handler may accept.
pub record Entitled (env : Env) (order : Option ℕ) (sent : Option String) (sender : String)
    (bs : List Bond) : Type 0 where
  pub order_id : ℕ
  pub named : known_order order ≡ ok order_id
  pub invoice : String
  pub usable : usable_invoice sent ≡ ok invoice
  pub bond : Bond
  pub owed : Owed env order_id sender bs bond
  pub chosen : Chosen env order_id sender (env.invoice_sats invoice) bs bond
  pub share : ℤ
  pub shared : counterparty_share_sats bond ≡ ok share
  pub positive : leb_ℤ share (pos 0) ≡ false
  pub valid : env.is_valid_invoice invoice share ≡ true

missed :
    (outcome : InvoiceApplyOutcome) (rows : ℕ)
    → is_rejected outcome ≡ false
    → is_rejected (applied outcome rows) ≡ true
    → rows ≡ 0
missed outcome rows h k = elim (Bool-cases (rows == 0)) [
  | inl gone ↦ ground arith
  | inr hit ↦ absurd (ground arith)
]

-- A rejected invoice, or an error, leaves the rows.
abbrev Kept : List Bond → InvoiceApplyOutcome → World → Type 0
Kept bs outcome w = is_rejected outcome ≡ true → w.bonds ≡ bs

module _ (bond : Bond) (invoice : String) (now window : ℤ) (bs : List Bond) where
  written :
      (outcome : InvoiceApplyOutcome) (fits : Bond → Bool) (change : Bond → Bond) (w : World)
      → w.bonds ≡ bs
      → is_rejected outcome ≡ false
      → Answer bs (Kept bs) ((execute fits change >>= λ rows. pure (applied outcome rows)) w)
  unfolding pure
  written outcome fits change w h k =
      bind-Answer bs (λ rows w'. rows ≡ 0 → w'.bonds ≡ bs) (Kept bs) (execute fits change) _ w
        (execute-Answer bs fits change w h) (λ rows w' same gone. same (missed outcome rows k gone))

  closed_or :
      (test : Bool) (m : M InvoiceApplyOutcome) (w : World)
      → w.bonds ≡ bs
      → Answer bs (Kept bs) (m w)
      → Answer bs (Kept bs) ((if test then pure rejected else m) w)
  unfolding pure
  closed_or true m w h k = λ _. h
  closed_or false m w h k = k

  apply_in_state-Answer :
      (parsed : BondState ⊎ BondParseError) (w : World)
      → w.bonds ≡ bs
      → Answer bs (Kept bs) (apply_in_state parsed bond invoice now window w)
  unfolding apply_in_state pure
  apply_in_state-Answer (inr _) w h = λ _. h
  apply_in_state-Answer (inl pending_payout) w h = written persisted _ _ w h refl
  apply_in_state-Answer (inl failed) w h =
      closed_or (is_closed now window bond.slashed_at) _ w h (written resurrected _ _ w h refl)
  apply_in_state-Answer (inl requested) w h = λ _. h
  apply_in_state-Answer (inl locked) w h = λ _. h
  apply_in_state-Answer (inl released) w h = λ _. h
  apply_in_state-Answer (inl slashed) w h = λ _. h
  apply_in_state-Answer (inl forfeited) w h = λ _. h

module _ (env : Env) (sender : String) (now : ℤ) (bs : List Bond) (T : Type 0) where
  answered :
      (bond : Bond) (share : ℤ) (outcome : InvoiceApplyOutcome) (w : World)
      → T
      → Kept bs outcome w
      → Answer bs
          (λ _ _. T)
          ((if is_rejected outcome
              then raise not_allowed_by_status
              else notify_invoice_received env bond sender share)
            w)
  unfolding raise notify_invoice_received
  answered bond share persisted w t h = t
  answered bond share resurrected w t h = t
  answered bond share rejected w t h = h refl

  tested :
      (test : Bool) (e : Error) (m : M (Unit {0})) (w : World)
      → w.bonds ≡ bs
      → (test ≡ false → Answer bs (λ _ _. T) (m w))
      → Answer bs (λ _ _. T) ((if test then raise e else m) w)
  unfolding raise
  tested true e m w h k = h
  tested false e m w h k = k refl

  passed :
      (test : Bool) (e : Error) (m : M (Unit {0})) (w : World)
      → w.bonds ≡ bs
      → (test ≡ true → Answer bs (λ _ _. T) (m w))
      → Answer bs (λ _ _. T) ((if test then m else raise e) w)
  unfolding raise
  passed true e m w h k = k refl
  passed false e m w h k = h

  accept_for-Answer :
      (invoice : String) (found : Option Bond) (w : World)
      → w.bonds ≡ bs
      → ((bond : Bond) (share : ℤ)
          → found ≡ some bond
          → counterparty_share_sats bond ≡ ok share
          → leb_ℤ share (pos 0) ≡ false
          → env.is_valid_invoice invoice share ≡ true
          → T)
      → Answer bs (λ _ _. T) (accept_for env sender invoice now found w)
  unfolding accept_for raise apply_payout_invoice
  accept_for-Answer invoice none w h k = h
  accept_for-Answer invoice (some bond) w h k =
      bind-Answer bs (λ s w'. (w'.bonds ≡ bs) × (counterparty_share_sats bond ≡ ok s)) _
        (lift (counterparty_share_sats bond)) _ w (lift-Reads bs _ w h)
        (λ share w' got. tested (leb_ℤ share (pos 0)) _ _ w' got.0 (λ positive.
          passed (env.is_valid_invoice invoice share) _ _ w' got.0 (λ valid.
            bind-Answer bs (Kept bs) _
              (apply_payout_invoice bond invoice now (claim_window env.config)) _ w'
              (apply_in_state-Answer bond invoice now _ bs _ w' got.0)
              (λ outcome w'' kept.
                answered bond share outcome w'' (k bond share refl got.1 positive valid) kept))))

both :
    {A : Type 0} (bs : List Bond) (P Q : A → Type 0) (p : Result A × World)
    → Reads bs P p
    → Reads bs Q p
    → Answer bs (λ a w. (w.bonds ≡ bs) × P a × Q a) p
both bs P Q (ok a, w) h k = (h.0, h.1, k.1)
both bs P Q (err e, w) h k = h

found-of :
    (P : Bond → Type 0) (found : Option Bond) (b : Bond) → IfSome P found → found ≡ some b → P b
found-of P found b h e = rw e at h

-- The handler of `AddBondInvoice` accepts an invoice only from a sender who is the recipient of a
-- listed bond of the named order that is pending-payout or failed, whose counterparty's share is
-- positive, and if the invoice is valid for that share. The invoice's amount is that share, or no other
-- such bond of the sender was slashed later, where a bond without the time of its slash counts as the
-- earliest. On any error, of the request or of the
-- database, the table of bonds is as it was.
pub add_bond_invoice_action-Entitled :
    (env : Env) (order : Option ℕ) (sent : Option String) (sender : String) (now : ℤ) (w : World)
    → Answer w.bonds
        (λ _ _. Entitled env order sent sender w.bonds)
        (add_bond_invoice_action env order sent sender now w)
unfolding add_bond_invoice_action
add_bond_invoice_action-Entitled env order sent sender now w =
    let bs = w.bonds in
    bind-Answer bs (λ id w1. (w1.bonds ≡ bs) × (known_order order ≡ ok id)) _
      (lift (known_order order)) _ w (lift-Reads bs _ w refl)
      (λ id w1 named.
        bind-Answer bs (λ invoice w2. (w2.bonds ≡ bs) × (usable_invoice sent ≡ ok invoice)) _
          (lift (usable_invoice sent)) _ w1 (lift-Reads bs _ w1 named.0)
          (λ invoice w2 usable.
            bind-Answer bs
              (λ x w3.
                (w3.bonds ≡ bs)
                × IfSome (Owed env id sender bs) x
                × IfSome (Chosen env id sender (env.invoice_sats invoice) bs) x)
              _ (find_recoverable_bond_for_recipient env id sender (env.invoice_sats invoice)) _ w2
              (both bs (IfSome (Owed env id sender bs))
                (IfSome (Chosen env id sender (env.invoice_sats invoice) bs))
                (find_recoverable_bond_for_recipient env id sender (env.invoice_sats invoice) w2)
                (find_recoverable-Owed env id sender _ bs w2 usable.0)
                (find_recoverable-Chosen env id sender _ bs w2 usable.0))
              (λ found w3 got.
                accept_for-Answer env sender now bs (Entitled env order sent sender bs) invoice
                  found w3 got.0
                  (λ bond share is_it shared positive valid. record {
                    order_id = id;
                    named = named.1;
                    invoice = invoice;
                    usable = usable.1;
                    bond = bond;
                    owed = found-of (Owed env id sender bs) found bond got.1 is_it;
                    chosen =
                        found-of (Chosen env id sender (env.invoice_sats invoice) bs) found bond
                          got.2 is_it;
                    share = share;
                    shared = shared;
                    positive = positive;
                    valid = valid;
                  }))))
