-- ===== src/PayoutClaim/Accounts.antt =====
-- The invariant behind the single payout of an order (src/app/release.rs): a payout that was started
-- is known to be lost, or its order is final, or the order's marker still is its hash.
use text.Mathlib.Text.{◌==◌ as str_eq}
use text.Mathlib.TextEquality.{eq_iff}
use mostro.Prelude.{
  ℕ, String, Bool, true, false, not, ◌||◌, ◌≡◌, refl, sym, ◌∙◌, Option, none, some, is_none, List,
  [], ◌∷◌, ◌==◌, All, Bool-cases, inl, inr, arith,
}
use mathlib.Core.Path.{subst}
use mostro.Prelude.Int.{ℤ}
use mostro.Prelude.Rows
use mostro.Prelude.Rows.{All-rewrite-given, affects, rewrite, All-rewrite, rewrite-IsKeyed}
use mostro.PaymentLog.{Entry, sent, failed, has_failed, Sends, Sends-map}
use mostro.PayoutClaim.{
  OrderRow, equals, settled_hold_invoice, unclaimed, owns, apply_update, set_claim, set_claimed_at,
}

abbrev pub accounts : List Entry → OrderRow → ℕ → String → Bool
accounts log o id h =
    not (o.id == id)
    || has_failed h log
    || not (settled_hold_invoice o)
    || equals o.payout_payment_hash h

abbrev pub RowOk : List Entry → OrderRow → Type 0
RowOk log o = Sends (λ id h. accounts log o id h ≡ true) log

-- A payout was started only when every earlier one of its order was of the same hash or lost.
abbrev pub AllLost : ℕ → String → List Entry → List Entry → Type 0
AllLost order_id hash log l =
    Sends (λ id h. (not (order_id == id) || has_failed h log || str_eq hash h) ≡ true) l

abbrev pub Single : List Entry → Type 0
Single [] = Unit
Single (failed _ ∷ l) = Single l
Single (sent id h ∷ l) = AllLost id h l l × Single l

abbrev pub IsKeyed : List OrderRow → Type 0
IsKeyed os = Rows.IsKeyed (λ (o : OrderRow). o.id) os

rows-map :
    (P Q : OrderRow → Type 0)
    → ((o : OrderRow) → P o → Q o)
    → (os : List OrderRow) → All P os
    → All Q os
rows-map P Q f [] h = tt
rows-map P Q f (o ∷ os) h = (f o h.0, rows-map P Q f os h.1)

accounts-failed :
    (hash : String) (log : List Entry) (o : OrderRow) (id : ℕ) (h : String)
    → accounts log o id h ≡ true
    → accounts (failed hash ∷ log) o id h ≡ true
unfolding has_failed
accounts-failed hash log o id h a = ground arith

null-equals : (x : Option String) (h : String) → is_none x ≡ true → equals x h ≡ false
null-equals none h p = refl
null-equals (some a) h p = absurd (cc)

pub equals-path : (x : Option String) (a b : String) → equals x a ≡ true → equals x b ≡ true → a ≡ b
equals-path none a b p q = absurd (cc)
equals-path (some m) a b p q = sym ((eq_iff m a).0 p) ∙ (eq_iff m b).0 q

module _ (log : List Entry) (o : OrderRow) (ok : RowOk log o) where
  pub each :
      (R : ℕ → String → Type 0)
      → ((id : ℕ) (h : String) → accounts log o id h ≡ true → R id h)
      → Sends R log
  each R f = Sends-map (λ id h. accounts log o id h ≡ true) R f log ok

  -- A claim stands on a row without a marker, so whatever was sent for it is lost.
  pub claimed-RowOk :
      (order_id : ℕ) (hash : String) (now : ℤ)
      → unclaimed order_id o ≡ true
      → RowOk log (set_claim hash now o)
  unfolding unclaimed settled_hold_invoice
  claimed-RowOk order_id hash now u =
      each (λ id h. accounts log (set_claim hash now o) id h ≡ true)
        (λ id h a. let unset = null-equals o.payout_payment_hash h (ground arith) in ground arith)

  pub touched-RowOk : (now : ℤ) → RowOk log (set_claimed_at now o)
  unfolding settled_hold_invoice
  touched-RowOk now = each (λ id h. accounts log (set_claimed_at now o) id h ≡ true) (λ id h a. a)

  -- The marker of a lost payout is cleared, or that of an order that is final.
  pub cleared-RowOk :
      (order_id : ℕ) (hash : String) (at : Option ℤ) (o' : OrderRow)
      → owns order_id hash at o ≡ true
      → (o'.id ≡ o.id) × (o'.status ≡ o.status)
      → (not (settled_hold_invoice o) || has_failed hash log) ≡ true
      → RowOk log o'
  unfolding owns settled_hold_invoice
  cleared-RowOk order_id hash at o' mine same over =
      each (λ id h. accounts log o' id h ≡ true)
        (λ id h a.
          rw (same.0, same.1)
            (elim (Bool-cases (equals o.payout_payment_hash h)) [
              | inl also ↦
                  let this = equals-path o.payout_payment_hash hash h (ground arith) also in
                  let lost =
                    subst (λ s. (not (settled_hold_invoice o) || has_failed s log) ≡ true) this
                      over in
                  ground arith
              | inr other ↦ ground arith
            ]))

-- `usable`: the node can be asked about a hash.
module _ (usable : String → Bool) where
  pub record Sound (rows : List OrderRow) (log : List Entry) : Type 0 where
    pub keyed : IsKeyed rows
    pub rows_ok : All (RowOk log) rows
    pub hashes : Sends (λ _ h. usable h ≡ true) log
    pub single : Single log

  -- A statement keeps the invariant if its change keeps what each row says, given something of
  -- every row.
  pub update-Sound-given :
      (E : OrderRow → Type 0) (fault : Bool) (fits : OrderRow → Bool) (change : OrderRow → OrderRow)
      → ((o : OrderRow) → (change o).id ≡ o.id)
      → (os : List OrderRow) (log : List Entry)
      → ((o : OrderRow) → fits o ≡ true → E o → RowOk log o → RowOk log (change o))
      → All E os
      → Sound os log
      → Sound (apply_update fault fits change os).1 log
  unfolding apply_update
  update-Sound-given E true fits change same os log keeps e s = s
  update-Sound-given E false fits change same os log keeps e s = record {
    keyed = rewrite-IsKeyed (λ (o : OrderRow). o.id) fits change same os s.keyed;
    rows_ok = All-rewrite-given E (RowOk log) fits change keeps os e s.rows_ok;
    hashes = s.hashes;
    single = s.single;
  }

  pub update-Sound :
      (fault : Bool) (fits : OrderRow → Bool) (change : OrderRow → OrderRow)
      → ((o : OrderRow) → (change o).id ≡ o.id)
      → (os : List OrderRow) (log : List Entry)
      → ((o : OrderRow) → fits o ≡ true → RowOk log o → RowOk log (change o))
      → Sound os log
      → Sound (apply_update fault fits change os).1 log
  update-Sound fault fits change same os log keeps s =
      update-Sound-given (RowOk log) fault fits change same os log (λ o hit _ ok. keeps o hit ok)
        s.rows_ok s

  pub failed-Sound :
      (hash : String) (os : List OrderRow) (log : List Entry)
      → Sound os log
      → Sound os (failed hash ∷ log)
  failed-Sound hash os log s = record {
    keyed = s.keyed;
    rows_ok =
        rows-map (RowOk log) (RowOk (failed hash ∷ log))
          (λ o r.
            Sends-map (λ id h. accounts log o id h ≡ true)
              (λ id h. accounts (failed hash ∷ log) o id h ≡ true) (accounts-failed hash log o) log
              r)
          os s.rows_ok;
    hashes = s.hashes;
    single = s.single;
  }
