-- ===== src/DevFee/Sound.antt =====
-- The invariant behind the single payment of a development fee (src/app/dev_fee.rs): a payment that
-- was started is known to have failed, or the row of its order is paid or still holds its hash.
use text.Mathlib.Text.{◌==◌ as str_eq}
use mostro.Prelude.{
  ℕ, String, Bool, true, false, not, ◌&&◌, ◌||◌, ◌≡◌, refl, List, [], ◌∷◌, ◌==◌, All, Bool-cases,
  inl, inr, arith,
}
use mostro.Prelude.Equality.{string_eq}
use mostro.Prelude.Rows
use mostro.Prelude.Rows.{rewrite-IsKeyed, affects, rewrite, All-rewrite}
use mostro.PaymentLog.{Entry, Sends, Sends-map, failed, has_failed, sent}
use mostro.DevFee.Table.{FeeOrder}
use mostro.DevFee.Payment.{is_pending}
use mostro.DevFee.Columns.{hash_is, is_pending_hash, is_order}

-- Hashes in hexadecimal are neither empty nor markers.
abbrev pub IsHash : String → Type 0
IsHash h = (is_pending h ≡ false) × (str_eq h "" ≡ false)

abbrev pub Hashes : List Entry → Type 0
Hashes l = Sends (λ _ h. IsHash h) l

-- Every payment of the order that was started has failed.
abbrev pub AllFailed : ℕ → List Entry → List Entry → Type 0
AllFailed order_id log l = Sends (λ id h. (not (order_id == id) || has_failed h log) ≡ true) l

-- A payment was started only when every earlier one of its order was known to have failed.
abbrev pub Single : List Entry → Type 0
Single [] = Unit
Single (failed _ ∷ l) = Single l
Single (sent id _ ∷ l) = AllFailed id l l × Single l

-- What a row says of a payment that was started.
abbrev pub accounts : List Entry → FeeOrder → ℕ → String → Bool
accounts log o id h =
    not (o.id == id) || has_failed h log || o.dev_fee_paid || hash_is h o.dev_fee_payment_hash

abbrev pub RowOk : List Entry → FeeOrder → Type 0
RowOk log o =
    Sends (λ id h. accounts log o id h ≡ true) log
    × ((o.dev_fee_paid && is_pending_hash o.dev_fee_payment_hash) ≡ false)

-- The ids are a key.
abbrev pub IsKeyed : List FeeOrder → Type 0
IsKeyed os = Rows.IsKeyed (λ (o : FeeOrder). o.id) os

pub record Sound (orders : List FeeOrder) (log : List Entry) : Type 0 where
  pub keyed : IsKeyed orders
  pub rows : All (RowOk log) orders
  pub hashes : Hashes log
  pub single : Single log

-- Statements keep the ids.
abbrev pub KeepsId : (FeeOrder → FeeOrder) → Type 0
KeepsId change = (o : FeeOrder) → (change o).id ≡ o.id

-- A statement keeps the invariant if its change keeps what each row says.
pub rewrite-Sound :
    (fits : FeeOrder → Bool) (change : FeeOrder → FeeOrder)
    → KeepsId change
    → (os : List FeeOrder) (log : List Entry)
    → ((o : FeeOrder) → fits o ≡ true → RowOk log o → RowOk log (change o))
    → Sound os log
    → Sound (rewrite fits change os) log
rewrite-Sound fits change same os log keeps s = record {
  keyed = rewrite-IsKeyed (λ (o : FeeOrder). o.id) fits change same os s.keyed;
  rows = All-rewrite (RowOk log) fits change keeps os s.rows;
  hashes = s.hashes;
  single = s.single;
}

accounts-failed :
    (hash : String) (log : List Entry) (o : FeeOrder) (id : ℕ) (h : String)
    → accounts log o id h ≡ true
    → accounts (failed hash ∷ log) o id h ≡ true
unfolding has_failed
accounts-failed hash log o id h a = ground arith

All-map :
    {A : Type 0} (P Q : A → Type 0) → ((a : A) → P a → Q a) → (xs : List A) → All P xs → All Q xs
All-map P Q f [] h = tt
All-map P Q f (x ∷ xs) h = (f x h.0, All-map P Q f xs h.1)

-- An answer "failed" is noted.
pub failed-Sound :
    (hash : String) (os : List FeeOrder) (log : List Entry)
    → Sound os log
    → Sound os (failed hash ∷ log)
failed-Sound hash os log s = record {
  keyed = s.keyed;
  rows = All-map (RowOk log) (RowOk (failed hash ∷ log)) later os s.rows;
  hashes = s.hashes;
  single = s.single;
}
  where
    later : (o : FeeOrder) → RowOk log o → RowOk (failed hash ∷ log) o
    later o r = (
      Sends-map (λ id h. accounts log o id h ≡ true)
          (λ id h. accounts (failed hash ∷ log) o id h ≡ true) (accounts-failed hash log o) log r.0,
      r.1,
    )

accounts-sent :
    (order_id : ℕ) (hash : String) (log : List Entry) (o : FeeOrder) (id : ℕ) (h : String)
    → accounts log o id h ≡ true
    → accounts (sent order_id hash ∷ log) o id h ≡ true
unfolding has_failed
accounts-sent order_id hash log o id h a = a

-- A payment is started: the order's rows hold its hash, and the earlier ones have failed.
pub sent-Sound :
    (order_id : ℕ) (hash : String) (os : List FeeOrder) (log : List Entry)
    → IsHash hash
    → All (λ o. is_order order_id o ≡ true → hash_is hash o.dev_fee_payment_hash ≡ true) os
    → AllFailed order_id log log
    → Sound os log
    → Sound os (sent order_id hash ∷ log)
sent-Sound order_id hash os log is_hash stored over s = record {
  keyed = s.keyed;
  rows = rows os stored s.rows;
  hashes = (is_hash, s.hashes);
  single = (over, s.single);
}
  where
    own :
        (o : FeeOrder)
        → (is_order order_id o ≡ true → hash_is hash o.dev_fee_payment_hash ≡ true)
        → accounts (sent order_id hash ∷ log) o order_id hash ≡ true
    own o st = elim (Bool-cases (o.id == order_id)) [
      | inl this ↦ let held = st this in rw held (ground arith)
      | inr other ↦ rw other refl
    ]

    rows :
        (os : List FeeOrder)
        → All (λ o. is_order order_id o ≡ true → hash_is hash o.dev_fee_payment_hash ≡ true) os
        → All (RowOk log) os
        → All (RowOk (sent order_id hash ∷ log)) os
    rows [] st r = tt
    rows (o ∷ os) st r = (
      (
        (
          own o st.0,
          Sends-map (λ id h. accounts log o id h ≡ true)
              (λ id h. accounts (sent order_id hash ∷ log) o id h ≡ true)
              (accounts-sent order_id hash log o) log r.0.0,
        ),
        r.0.1,
      ),
      rows os st.1 r.1,
    )
