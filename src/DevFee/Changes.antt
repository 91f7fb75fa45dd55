-- ===== src/DevFee/Changes.antt =====
-- What the statements on the development fee's columns do to a sound row (src/app/dev_fee.rs).
use text.Mathlib.Text.{◌==◌ as str_eq}
use text.Mathlib.TextEquality.{eq_iff}
use mathlib.Core.Path.{subst}
use mostro.Prelude.{
  ℕ, String, Bool, true, false, not, ◌&&◌, ◌||◌, ◌≡◌, refl, sym, ap, ◌∙◌, Option, none, some, List,
  ◌==◌, Bool-cases, inl, inr, arith,
}
use mostro.PaymentLog.{Entry, Sends, Sends-both, Sends-map, has_failed}
use mostro.DevFee.Table.{FeeOrder}
use mostro.DevFee.Payment.{is_pending}
use mostro.DevFee.Columns.{hash_is, is_pending_hash, is_unset}
use mostro.DevFee.Sound.{IsHash, Hashes, accounts, RowOk}

-- A row that holds a hash holds no other.
hash_is-same : (x : Option String) (a b : String) → hash_is a x ≡ true → hash_is b x ≡ true → a ≡ b
hash_is-same none a b p q = absurd (cc)
hash_is-same (some m) a b p q = sym ((eq_iff m a).0 p) ∙ (eq_iff m b).0 q

pub is_pending_hash-holds :
    (x : Option String) (a : String) → hash_is a x ≡ true → is_pending_hash x ≡ is_pending a
is_pending_hash-holds none a p = absurd (cc)
is_pending_hash-holds (some m) a p = ap is_pending ((eq_iff m a).0 p)

marker-holds :
    (x : Option String) (marker h : String)
    → hash_is marker x ≡ true
    → is_pending marker ≡ true
    → IsHash h
    → hash_is h x ≡ false
marker-holds x marker h p q is_hash = elim (Bool-cases (hash_is h x)) [
  | inl also ↦ absurd (cc (ap is_pending (hash_is-same x marker h p also), q, is_hash.0))
  | inr other ↦ other
]

unset-holds : (x : Option String) (h : String) → is_unset x ≡ true → IsHash h → hash_is h x ≡ false
unset-holds none h p is_hash = refl
unset-holds (some m) h p is_hash = elim (Bool-cases (str_eq m h)) [
  | inl also ↦ absurd (cc (ap (λ s. str_eq s "") ((eq_iff m h).0 also), p, is_hash.1))
  | inr other ↦ other
]

-- An unpaid row that holds no hash of a payment: the payments of its order have failed.
abbrev pub over : List Entry → ℕ → ℕ → String → Bool
over log order_id id h = not (order_id == id) || has_failed h log

over-unheld :
    (log : List Entry) (o : FeeOrder) (id : ℕ) (h : String)
    → accounts log o id h ≡ true
    → o.dev_fee_paid ≡ false
    → hash_is h o.dev_fee_payment_hash ≡ false
    → over log o.id id h ≡ true
over-unheld log o id h a p q = ground arith

module _ (log : List Entry) (hashes : Hashes log) (o : FeeOrder) (ok : RowOk log o) where
  each :
      (R : ℕ → String → Type 0)
      → ((id : ℕ) (h : String) → accounts log o id h ≡ true → IsHash h → R id h)
      → Sends R log
  each R f =
      Sends-map (λ id h. (accounts log o id h ≡ true) × IsHash h) R (λ id h p. f id h p.0 p.1) log
        (Sends-both (λ id h. accounts log o id h ≡ true) (λ _ h. IsHash h) log ok.0 hashes)

  module _ (marker : String) (held : hash_is marker o.dev_fee_payment_hash ≡ true)
      (is_marker : is_pending marker ≡ true) where
    marked-unpaid : o.dev_fee_paid ≡ false
    marked-unpaid =
        let pending = is_pending_hash-holds o.dev_fee_payment_hash marker held in
        ground (arith, ok.1)

    -- The row of a claim that is being worked on.
    pub marked-over : Sends (λ id h. over log o.id id h ≡ true) log
    marked-over =
        each (λ id h. over log o.id id h ≡ true)
          (λ id h a is_hash.
            over-unheld log o id h a marked-unpaid
              (marker-holds o.dev_fee_payment_hash marker h held is_marker is_hash))

  -- So too a row that nobody has claimed.
  pub unset-over :
      o.dev_fee_paid ≡ false
      → is_unset o.dev_fee_payment_hash ≡ true
      → Sends (λ id h. over log o.id id h ≡ true) log
  unset-over fresh unset =
      each (λ id h. over log o.id id h ≡ true)
        (λ id h a is_hash.
          over-unheld log o id h a fresh (unset-holds o.dev_fee_payment_hash h unset is_hash))

  -- So too a row whose payment has failed.
  pub failed-over :
      (hash : String)
      → o.dev_fee_paid ≡ false
      → hash_is hash o.dev_fee_payment_hash ≡ true
      → has_failed hash log ≡ true
      → Sends (λ id h. over log o.id id h ≡ true) log
  failed-over hash fresh held lost =
      each (λ id h. over log o.id id h ≡ true)
        (λ id h a _. elim (Bool-cases (hash_is h o.dev_fee_payment_hash)) [
          | inl also ↦
              let same = hash_is-same o.dev_fee_payment_hash hash h held also in
              let gone = subst (λ s. has_failed s log ≡ true) same lost in ground arith
          | inr other ↦ over-unheld log o id h a fresh other
        ])

  -- Payment of the row settles its account with every payment.
  pub paid-RowOk :
      (o' : FeeOrder)
      → o'.dev_fee_paid ≡ true
      → is_pending_hash o'.dev_fee_payment_hash ≡ false
      → RowOk log o'
  paid-RowOk o' settled hash =
      (each (λ id h. accounts log o' id h ≡ true) (λ id h a _. ground arith), ground arith)

  -- A change that leaves what the row says.
  pub same-RowOk :
      (o' : FeeOrder)
      → o'.id ≡ o.id
      → o'.dev_fee_paid ≡ o.dev_fee_paid
      → o'.dev_fee_payment_hash ≡ o.dev_fee_payment_hash
      → RowOk log o'
  same-RowOk o' e f g =
      (each (λ id h. accounts log o' id h ≡ true) (λ id h a _. rw (e, f, g) a), rw (f, g) ok.1)

over-accounts :
    (log : List Entry) (o : FeeOrder) (id : ℕ) (h : String)
    → over log o.id id h ≡ true
    → accounts log o id h ≡ true
over-accounts log o id h p = ground arith

-- When all payments of the order have failed, its row may say anything but that it is paid while it
-- holds a marker.
pub over-RowOk :
    (log : List Entry) (order_id : ℕ) (o : FeeOrder)
    → o.id ≡ order_id
    → Sends (λ id h. over log order_id id h ≡ true) log
    → (o.dev_fee_paid && is_pending_hash o.dev_fee_payment_hash) ≡ false
    → RowOk log o
over-RowOk log order_id o same gone p = (
  Sends-map (λ id h. over log order_id id h ≡ true) (λ id h. accounts log o id h ≡ true)
      (λ id h q. over-accounts log o id h (rw same q)) log gone,
  p,
)
