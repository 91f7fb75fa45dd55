-- ===== src/PayoutClaim/Statements.antt =====
-- Each statement on a payout's claim (src/db.rs) does to the table what its operation does to the
-- leases.
use text.Mathlib.Text.{◌==◌ as str_eq}
use text.Mathlib.TextEquality.{eq_iff}
use mostro.Prelude.{
  ℕ, String, ◌≡◌, refl, ap, ◌∙◌, is_none, Bool, true, false, ◌&&◌, Bool-cases, Option, none, some,
  List, [], ◌∷◌, arith, inl, inr, if◌then◌else◌, ◌==◌,
}
use mostro.Prelude.Int.{ℤ}
use mostro.Prelude.Rows
use mostro.Prelude.Rows.{affects, rewrite, has_key, rewrite-IsKeyed}
use mostro.PayoutClaim.{
  OrderRow, equals, is, settled_hold_invoice, unclaimed, owns, owns_settled, set_claim,
  set_claimed_at, set_cleared, set_failed,
}
use mostro.PayoutClaim.Lease.{
  Lease, held_by, grant, renew, give_up, set_ready, put, accepts, holder_of, lease, leases,
}

-- A statement that implements an operation on the lease of an order.
pub record Implements (f : Lease → Option Lease) (id : ℕ) (fits : OrderRow → Bool)
    (change : OrderRow → OrderRow) : Type 0 where
  pub own : (o : OrderRow) → fits o ≡ true → (o.id == id) ≡ true
  pub same : (o : OrderRow) → (change o).id ≡ o.id
  pub meets :
      (o : OrderRow)
      → (o.id == id) ≡ true
      → f (lease o) ≡ (if fits o then some (lease (change o)) else none)

module _ {f : Lease → Option Lease} {id : ℕ} {fits : OrderRow → Bool} {change : OrderRow → OrderRow}
    (by : Implements f id fits change) where
  changed_first :
      (n : ℕ) (o : OrderRow) (os : List OrderRow)
      → (o.id == n) ≡ true
      → leases ((if fits o then change o else o) ∷ os) n ≡ put f id (λ _. some (lease o)) n
  unfolding leases put
  changed_first n o os first = elim (Bool-cases (fits o)) [
    | inl hit ↦
        let this = by.own o hit in
        let key = by.same o in
        let new = by.meets o this in
        let there : (n == id) ≡ true = ground arith in rw (there, new, hit, key, first) refl
    | inr miss ↦ elim (Bool-cases (n == id)) [
      | inl there ↦ let kept = by.meets o (ground arith) in rw (miss, first, there, kept, miss) refl
      | inr elsewhere ↦ rw (miss, first, elsewhere) refl
    ]
  ]

  other_key :
      (n : ℕ) (o : OrderRow)
      → (o.id == n) ≡ false
      → ((if fits o then change o else o).id == n) ≡ false
  other_key n o other = elim (Bool-cases (fits o)) [
    | inl hit ↦ rw (hit, by.same o) other
    | inr miss ↦ rw miss other
  ]

  pub leases-rewrite :
      (n : ℕ) (os : List OrderRow) → leases (rewrite fits change os) n ≡ put f id (leases os) n
  unfolding leases put rewrite
  leases-rewrite n [] = elim (Bool-cases (n == id)) [ inl a ↦ rw a refl | inr a ↦ rw a refl ]
  leases-rewrite n (o ∷ os) = elim (Bool-cases (o.id == n)) [
    | inl first ↦ changed_first n o (rewrite fits change os) first ∙ rw first refl
    | inr later ↦ rw (other_key n o later, later) (leases-rewrite n os)
  ]

  none-fits :
      (os : List OrderRow)
      → affects (has_key (λ (o : OrderRow). o.id) id) os ≡ false
      → affects fits os ≡ false
  unfolding affects
  none-fits [] k = refl
  none-fits (o ∷ os) k =
      let none_later = none-fits os (ground arith) in
      elim (Bool-cases (fits o)) [
        | inl hit ↦ let this = by.own o hit in absurd (ground arith)
        | inr miss ↦ rw (miss, none_later) refl
      ]

  pub affects-accepts :
      (os : List OrderRow)
      → Rows.IsKeyed (λ (o : OrderRow). o.id) os
      → affects fits os ≡ accepts f id (leases os)
  unfolding affects accepts leases
  affects-accepts [] k = refl
  affects-accepts (o ∷ os) k = elim (Bool-cases (o.id == id)) [
    | inl this ↦ elim (Bool-cases (fits o)) [
      | inl hit ↦ let new = by.meets o this in rw (hit, this, new, hit) refl
      | inr miss ↦
          let kept = by.meets o this in
          let alone = none-fits os (ground arith) in rw (miss, this, alone, kept, miss) refl
    ]
    | inr other ↦ elim (Bool-cases (fits o)) [
      | inl hit ↦ let this = by.own o hit in absurd (cc)
      | inr miss ↦ rw (miss, other) (affects-accepts os k.1)
    ]
  ]

is_none-holder_of : (x : Option String) (t : Option ℤ) → is_none (holder_of x t) ≡ is_none x
is_none-holder_of none t = refl
is_none-holder_of (some h) t = refl

held_by-holder_of :
    (hash : String) (at : Option ℤ) (x : Option String) (t : Option ℤ)
    → held_by hash at (holder_of x t) ≡ (equals x hash && is t at)
held_by-holder_of hash at none t = refl
held_by-holder_of hash at (some h) t = refl

holder_of-equals :
    (hash : String) (x : Option String) (t : Option ℤ)
    → equals x hash ≡ true
    → holder_of x t ≡ some (hash, t)
holder_of-equals hash none t e = absurd (cc)
holder_of-equals hash (some h) t e = ap (λ s. some (s, t)) ((eq_iff h hash).0 e)

module _ (id : ℕ) (hash : String) (o : OrderRow) (this : (o.id == id) ≡ true) where
  grant-lease :
      (now : ℤ)
      → grant hash now (lease o)
        ≡ (if unclaimed id o then some (lease (set_claim hash now o)) else none)
  unfolding unclaimed settled_hold_invoice
  grant-lease now = rw (this, is_none-holder_of o.payout_payment_hash o.payout_claimed_at) refl

  renew-lease :
      (at : Option ℤ) (now : ℤ)
      → renew hash at now (lease o)
        ≡ (if owns_settled id hash at o then some (lease (set_claimed_at now o)) else none)
  unfolding owns_settled owns settled_hold_invoice
  renew-lease at now = elim (Bool-cases (equals o.payout_payment_hash hash)) [
    | inl mine ↦
        rw
          (
            this,
            held_by-holder_of hash at o.payout_payment_hash o.payout_claimed_at,
            holder_of-equals hash o.payout_payment_hash (some now) mine,
          )
          refl
    | inr other ↦
        rw (this, held_by-holder_of hash at o.payout_payment_hash o.payout_claimed_at, other) refl
  ]

  give_up-lease :
      (at : Option ℤ) (o' : OrderRow)
      → lease o' ≡ record (lease o) { holder = none }
      → give_up hash at (lease o) ≡ (if owns id hash at o then some (lease o') else none)
  unfolding owns
  give_up-lease at o' freed =
      rw (this, freed, held_by-holder_of hash at o.payout_payment_hash o.payout_claimed_at) refl

unclaimed-own : (id : ℕ) (o : OrderRow) → unclaimed id o ≡ true → (o.id == id) ≡ true
unfolding unclaimed
unclaimed-own id o u = ground arith

owns-own :
    (id : ℕ) (h : String) (t : Option ℤ) (o : OrderRow) → owns id h t o ≡ true → (o.id == id) ≡ true
unfolding owns
owns-own id h t o u = ground arith

owns_settled-own :
    (id : ℕ) (h : String) (t : Option ℤ) (o : OrderRow)
    → owns_settled id h t o ≡ true
    → (o.id == id) ≡ true
unfolding owns_settled
owns_settled-own id h t o u = owns-own id h t o (ground arith)

pub claim-Implements :
    (id : ℕ) (h : String) (now : ℤ) → Implements (grant h now) id (unclaimed id) (set_claim h now)
claim-Implements id h now = record {
  own = unclaimed-own id;
  same = λ _. refl;
  meets = λ o this. grant-lease id h o this now;
}

pub touch-Implements :
    (id : ℕ) (h : String) (at : Option ℤ) (now : ℤ)
    → Implements (renew h at now) id (owns_settled id h at) (set_claimed_at now)
touch-Implements id h at now = record {
  own = owns_settled-own id h at;
  same = λ _. refl;
  meets = λ o this. renew-lease id h o this at now;
}

pub clear-Implements :
    (id : ℕ) (h : String) (at : Option ℤ) → Implements (give_up h at) id (owns id h at) set_cleared
unfolding settled_hold_invoice
clear-Implements id h at = record {
  own = owns-own id h at;
  same = λ _. refl;
  meets = λ o this. give_up-lease id h o this at (set_cleared o) refl;
}

pub fail-Implements :
    (id : ℕ) (h : String) (at : Option ℤ) → Implements (give_up h at) id (owns id h at) set_failed
unfolding settled_hold_invoice
fail-Implements id h at = record {
  own = owns-own id h at;
  same = λ _. refl;
  meets = λ o this. give_up-lease id h o this at (set_failed o) refl;
}

pub move-Implements :
    (id : ℕ) (status : String)
    → Implements
        (set_ready (str_eq status "settled-hold-invoice"))
        id
        (λ o. o.id == id)
        (λ o. record o { status = status })
unfolding settled_hold_invoice
move-Implements id status = record {
  own = λ o this. this;
  same = λ _. refl;
  meets = λ o this. rw this refl;
}
