-- ===== src/PayoutClaim/Owner.antt =====
-- Ownership of a payout's claim (src/db.rs): what other callers cannot take from its owner.
use text.Mathlib.Text.{◌==◌ as str_eq}
use mostro.Prelude.{
  ℕ, String, ◌≡◌, refl, sym, is_none, Bool, true, false, ◌&&◌, Bool-cases, Option, none, some, List,
  [], ◌∷◌, arith, inl, inr, if◌then◌else◌, ◌==◌,
}
use mostro.Prelude.Int.{ℤ}
use mostro.Prelude.Equality.{string_eq, beq_refl}
use mostro.Result.{ok}
use mostro.Prelude.Rows.{affects, rewrite}
use mostro.PayoutClaim.{
  OrderRow, equals, is, apply_update, stamped, settled_hold_invoice, unclaimed, owns, owns_settled,
  set_claim, claim_order_payout, touch_order_payout_claim, clear_order_payout, fail_order_payout,
}

-- The calls on the table, each with whether the database refuses it: the four statements, and the
-- other handlers' moves of an order to a status.
pub data Call : Type 0 where
  claim : Bool → ℕ → String → ℤ → Call
  touch : Bool → ℕ → String → Option ℤ → ℤ → Call
  clear fail : Bool → ℕ → String → Option ℤ → Call
  move : ℕ → String → Call

unfoldable pub call : Call → List OrderRow → List OrderRow
call (claim f id h now) os = (claim_order_payout f id h now os).1
call (touch f id h t now) os = (touch_order_payout_claim f id h t now os).1
call (clear f id h t) os = (clear_order_payout f id h t os).1
call (fail f id h t) os = (fail_order_payout f id h t os).1
call (move id status) os = rewrite (λ o. o.id == id) (λ o. record o { status = status }) os

unfoldable pub call_all : List Call → List OrderRow → List OrderRow
call_all [] os = os
call_all (c ∷ cs) os = call_all cs (call c os)

abbrev pub same_claim : ℕ → String → Option ℤ → ℕ → String → Option ℤ → Bool
same_claim id h t id' h' t' = id == id' && str_eq h h' && is t t'

-- The call does not name this claim. A new claim names none.
abbrev pub IsForeign : ℕ → String → Option ℤ → Call → Type 0
IsForeign id h t (claim _ _ _ _) = Unit
IsForeign id h t (touch _ id' h' t' _) = same_claim id h t id' h' t' ≡ false
IsForeign id h t (clear _ id' h' t') = same_claim id h t id' h' t' ≡ false
IsForeign id h t (fail _ id' h' t') = same_claim id h t id' h' t' ≡ false
IsForeign id h t (move _ _) = Unit

abbrev pub AllForeign : ℕ → String → Option ℤ → List Call → Type 0
AllForeign id h t [] = Unit
AllForeign id h t (c ∷ cs) = IsForeign id h t c × AllForeign id h t cs

is-same : (x a b : Option ℤ) → is x a ≡ true → is x b ≡ true → is a b ≡ true
is-same none none none p q = refl
is-same none none (some b) p q = absurd (ground arith)
is-same none (some a) b p q = absurd (ground arith)
is-same (some x) none b p q = absurd (ground arith)
is-same (some x) (some a) none p q = absurd (ground arith)
is-same (some x) (some a) (some b) p q = ground arith

is_refl : (x : ℤ) → is (some x) (some x) ≡ true
is_refl x = ground arith

equals-same :
    (x : Option String) (a b : String) → equals x a ≡ true → equals x b ≡ true → str_eq a b ≡ true
equals-same none a b p q = absurd (ground arith)
equals-same (some x) a b p q =
    ground (arith, string_eq.beq_iff x a, string_eq.beq_iff x b, string_eq.beq_iff a b)

id-same : (x a b : ℕ) → (x == a) ≡ true → (x == b) ≡ true → (a == b) ≡ true
id-same x a b p q = ground arith

&&-both : (a b : Bool) → (a && b) ≡ true → (a ≡ true) × (b ≡ true)
&&-both a b h = ground arith

-- Two claims that one row matches are the same.
owns-same :
    (id : ℕ) (h : String) (t : Option ℤ) (id' : ℕ) (h' : String) (t' : Option ℤ) (o : OrderRow)
    → owns id h t o ≡ true
    → owns id' h' t' o ≡ true
    → same_claim id h t id' h' t' ≡ true
unfolding owns
owns-same id h t id' h' t' o p q =
    let (p1, p2) = &&-both _ _ p in
    let (p3, p4) = &&-both _ _ p1 in
    let (q1, q2) = &&-both _ _ q in
    let (q3, q4) = &&-both _ _ q1 in
    rw
      (
        id-same o.id id id' p3 q3,
        equals-same o.payout_payment_hash h h' p4 q4,
        is-same o.payout_claimed_at t t' p2 q2,
      )
      refl

equals-is_none : (x : Option String) (h : String) → equals x h ≡ true → is_none x ≡ false
equals-is_none none h p = absurd (ground arith)
equals-is_none (some x) h p = refl

pub owns-set_claim :
    (id : ℕ) (h : String) (now : ℤ) (o : OrderRow)
    → unclaimed id o ≡ true
    → owns id h (some now) (set_claim h now o) ≡ true
unfolding unclaimed owns
owns-set_claim id h now o p =
    let (q, _) = &&-both (o.id == id && is_none o.payout_payment_hash) (settled_hold_invoice o) p in
    let (q, _) = &&-both (o.id == id) (is_none o.payout_payment_hash) q in
    rw (q, beq_refl h, is_refl now) refl

module _ (p fits : OrderRow → Bool) (change : OrderRow → OrderRow) where
  -- A statement that leaves the rows of `p` in `p` leaves one in.
  affects-rewrite :
      ((o : OrderRow) → p o ≡ true → p (if fits o then change o else o) ≡ true)
      → (os : List OrderRow) → affects p os ≡ true
      → affects p (rewrite fits change os) ≡ true
  unfolding affects rewrite
  affects-rewrite keeps [] h = h
  affects-rewrite keeps (o ∷ os) h = elim (Bool-cases (p o)) [
    | inl here ↦ rw (keeps o here) refl
    | inr other ↦ ground (arith, affects-rewrite keeps os (ground arith))
  ]

  affects-apply_update :
      (f : Bool)
      → ((o : OrderRow) → p o ≡ true → fits o ≡ false)
      → (os : List OrderRow) → affects p os ≡ true
      → affects p (apply_update f fits change os).1 ≡ true
  unfolding apply_update
  affects-apply_update true other os h = h
  affects-apply_update false other os h = affects-rewrite (λ o here. rw (other o here) here) os h

module _ (id : ℕ) (h : String) (t : Option ℤ) where
  pub owns-claimed : (id' : ℕ) (o : OrderRow) → owns id h t o ≡ true → unclaimed id' o ≡ false
  unfolding owns unclaimed
  owns-claimed id' o p =
      let (q, _) =
        &&-both (o.id == id && equals o.payout_payment_hash h) (is o.payout_claimed_at t) p in
      let (_, q) = &&-both (o.id == id) (equals o.payout_payment_hash h) q in
      ground (arith, equals-is_none o.payout_payment_hash h q)

  pub owns-foreign :
      (id' : ℕ) (h' : String) (t' : Option ℤ)
      → same_claim id h t id' h' t' ≡ false
      → (o : OrderRow) → owns id h t o ≡ true
      → owns id' h' t' o ≡ false
  owns-foreign id' h' t' differ o p = elim (Bool-cases (owns id' h' t' o)) [
    | inl both ↦ absurd (ground (arith, owns-same id h t id' h' t' o p both))
    | inr other ↦ other
  ]

  pub owns_settled-foreign :
      (id' : ℕ) (h' : String) (t' : Option ℤ)
      → same_claim id h t id' h' t' ≡ false
      → (o : OrderRow) → owns id h t o ≡ true
      → owns_settled id' h' t' o ≡ false
  unfolding owns_settled
  owns_settled-foreign id' h' t' differ o p = rw (owns-foreign id' h' t' differ o p) refl

  pub owns-moved :
      (id' : ℕ) (status : String) (o : OrderRow)
      → owns id h t o ≡ true
      → owns id h t (if o.id == id' then record o { status = status } else o) ≡ true
  unfolding owns
  owns-moved id' status o p = elim (Bool-cases (o.id == id')) [
    | inl this ↦ rw this p
    | inr other ↦ rw other p
  ]

  call-owned :
      (c : Call) (os : List OrderRow)
      → IsForeign id h t c
      → affects (owns id h t) os ≡ true
      → affects (owns id h t) (call c os) ≡ true
  unfolding call claim_order_payout touch_order_payout_claim clear_order_payout fail_order_payout
  call-owned (claim f id' h' now) os foreign p =
      affects-apply_update (owns id h t) _ _ f (owns-claimed id') os p
  call-owned (touch f id' h' t' now) os foreign p =
      affects-apply_update (owns id h t) _ _ f (owns_settled-foreign id' h' t' foreign) os p
  call-owned (clear f id' h' t') os foreign p =
      affects-apply_update (owns id h t) _ _ f (owns-foreign id' h' t' foreign) os p
  call-owned (fail f id' h' t') os foreign p =
      affects-apply_update (owns id h t) _ _ f (owns-foreign id' h' t' foreign) os p
  call-owned (move id' status) os foreign p =
      affects-rewrite (owns id h t) _ _ (owns-moved id' status) os p

  call_all-owned :
      (cs : List Call) (os : List OrderRow)
      → AllForeign id h t cs
      → affects (owns id h t) os ≡ true
      → affects (owns id h t) (call_all cs os) ≡ true
  unfolding call_all
  call_all-owned [] os foreign p = p
  call_all-owned (c ∷ cs) os foreign p =
      call_all-owned cs (call c os) foreign.1 (call-owned c os foreign.0 p)

-- The rows that were unclaimed are the caller's.
affects-claimed :
    (id : ℕ) (h : String) (now : ℤ) (os : List OrderRow)
    → affects (unclaimed id) os ≡ true
    → affects (owns id h (some now)) (rewrite (unclaimed id) (set_claim h now) os) ≡ true
unfolding affects rewrite
affects-claimed id h now [] p = p
affects-claimed id h now (o ∷ os) p = elim (Bool-cases (unclaimed id o)) [
  | inl here ↦ rw (here, owns-set_claim id h now o here) refl
  | inr other ↦ ground (arith, affects-claimed id h now os (ground arith))
]

pub granted-now : (b : Bool) (now t : ℤ) → stamped now (ok b) ≡ ok (some t) → (b ≡ true) × (now ≡ t)
granted-now true now t p = (refl, cc)
granted-now false now t p = absurd (cc)

claimed :
    (f : Bool) (id : ℕ) (h : String) (now t : ℤ) (os : List OrderRow)
    → (claim_order_payout f id h now os).0 ≡ ok (some t)
    → affects (owns id h (some t)) (claim_order_payout f id h now os).1 ≡ true
unfolding claim_order_payout apply_update
claimed true id h now t os p = absurd (cc)
claimed false id h now t os p =
    let (some_row, same) = granted-now (affects (unclaimed id) os) now t p in
    rw (sym same) (affects-claimed id h now os some_row)

-- Once a claim is granted, at the time `t` that it answers, and whatever calls of others follow,
-- refused or not (new claims, touches, releases of any other claim, moves of orders to a status),
-- the owner still holds the marker: its release is answered `true`.
pub claim_order_payout-owned :
    (f : Bool) (id : ℕ) (h : String) (now t : ℤ) (calls : List Call) (os : List OrderRow)
    → (claim_order_payout f id h now os).0 ≡ ok (some t)
    → AllForeign id h (some t) calls
    → (clear_order_payout false id h
        (some t)
        (call_all calls (claim_order_payout f id h now os).1)).0
      ≡ ok true
unfolding clear_order_payout apply_update
claim_order_payout-owned f id h now t calls os granted foreign =
    rw
      (call_all-owned id h (some t) calls (claim_order_payout f id h now os).1 foreign
        (claimed f id h now t os granted))
      refl
