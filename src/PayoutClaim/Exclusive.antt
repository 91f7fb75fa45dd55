-- ===== src/PayoutClaim/Exclusive.antt =====
-- A granted claim excludes the others (src/db.rs): no second payout of the order is started.
use mostro.Prelude.{
  ℕ, String, ◌≡◌, refl, sym, Bool, true, false, not, ◌&&◌, Bool-cases, Option, none, some, List, [],
  ◌∷◌, arith, inl, inr, if◌then◌else◌, ◌==◌,
}
use mostro.Prelude.Int.{ℤ}
use mostro.Result.{ok}
use mostro.Prelude.Rows.{affects, rewrite}
use mostro.PayoutClaim.{
  OrderRow, apply_update, unclaimed, owns, owns_settled, set_claim, claim_order_payout,
  touch_order_payout_claim, clear_order_payout, fail_order_payout,
}
use mostro.PayoutClaim.Owner.{
  Call, claim, touch, clear, fail, move, call, call_all, IsForeign, AllForeign, same_claim,
  owns-claimed, owns-foreign, owns_settled-foreign, owns-set_claim, granted-now,
}

-- No row that fits.
abbrev None : (OrderRow → Bool) → List OrderRow → Type 0
None fits os = affects fits os ≡ false

-- The primary key: at most one row has the id.
abbrev pub IsUnique : ℕ → List OrderRow → Type 0
IsUnique id [] = Unit
IsUnique id (o ∷ os) = ((o.id == id) ≡ true → None (λ p. p.id == id) os) × IsUnique id os

-- A row of the order that does not hold the claim.
unfoldable astray : ℕ → String → Option ℤ → OrderRow → Bool
astray id h t o = o.id == id && not (owns id h t o)

module _ (p fits : OrderRow → Bool) (change : OrderRow → OrderRow) where
  None-rewrite :
      ((o : OrderRow) → p o ≡ false → p (if fits o then change o else o) ≡ false)
      → (os : List OrderRow) → None p os
      → None p (rewrite fits change os)
  unfolding affects rewrite
  None-rewrite keeps [] n = refl
  None-rewrite keeps (o ∷ os) n =
      rw (keeps o (ground arith), None-rewrite keeps os (ground arith)) refl

module _ (id : ℕ) (h : String) (t : Option ℤ) where
  kept :
      (fits : OrderRow → Bool) (change : OrderRow → OrderRow)
      → ((o : OrderRow) → (change o).id ≡ o.id)
      → ((o : OrderRow) → owns id h t o ≡ true → fits o ≡ false)
      → (o : OrderRow) → astray id h t o ≡ false
      → astray id h t (if fits o then change o else o) ≡ false
  unfolding astray
  kept fits change same other o q = elim (Bool-cases (owns id h t o)) [
    | inl mine ↦ rw (other o mine) q
    | inr unowned ↦ elim (Bool-cases (fits o)) [
      | inl hit ↦
          let elsewhere : (o.id == id) ≡ false = ground arith in rw (hit, same o, elsewhere) refl
      | inr miss ↦ rw miss q
    ]
  ]

  -- A statement that fits no row of the claim, and keeps the ids, leads no row astray.
  astray-kept :
      (fits : OrderRow → Bool) (change : OrderRow → OrderRow)
      → ((o : OrderRow) → (change o).id ≡ o.id)
      → ((o : OrderRow) → owns id h t o ≡ true → fits o ≡ false)
      → (f : Bool) (os : List OrderRow) → None (astray id h t) os
      → None (astray id h t) (apply_update f fits change os).1
  unfolding apply_update
  astray-kept fits change same other true os n = n
  astray-kept fits change same other false os n =
      None-rewrite (astray id h t) fits change (kept fits change same other) os n

  astray-moved :
      (id' : ℕ) (status : String) (o : OrderRow)
      → astray id h t o ≡ false
      → astray id h t (if o.id == id' then record o { status = status } else o) ≡ false
  unfolding astray owns
  astray-moved id' status o q = elim (Bool-cases (o.id == id')) [
    | inl this ↦ rw this q
    | inr other ↦ rw other q
  ]

  call-astray :
      (c : Call) (os : List OrderRow)
      → IsForeign id h t c
      → None (astray id h t) os
      → None (astray id h t) (call c os)
  unfolding call claim_order_payout touch_order_payout_claim clear_order_payout fail_order_payout
  call-astray (claim f id' h' now) os foreign n =
      astray-kept _ _ (λ _. refl) (owns-claimed id h t id') f os n
  call-astray (touch f id' h' t' now) os foreign n =
      astray-kept _ _ (λ _. refl) (owns_settled-foreign id h t id' h' t' foreign) f os n
  call-astray (clear f id' h' t') os foreign n =
      astray-kept _ _ (λ _. refl) (owns-foreign id h t id' h' t' foreign) f os n
  call-astray (fail f id' h' t') os foreign n =
      astray-kept _ _ (λ _. refl) (owns-foreign id h t id' h' t' foreign) f os n
  call-astray (move id' status) os foreign n =
      None-rewrite (astray id h t) _ _ (astray-moved id' status) os n

  call_all-astray :
      (cs : List Call) (os : List OrderRow)
      → AllForeign id h t cs
      → None (astray id h t) os
      → None (astray id h t) (call_all cs os)
  unfolding call_all
  call_all-astray [] os foreign n = n
  call_all-astray (c ∷ cs) os foreign n =
      call_all-astray cs (call c os) foreign.1 (call-astray c os foreign.0 n)

  unfitting :
      (fits : OrderRow → Bool)
      → ((o : OrderRow) → owns id h t o ≡ true → fits o ≡ false)
      → ((o : OrderRow) → fits o ≡ true → (o.id == id) ≡ true)
      → (o : OrderRow) → astray id h t o ≡ false
      → fits o ≡ false
  unfolding astray
  unfitting fits other own o q = elim (Bool-cases (fits o)) [
    | inl hit ↦ elim (Bool-cases (owns id h t o)) [
      | inl mine ↦ other o mine
      | inr unowned ↦ absurd (ground (arith, own o hit))
    ]
    | inr miss ↦ miss
  ]

  -- When no row is astray, a statement on the order's unowned rows fits none.
  None-fits :
      (fits : OrderRow → Bool)
      → ((o : OrderRow) → owns id h t o ≡ true → fits o ≡ false)
      → ((o : OrderRow) → fits o ≡ true → (o.id == id) ≡ true)
      → (os : List OrderRow) → None (astray id h t) os
      → None fits os
  unfolding affects
  None-fits fits other own [] n = refl
  None-fits fits other own (o ∷ os) n =
      rw (unfitting fits other own o (ground arith), None-fits fits other own os (ground arith))
        refl

owned_astray :
    (id : ℕ) (h : String) (t : Option ℤ) (o : OrderRow)
    → owns id h t o ≡ true
    → astray id h t o ≡ false
unfolding astray
owned_astray id h t o mine = rw mine (ground arith)

-- A row of another order is not astray.
None-astray :
    (id : ℕ) (h : String) (t : Option ℤ) (os : List OrderRow)
    → None (λ o. o.id == id) os
    → None (astray id h t) os
unfolding affects astray
None-astray id h t [] n = refl
None-astray id h t (o ∷ os) n =
    let here : (o.id == id) ≡ false = ground arith in
    rw (here, None-astray id h t os (ground arith)) refl

None-unchanged :
    (p fits : OrderRow → Bool) (change : OrderRow → OrderRow)
    → ((o : OrderRow) → p o ≡ false → fits o ≡ false)
    → (os : List OrderRow) → None p os
    → rewrite fits change os ≡ os
unfolding affects rewrite
None-unchanged p fits change miss [] n = refl
None-unchanged p fits change miss (o ∷ os) n =
    rw (miss o (ground arith), None-unchanged p fits change miss os (ground arith)) refl

unclaimed-id : (id : ℕ) (o : OrderRow) → unclaimed id o ≡ true → (o.id == id) ≡ true
unfolding unclaimed
unclaimed-id id o u = ground arith

elsewhere-unclaimed : (id : ℕ) (o : OrderRow) → (o.id == id) ≡ false → unclaimed id o ≡ false
elsewhere-unclaimed id o e = ground (arith, unclaimed-id id o)

None-unclaimed : (id : ℕ) (os : List OrderRow) → None (λ p. p.id == id) os → None (unclaimed id) os
unfolding affects
None-unclaimed id [] n = refl
None-unclaimed id (o ∷ os) n =
    rw (elsewhere-unclaimed id o (ground arith), None-unclaimed id os (ground arith)) refl

astray-elsewhere :
    (id : ℕ) (h : String) (t : Option ℤ) (o : OrderRow)
    → (o.id == id) ≡ false
    → astray id h t o ≡ false
unfolding astray
astray-elsewhere id h t o e = rw e refl

claimed-astray :
    (id : ℕ) (h : String) (now : ℤ) (os : List OrderRow)
    → IsUnique id os
    → affects (unclaimed id) os ≡ true
    → None (astray id h (some now)) (rewrite (unclaimed id) (set_claim h now) os)
unfolding affects rewrite
claimed-astray id h now [] u p = refl
claimed-astray id h now (o ∷ os) u p = elim (Bool-cases (unclaimed id o)) [
  | inl here ↦
      let alone = u.0 (unclaimed-id id o here) in
      rw
        (
          here,
          None-unchanged (λ p. p.id == id) (unclaimed id) (set_claim h now) (elsewhere-unclaimed id)
              os alone,
          owned_astray id h (some now) (set_claim h now o) (owns-set_claim id h now o here),
          None-astray id h (some now) os alone,
        )
        refl
  | inr other ↦ elim (Bool-cases (o.id == id)) [
    | inl same ↦
        let none_left = None-unclaimed id os (u.0 same) in absurd (ground (arith, none_left))
    | inr elsewhere ↦
        rw
          (
            other,
            astray-elsewhere id h (some now) o elsewhere,
            claimed-astray id h now os u.1 (ground arith),
          )
          refl
  ]
]

claim-astray :
    (f : Bool) (id : ℕ) (h : String) (now t : ℤ) (os : List OrderRow)
    → (claim_order_payout f id h now os).0 ≡ ok (some t)
    → IsUnique id os
    → None (astray id h (some t)) (claim_order_payout f id h now os).1
unfolding claim_order_payout apply_update
claim-astray true id h now t os p u = absurd (cc)
claim-astray false id h now t os p u =
    let (some_row, same) = granted-now (affects (unclaimed id) os) now t p in
    rw (sym same) (claimed-astray id h now os u some_row)

owns-id :
    (id : ℕ) (h : String) (t : Option ℤ) (o : OrderRow)
    → owns_settled id h t o ≡ true
    → (o.id == id) ≡ true
unfolding owns owns_settled
owns-id id h t o p = ground arith

-- The order's id stands in at most one row. Once a claim is granted, at the time `t` that it
-- answers, and whatever calls of others follow, refused or not, every further claim of the order
-- and every touch with another hash or time is answered `None`, so its caller starts no payment.
pub claim_order_payout-excludes :
    (f : Bool) (id : ℕ) (h : String) (now t : ℤ) (calls : List Call) (os : List OrderRow)
    → (claim_order_payout f id h now os).0 ≡ ok (some t)
    → IsUnique id os
    → AllForeign id h (some t) calls
    → (h' : String) (t' : Option ℤ) (later : ℤ) → same_claim id h (some t) id h' t' ≡ false
    → ((claim_order_payout false id h' later
          (call_all calls (claim_order_payout f id h now os).1)).0
        ≡ ok none)
      × ((touch_order_payout_claim false id h' t' later
            (call_all calls (claim_order_payout f id h now os).1)).0
          ≡ ok none)
unfolding claim_order_payout touch_order_payout_claim apply_update
claim_order_payout-excludes f id h now t calls os granted unique foreign h' t' later differ =
    let os' = call_all calls (claim_order_payout f id h now os).1 in
    let sole =
      call_all-astray id h (some t) calls (claim_order_payout f id h now os).1 foreign
        (claim-astray f id h now t os granted unique) in
    (
      rw
          (None-fits id h (some t) (unclaimed id) (owns-claimed id h (some t) id) (unclaimed-id id)
            os' sole)
          refl,
      rw
          (None-fits id h (some t) (owns_settled id h' t')
            (owns_settled-foreign id h (some t) id h' t' differ) (owns-id id h' t') os' sole)
          refl,
    )
