-- ===== src/Bond/Lock/Exclusive.antt =====
-- At most one taker's bond of an order is locked (src/app/bond/flow.rs).
use mostro.Prelude.{
  ℕ, suc, ◌≤◌, Bool, true, false, ◌≡◌, refl, ◌&&◌, not, List, [], ◌∷◌, if◌then◌else◌, Bool-cases,
  inl, inr, ◌==◌, arith,
}
use mostro.Prelude.Int.{ℤ}
use mostro.Bond.Types.{requested}
use mostro.Bond.Model.{Bond}
use mostro.Bond.Table.{World, cas, execute, update_rows, count_rows, is_faulty}
use mostro.Bond.Effects.{same_id}
use mostro.Bond.Queries.{stating}
use mostro.Bond.Slash.Range.{any}
use mostro.Bond.Lock.{set_locked, is_locked_taker, is_rival, lock_taker}

-- How many takers' bonds of the order are locked.
abbrev pub locked_takers : ℕ → List Bond → ℕ
locked_takers order_id bs = count_rows (is_locked_taker order_id) bs

count-cons :
    (p : Bond → Bool) (b : Bond) (bs : List Bond) → count_rows p (b ∷ bs) ≤ suc (count_rows p bs)
unfolding count_rows
count-cons p b bs = elim (Bool-cases (p b)) [
  | inl counts ↦ rw counts (ground arith)
  | inr skipped ↦ rw skipped (ground arith)
]

-- The winner's test, with the rivals' part of it given.
abbrev takes_part : Bond → Bool → Bond → Bool
takes_part bond free b = cas bond.id requested b && free

no_rival : (locks same : Bool) → (locks && not same) ≡ false → same ≡ false → locks ≡ false
no_rival locks same h k = ground arith

at_most : (l k : ℕ) (e : Bool) → e ≡ true → l ≤ suc k → l ≤ (if e then suc k else k)
at_most l k true h le = le
at_most l k false h le = absurd (ground arith)

under_one : {l k : ℕ} → l ≤ k → k ≤ 1 → l ≤ 1
under_one h k = ground arith

raised : (l m k : ℕ) → l ≤ suc m → m ≤ k → l ≤ suc k
raised l m k h le = ground arith

module _ (bond : Bond) (now : ℤ) where
  only_winner :
      (free : Bool) (bs : List Bond)
      → any (is_rival bond) bs ≡ false
      → locked_takers bond.order_id (update_rows (takes_part bond free) (set_locked now) bs)
        ≤ count_rows (same_id bond) bs
  unfolding update_rows count_rows
  only_winner free [] h = ground arith
  only_winner free (b ∷ bs) h = elim (Bool-cases (is_rival bond b)) [
    | inl rival ↦ absurd (ground arith)
    | inr fair ↦ elim (Bool-cases (b.id == bond.id)) [
      | inl mine ↦ at_most _ _ (b.id == bond.id) mine (
          raised _ _ _
            (count-cons (is_locked_taker bond.order_id)
              (if takes_part bond free b then set_locked now b else b) _)
            (only_winner free bs (rw fair at h)))
      | inr other ↦
          rw (other, no_rival (is_locked_taker bond.order_id b) (b.id == bond.id) fair other)
            (only_winner free bs (rw fair at h))
    ]
  ]

  none_taken : (bs : List Bond) → update_rows (takes_part bond false) (set_locked now) bs ≡ bs
  unfolding update_rows
  none_taken [] = refl
  none_taken (b ∷ bs) = elim (Bool-cases (cas bond.id requested b)) [
    | inl mine ↦ rw (mine, none_taken bs) refl
    | inr other ↦ rw (other, none_taken bs) refl
  ]

  decided :
      (bs : List Bond) (rivals : Bool)
      → any (is_rival bond) bs ≡ rivals
      → count_rows (same_id bond) bs ≤ 1
      → locked_takers bond.order_id bs ≤ 1
      → locked_takers bond.order_id (update_rows (takes_part bond (not rivals)) (set_locked now) bs)
        ≤ 1
  decided bs true h key one = rw (none_taken bs) one
  decided bs false h key one = under_one (only_winner true bs h) key

  -- Where the id is a key, and at most one taker's bond of the bond's order is locked, at most one is
  -- after the statement that locks the bond, whichever one that is and whether it fails.
  pub lock_taker-locked_takers :
      (w : World)
      → count_rows (same_id bond) w.bonds ≤ 1
      → locked_takers bond.order_id w.bonds ≤ 1
      → locked_takers bond.order_id (lock_taker bond now w).1.bonds ≤ 1
  unfolding lock_taker stating execute
  lock_taker-locked_takers w key one = elim (Bool-cases (is_faulty w.faults)) [
    | inl fault ↦ rw fault one
    | inr fine ↦ rw fine (decided w.bonds _ refl key one)
  ]
