-- ===== src/Bond/Slash/Sums.antt =====
-- Sums over the rows of a parent bond, and the statements that keep them (src/app/bond/slash.rs).
use mostro.Prelude.{
  ℕ, Bool, true, ◌≡◌, refl, ◌∙◌, List, [], ◌∷◌, ◌++◌, keep, Bool-cases, inl, inr, if◌then◌else◌,
  arith, ◌&&◌,
}
use mostro.Prelude.Int.{
  ℤ, pos, negsuc, ◌+ℤ◌, ◌-ℤ◌, ◌≤ℤ◌, max_ℤ, i64, i64_max, i64_of_IsI64, int_laws,
}
use mostro.Bond.Model.{Bond}
use mostro.Bond.Table.{update_rows, insert_by, order_by}
use mostro.Bond.Queries.{sum_sats, is_slice_of, is_id}

-- What the slices' rows of a parent come to, and what all its rows do, the refund's too.
abbrev pub slice_total : ℕ → List Bond → ℤ
slice_total parent_id bs = sum_sats (keep (is_slice_of parent_id) bs)

abbrev pub is_child_of : ℕ → Bond → Bool
is_child_of parent_id b = is_id parent_id b.parent_bond_id

abbrev pub child_total : ℕ → List Bond → ℤ
child_total parent_id bs = sum_sats (keep (is_child_of parent_id) bs)

module _ (p fits : Bond → Bool) (change : Bond → Bond) where
  sum-update_row :
      (b : Bond) (bs cs : List Bond)
      → p (change b) ≡ p b
      → (change b).amount_sats ≡ b.amount_sats
      → sum_sats (keep p bs) ≡ sum_sats (keep p cs)
      → sum_sats (keep p ((if fits b then change b else b) ∷ bs)) ≡ sum_sats (keep p (b ∷ cs))
  sum-update_row b bs cs same_test same_amount h = elim (Bool-cases (fits b)) [
    | inl fit ↦ elim (Bool-cases (p b)) [
      | inl counts ↦ rw (fit, same_test, counts, same_amount, h) refl
      | inr skipped ↦ rw (fit, same_test, skipped) h
    ]
    | inr other ↦ elim (Bool-cases (p b)) [
      | inl counts ↦ rw (other, counts, h) refl
      | inr skipped ↦ rw (other, skipped) h
    ]
  ]

  -- A change that keeps the amount and the test.
  pub sum-update_rows :
      (bs : List Bond)
      → ((b : Bond) → p (change b) ≡ p b)
      → ((b : Bond) → (change b).amount_sats ≡ b.amount_sats)
      → sum_sats (keep p (update_rows fits change bs)) ≡ sum_sats (keep p bs)
  unfolding update_rows
  sum-update_rows [] same_test same_amount = refl
  sum-update_rows (b ∷ bs) same_test same_amount =
      sum-update_row b (update_rows fits change bs) bs (same_test b) (same_amount b)
        (sum-update_rows bs same_test same_amount)

pub associate : (x y z : ℤ) → (x +ℤ (y +ℤ z)) ≡ ((x +ℤ y) +ℤ z)
associate x y z = grind int_laws

commute : (x : ℤ) → (x +ℤ pos 0) ≡ (pos 0 +ℤ x)
commute x = grind int_laws

module _ (p : Bond → Bool) where
  keeps_one :
      (b row : Bond) (bs : List Bond) (extra : ℤ)
      → sum_sats (keep p (bs ++ (row ∷ []))) ≡ (sum_sats (keep p bs) +ℤ extra)
      → sum_sats (keep p (b ∷ (bs ++ (row ∷ [])))) ≡ (sum_sats (keep p (b ∷ bs)) +ℤ extra)
  keeps_one b row bs extra h = elim (Bool-cases (p b)) [
    | inl counts ↦ rw (counts, h) (associate b.amount_sats (sum_sats (keep p bs)) extra)
    | inr skipped ↦ rw skipped h
  ]

  pub sum-append_counted :
      (row : Bond) (bs : List Bond)
      → p row ≡ true
      → sum_sats (keep p (bs ++ (row ∷ []))) ≡ (sum_sats (keep p bs) +ℤ row.amount_sats)
  sum-append_counted row [] counts = rw counts (commute row.amount_sats)
  sum-append_counted row (b ∷ bs) counts =
      keeps_one b row bs row.amount_sats (sum-append_counted row bs counts)

swap : (x y z : ℤ) → (x +ℤ (y +ℤ z)) ≡ (y +ℤ (x +ℤ z))
swap x y z = grind int_laws

-- The order of the rows does not matter.
module _ (p : Bond → Bool) (before : Bond → Bond → Bool) where
  swap_rows :
      (b c : Bond) (cs : List Bond)
      → sum_sats (keep p (c ∷ b ∷ cs)) ≡ sum_sats (keep p (b ∷ c ∷ cs))
  swap_rows b c cs = elim (Bool-cases (p b)) [
    | inl b_counts ↦ elim (Bool-cases (p c)) [
      | inl c_counts ↦ rw (b_counts, c_counts) (swap c.amount_sats b.amount_sats _)
      | inr c_skipped ↦ rw (b_counts, c_skipped) refl
    ]
    | inr b_skipped ↦ rw b_skipped refl
  ]

  under :
      (c : Bond) (bs cs : List Bond)
      → sum_sats (keep p bs) ≡ sum_sats (keep p cs)
      → sum_sats (keep p (c ∷ bs)) ≡ sum_sats (keep p (c ∷ cs))
  under c bs cs h = elim (Bool-cases (p c)) [
    | inl counts ↦ rw (counts, h) refl
    | inr skipped ↦ rw skipped h
  ]

  sum-insert_by :
      (b : Bond) (cs : List Bond)
      → sum_sats (keep p (insert_by before b cs)) ≡ sum_sats (keep p (b ∷ cs))
  unfolding insert_by
  sum-insert_by b [] = refl
  sum-insert_by b (c ∷ cs) = elim (Bool-cases (before c b)) [
    | inl first ↦
        rw first (under c (insert_by before b cs) (b ∷ cs) (sum-insert_by b cs) ∙ swap_rows b c cs)
    | inr later ↦ rw later refl
  ]

  pub sum-order_by :
      (bs : List Bond) → sum_sats (keep p (order_by before bs)) ≡ sum_sats (keep p bs)
  unfolding order_by
  sum-order_by [] = refl
  sum-order_by (b ∷ bs) =
      sum-insert_by b (order_by before bs) ∙ under b (order_by before bs) bs (sum-order_by bs)

pub keep-keep :
    (p q : Bond → Bool) (bs : List Bond) → keep p (keep q bs) ≡ keep (λ b. q b && p b) bs
keep-keep p q [] = refl
keep-keep p q (b ∷ bs) = elim (Bool-cases (q b)) [
  | inl fits ↦ rw (fits, keep-keep p q bs) refl
  | inr other ↦ rw (other, keep-keep p q bs) refl
]

larger : (x : ℤ) → pos 0 ≤ℤ x → max_ℤ x (pos 0) ≡ x
larger (pos n) h = ground arith
larger (negsuc n) h = absurd (ground arith)

-- What is left of an amount, as the code computes it.
pub remainder :
    (a t : ℤ) → pos 0 ≤ℤ t → t ≤ℤ a → a ≤ℤ i64_max → max_ℤ (i64 (a -ℤ t)) (pos 0) ≡ (a -ℤ t)
remainder a t low high fits =
    rw (i64_of_IsI64 (a -ℤ t) (grind int_laws, grind int_laws)) (larger (a -ℤ t) (grind int_laws))
