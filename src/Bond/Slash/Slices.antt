-- ===== src/Bond/Slash/Slices.antt =====
-- What the statements of a slice's slash do to the rows of the slice (src/app/bond/slash.rs).
use mostro.Prelude.{
  ℕ, suc, Bool, true, false, ◌≡◌, refl, List, [], ◌∷◌, ◌++◌, Bool-cases, inl, inr, arith,
}
use mostro.Prelude.Int.{ℤ}
use mostro.Result.{Result, ok, err}
use mostro.Bond.Model.{Bond}
use mostro.Bond.Table.{World, M, ◌>>=◌, execute, update_rows, count_rows, is_faulty}
use mostro.Bond.Statements.{continue, bind_continue}
use mostro.Bond.Queries.{is_slice_child, insert_where}
use mostro.Bond.Slash.Range.{any, set_slashed_share}

-- What the rows show of a statement that keeps their amounts and parents.
module _ (parent_id : ℕ) (slice_id : ℕ) where
  pub count-update_rows :
      (fits : Bond → Bool) (total : ℤ) (bs : List Bond)
      → count_rows
          (is_slice_child parent_id slice_id)
          (update_rows fits (set_slashed_share total) bs)
        ≡ count_rows (is_slice_child parent_id slice_id) bs
  unfolding update_rows count_rows
  count-update_rows fits total [] = refl
  count-update_rows fits total (b ∷ bs) = elim (Bool-cases (fits b)) [
    | inl fit ↦ rw (fit, count-update_rows fits total bs) refl
    | inr other ↦ rw (other, count-update_rows fits total bs) refl
  ]

  pub count-append :
      (row : Bond) (bs : List Bond)
      → is_slice_child parent_id slice_id row ≡ true
      → count_rows (is_slice_child parent_id slice_id) (bs ++ (row ∷ []))
        ≡ suc (count_rows (is_slice_child parent_id slice_id) bs)
  unfolding count_rows
  count-append row [] counts = rw counts refl
  count-append row (b ∷ bs) counts = elim (Bool-cases (is_slice_child parent_id slice_id b)) [
    | inl yes_it ↦ rw (yes_it, count-append row bs counts) refl
    | inr other ↦ rw (other, count-append row bs counts) refl
  ]

  pub count-any :
      (bs : List Bond)
      → any (is_slice_child parent_id slice_id) bs ≡ false
      → count_rows (is_slice_child parent_id slice_id) bs ≡ 0
  unfolding count_rows
  count-any [] h = refl
  count-any (b ∷ bs) h = elim (Bool-cases (is_slice_child parent_id slice_id b)) [
    | inl yes_it ↦ absurd (ground arith)
    | inr other ↦ rw other (count-any bs (rw other at h))
  ]

module _ (Q : List Bond → Type 0) where
  continue-rows :
      {A B : Type 0} (f : A → M B) (p : Result A × World)
      → Q p.1.bonds
      → ((a : A) (w : World) → Q w.bonds → Q (f a w).1.bonds)
      → Q (continue f p).1.bonds
  continue-rows f (ok a, w) h k = k a w h
  continue-rows f (err e, w) h k = h

  -- What holds of the rows at every point holds at the end, with an error or not.
  pub bind-rows :
      {A B : Type 0} (m : M A) (f : A → M B) (w : World)
      → Q (m w).1.bonds
      → ((a : A) (w' : World) → Q w'.bonds → Q (f a w').1.bonds)
      → Q ((m >>= f) w).1.bonds
  bind-rows m f w h k = rw (bind_continue m f w) (continue-rows f (m w) h k)

  pub insert-rows :
      (guard : List Bond → Bool) (row : Bond) (w : World)
      → Q w.bonds
      → (guard w.bonds ≡ true → Q (w.bonds ++ (row ∷ [])))
      → Q (insert_where guard row w).1.bonds
  unfolding insert_where
  insert-rows guard row w h k = elim (Bool-cases (is_faulty w.faults)) [
    | inl fault ↦ rw fault h
    | inr fine ↦ rw fine (elim (Bool-cases (guard w.bonds)) [
      | inl allowed ↦ rw allowed (k allowed)
      | inr refused ↦ rw refused h
    ])
  ]

  pub execute-rows :
      (fits : Bond → Bool) (change : Bond → Bond) (w : World)
      → Q w.bonds
      → Q (update_rows fits change w.bonds)
      → Q (execute fits change w).1.bonds
  unfolding execute
  execute-rows fits change w h k = elim (Bool-cases (is_faulty w.faults)) [
    | inl fault ↦ rw fault h
    | inr fine ↦ rw fine k
  ]
