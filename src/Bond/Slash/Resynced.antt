-- ===== src/Bond/Slash/Resynced.antt =====
-- The parent's running total after the slash of a slice (src/app/bond/slash.rs).
use mostro.Prelude.{
  ℕ, String, Bool, true, ◌≡◌, refl, ap, ◌∙◌, sym, Option, none, some, List, [], ◌∷◌, All,
  Bool-cases, inl, inr, ◌==◌,
}
use mostro.Prelude.Int.{ℤ, leb_ℤ, pos}
use mostro.Prelude.Float.{Float64}
use mostro.Result.{Result, ok, err}
use mostro.Bond.Types.{BondSlashReason, locked}
use mostro.Bond.Model.{Bond}
use mostro.Bond.Env.{Order}
use mostro.Bond.Table.{World, pure, lift, execute, cas, update_rows, is_faulty}
use mostro.Bond.Payout.{or_err}
use mostro.Bond.Queries.{is_slice_of, insert_where, stating, sum_slices}
use mostro.Bond.Slash.Ends.{Ends, bind-Ends, lift-Ends}
use mostro.Bond.Slash.Sums.{slice_total, sum-update_rows}
use mostro.Bond.Slash.Conserved.{summed}
use mostro.Bond.Slash.Range.{
  may_slash, set_slashed_share, update_slashed_share, insert_child, record_share, slash_slice,
  slice_share, record_maker_slice_slash, maker_key, positive,
}

-- A locked row of this id holds the total.
abbrev pub Holds : ℕ → ℤ → Bond → Type 0
Holds id total b = cas id locked b ≡ true → b.slashed_share_sats ≡ total

-- Each locked row of the parent's id holds what its slices' rows come to.
abbrev pub InStep : ℕ → List Bond → Type 0
InStep id bs = All (Holds id (slice_total id bs)) bs

any_end : {A : Type 0} (p : Result A × World) → Ends (λ _ _. Unit {0}) p
any_end (ok _, w) = tt
any_end (err _, w) = tt

module _ (id : ℕ) where
  stored :
      (total : ℤ) (bs : List Bond)
      → All (Holds id total) (update_rows (cas id locked) (set_slashed_share total) bs)
  unfolding update_rows
  stored total [] = tt
  stored total (b ∷ bs) = elim (Bool-cases (cas id locked b)) [
    | inl mine ↦ rw mine ((λ _. refl), stored total bs)
    | inr other ↦ rw other ((λ mine. absurd (cc)), stored total bs)
  ]

  execute-InStep :
      (total : ℤ) (w : World)
      → total ≡ slice_total id w.bonds
      → Ends (λ _ w'. InStep id w'.bonds) (execute (cas id locked) (set_slashed_share total) w)
  unfolding execute
  execute-InStep total w sums = elim (Bool-cases (is_faulty w.faults)) [
    | inl fault ↦ rw fault tt
    | inr fine ↦
        let same =
          sum-update_rows (is_slice_of id) (cas id locked) (set_slashed_share total) w.bonds
            (λ _. refl) (λ _. refl) in
        rw (fine, same, sym sums) (stored total w.bonds)
  ]

  update_slashed_share-InStep :
      (w : World) → Ends (λ _ w'. InStep id w'.bonds) (update_slashed_share id w)
  unfolding update_slashed_share stating pure
  update_slashed_share-InStep w =
      bind-Ends (λ total w'. (w'.bonds ≡ w.bonds) × (sum_slices id w.bonds ≡ ok total)) _
        (lift (sum_slices id w.bonds)) _ w (lift-Ends (sum_slices id w.bonds) w)
        (λ total w' read.
          bind-Ends (λ _ w''. InStep id w''.bonds) _
            (execute (cas id locked) (set_slashed_share total)) _ w'
            (execute-InStep total w'
              (summed id w.bonds total read.1 ∙ ap (slice_total id) (sym read.0)))
            (λ _ w'' done. done))

  -- What holds where a row was added.
  abbrev pub Recorded : Bool → World → Type 0
  Recorded added w = added ≡ true → InStep id w.bonds

  insert_child-InStep :
      (slice_id : ℕ) (child : Bond) (w : World) → Ends Recorded (insert_child id slice_id child w)
  unfolding insert_child pure
  insert_child-InStep slice_id child w =
      bind-Ends (λ _ _. Unit {0}) Recorded (insert_where (may_slash id slice_id) child) _ w
        (any_end _)
        (λ rows w' _. elim (Bool-cases (rows == 0)) [
          | inl none_added ↦ rw none_added (λ added. absurd (cc))
          | inr one_added ↦ rw one_added (
              bind-Ends (λ _ w''. InStep id w''.bonds) Recorded (update_slashed_share id) _ w'
                (update_slashed_share-InStep w') (λ _ w'' in_step. λ _. in_step))
        ])

module _ (f : Float64) (pct : f.F) (fresh : ℕ) (now : ℤ) (slice : Order) (parent : Bond)
    (reason : BondSlashReason) where
  record_share-InStep :
      (key : String) (share : ℤ) (w : World)
      → Ends (Recorded parent.id) (record_share f pct fresh now slice parent reason key share w)
  unfolding record_share pure
  record_share-InStep key share w = elim (Bool-cases (leb_ℤ share (pos 0))) [
    | inl nothing ↦ rw nothing (λ added. absurd (cc))
    | inr something ↦ rw something (insert_child-InStep parent.id slice.id _ w)
  ]

  slash_slice-InStep :
      (key : Option String) (max_fiat : Option ℤ) (w : World)
      → Ends (Recorded parent.id) (slash_slice f pct fresh now slice parent reason key max_fiat w)
  unfolding pure
  slash_slice-InStep none max_fiat w = λ added. absurd (cc)
  slash_slice-InStep (some key) none w = λ added. absurd (cc)
  slash_slice-InStep (some key) (some max_fiat) w =
      record_share-InStep key (slice_share f pct parent slice.fiat_amount max_fiat) w

  pub record_maker_slice_slash-InStep :
      (root : Order) (w : World)
      → Ends
          (Recorded parent.id)
          (record_maker_slice_slash f pct fresh now slice root parent reason w)
  unfolding record_maker_slice_slash
  record_maker_slice_slash-InStep root w =
      bind-Ends (λ _ _. Unit {0}) (Recorded parent.id) (lift (or_err slice.kind)) _ w (any_end _)
        (λ kind w' _. slash_slice-InStep (maker_key slice kind) (positive root.max_amount) w')
