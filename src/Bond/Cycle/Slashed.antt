-- ===== src/Bond/Cycle/Slashed.antt =====
-- The last write of a payout that the node settled (src/app/bond/payout.rs, `slash_after_success`).
use mostro.Prelude.{
  ℕ, zero, suc, ◌≡◌, refl, sym, ◌∙◌, Bool, true, false, Bool-cases, List, [], ◌∷◌, inl, inr, ◌==◌,
  if◌then◌else◌, arith,
}
use mostro.Prelude.Int.{ℤ}
use mostro.Result.{Result, ok, err, db_access}
use mostro.Bond.Types.{pending_payout, slashed}
use mostro.Bond.Model.{Bond}
use mostro.Bond.Env.{Env}
use mostro.Bond.Table.{World, M, ◌>>=◌, lift, notify, cas, update_rows, is_faulty, later_faults}
use mostro.Bond.Statements.{execute_fault, execute_fine}
use mostro.Bond.Answers.{Answer, bind-Answer, lift-Reads}
use mostro.Bond.Payout.{
  enqueue_completed, notify_payout_completed, slash_attempts, slash_after_success,
  slash_cas_max_attempts, set_state,
}

-- The statements fail one after another, `left` of them at least.
abbrev pub keeps_failing : ℕ → List Bool → Bool
keeps_failing zero faults = true
keeps_failing (suc left) [] = false
keeps_failing (suc left) (false ∷ faults) = false
keeps_failing (suc left) (true ∷ faults) = keeps_failing left faults

failing_fault :
    (left : ℕ) (faults : List Bool)
    → is_faulty faults ≡ true
    → keeps_failing (suc left) faults ≡ keeps_failing left (later_faults faults)
failing_fault left [] h = absurd (ground arith)
failing_fault left (true ∷ faults) h = refl
failing_fault left (false ∷ faults) h = absurd (ground arith)

failing_fine :
    (left : ℕ) (faults : List Bool)
    → is_faulty faults ≡ false
    → keeps_failing (suc left) faults ≡ false
failing_fine left [] h = refl
failing_fine left (true ∷ faults) h = absurd (ground arith)
failing_fine left (false ∷ faults) h = refl

unchanged :
    {A : Type 0} (bs : List Bond) (p : Result A × World)
    → Answer bs (λ _ w. w.bonds ≡ bs) p
    → p.1.bonds ≡ bs
unchanged bs (ok a, w) h = h
unchanged bs (err e, w) h = h

then_lift :
    {A B : Type 0} (bs : List Bond) (r : Result A) (f : A → M B) (w : World)
    → w.bonds ≡ bs
    → ((a : A) (w' : World) → w'.bonds ≡ bs → Answer bs (λ _ w'. w'.bonds ≡ bs) (f a w'))
    → Answer bs (λ _ w'. w'.bonds ≡ bs) ((lift r >>= f) w)
then_lift bs r f w h k =
    bind-Answer bs (λ a w'. (w'.bonds ≡ bs) × (r ≡ ok a)) _ (lift r) f w (lift-Reads bs r w h)
      (λ a w' got. k a w' got.0)

completed-Answer :
    (env : Env) (bond : Bond) (share : ℤ) (bs : List Bond) (w : World)
    → w.bonds ≡ bs
    → Answer bs (λ _ w'. w'.bonds ≡ bs) (enqueue_completed env bond share w)
unfolding enqueue_completed notify
completed-Answer env bond share bs w h = then_lift bs _ _ w h (λ found w1 h1.
    then_lift bs _ _ w1 h1 (λ order w2 h2. then_lift bs _ _ w2 h2 (λ reason w3 h3.
      then_lift bs _ _ w3 h3 (λ recipient w4 h4.
        then_lift bs _ _ w4 h4 (λ key w5 h5. then_lift bs _ _ w5 h5 (λ small w6 h6. h6))))))

told :
    (env : Env) (bond : Bond) (share : ℤ) (rows : ℕ) (w : World)
    → (if rows == 1 then notify_payout_completed env bond share w else w).bonds ≡ w.bonds
told env bond share rows w = elim (Bool-cases (rows == 1)) [
  | inl one ↦ rw one (unchanged w.bonds _ (completed-Answer env bond share w.bonds w refl))
  | inr other ↦ rw other refl
]

module _ (env : Env) (bond : Bond) (share : ℤ) where
  abbrev slash_rows : List Bond → List Bond
  slash_rows = update_rows (cas bond.id pending_payout) (set_state slashed)

  -- Both ends of the loop.
  abbrev Ends : ℕ → World → Type 0
  Ends left w =
      (keeps_failing left w.faults ≡ false
        → ((slash_attempts left env bond share w).0 ≡ ok tt)
          × ((slash_attempts left env bond share w).1.bonds ≡ slash_rows w.bonds))
      × (keeps_failing left w.faults ≡ true
          → ((slash_attempts left env bond share w).0 ≡ err db_access)
            × ((slash_attempts left env bond share w).1.bonds ≡ w.bonds))

  clash : (b : Bool) → b ≡ false → b ≡ true → ⊥
  clash b h k = ground arith

  fine-Ends : (left : ℕ) (w : World) → is_faulty w.faults ≡ false → Ends (suc left) w
  unfolding slash_attempts
  fine-Ends left w fine =
      rw (execute_fine (cas bond.id pending_payout) (set_state slashed) w fine) (
        λ _. (refl, told env bond share _ _),
        λ h. absurd (clash (keeps_failing (suc left) w.faults) (failing_fine left w.faults fine) h),
      )

  slash_attempts-Ends : (left : ℕ) (w : World) → Ends left w
  unfolding slash_attempts
  slash_attempts-Ends zero w = (λ h. absurd (ground arith), λ _. (refl, refl))
  slash_attempts-Ends (suc left) w = elim (Bool-cases (is_faulty w.faults)) [
    | inl fault ↦
        let w' = record w { faults = later_faults w.faults } in
        let step = sym (failing_fault left w.faults fault) in
        rw (execute_fault (cas bond.id pending_payout) (set_state slashed) w fault) (
          λ h. (slash_attempts-Ends left w').0 (step ∙ h),
          λ h. (slash_attempts-Ends left w').1 (step ∙ h),
        )
    | inr fine ↦ fine-Ends left w fine
  ]

-- After a payment that the node settled, the bond's pending-payout rows become slashed, and the call
-- succeeds, unless five statements in a row fail; then it answers the database error and the table
-- is as it was.
pub slash_after_success-Ends :
    (env : Env) (bond : Bond) (share : ℤ) (w : World)
    → ((slash_after_success env bond share w).0
        ≡ (if keeps_failing slash_cas_max_attempts w.faults then err db_access else ok tt))
      × ((slash_after_success env bond share w).1.bonds ≡ (
          if keeps_failing slash_cas_max_attempts w.faults
          then w.bonds
          else update_rows (cas bond.id pending_payout) (set_state slashed) w.bonds))
unfolding slash_after_success
slash_after_success-Ends env bond share w =
    elim (Bool-cases (keeps_failing slash_cas_max_attempts w.faults)) [
      | inl fails ↦ rw fails ((slash_attempts-Ends env bond share 5 w).1 fails)
      | inr lands ↦ rw lands ((slash_attempts-Ends env bond share 5 w).0 lands)
    ]
