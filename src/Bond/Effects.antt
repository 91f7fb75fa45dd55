-- ===== src/Bond/Effects.antt =====
-- What the statements of the slashing and release handlers do to the rows and to the log of the
-- calls on hold invoices (src/app/bond/db.rs, src/app/bond/crud.rs).
use mostro.Prelude.{ℕ, Bool, ◌≡◌, refl, ◌∙◌, Bool-cases, inl, inr, ◌==◌, arith}
use mostro.Bond.Model.{Bond}
use mostro.Bond.Table.{World, pure, raise, execute, update_rows, count_rows, is_faulty}
use mostro.Bond.Statements.{execute_fault, execute_fine}
use mostro.Bond.Answers.{Answer, bind-Answer, update_rows-none}
use mostro.Bond.Queries.{update, overwrite}

-- The rewriting of the rows that fit, and no call.
pub record Writes (fits : Bond → Bool) (change : Bond → Bond) (w : World) (rows : ℕ) (w' : World)
    : Type 0 where
  pub counted : rows ≡ count_rows fits w.bonds
  pub written : w'.bonds ≡ update_rows fits change w.bonds
  pub silent : w'.htlc_calls ≡ w.htlc_calls

pub execute-Writes :
    (fits : Bond → Bool) (change : Bond → Bond) (w : World)
    → Answer w.bonds (Writes fits change w) (execute fits change w)
execute-Writes fits change w = elim (Bool-cases (is_faulty w.faults)) [
  | inl fault ↦ rw (execute_fault fits change w fault) refl
  | inr fine ↦
      rw (execute_fine fits change w fine)
        (record { counted = refl; written = refl; silent = refl })
]

abbrev pub same_id : Bond → Bond → Bool
same_id bond b = b.id == bond.id

-- The whole row is overwritten, or an error leaves the table.
abbrev pub Updates : Bond → World → Unit {0} → World → Type 0
Updates bond w _ w' =
    (w'.bonds ≡ update_rows (same_id bond) (overwrite bond) w.bonds)
    × (w'.htlc_calls ≡ w.htlc_calls)

pub update-Updates : (bond : Bond) (w : World) → Answer w.bonds (Updates bond w) (update bond w)
unfolding update raise pure
update-Updates bond w =
    bind-Answer w.bonds (Writes (same_id bond) (overwrite bond) w) (Updates bond w)
      (execute (same_id bond) (overwrite bond)) _ w
      (execute-Writes (same_id bond) (overwrite bond) w)
      (λ rows w' h. elim (Bool-cases (rows == 0)) [
        | inl missed ↦
            rw missed
              (h.written ∙ update_rows-none (same_id bond) (overwrite bond) w.bonds (ground arith))
        | inr hit ↦ rw hit (h.written, h.silent)
      ])
