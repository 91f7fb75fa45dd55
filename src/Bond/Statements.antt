-- ===== src/Bond/Statements.antt =====
-- What a statement on the `bonds` table and the `?` after it compute to (src/app/bond/db.rs).
use mostro.Prelude.{Bool, true, false, ◌≡◌, refl, ap, ◌∙◌}
use mostro.Result.{Result, ok, err, Error, db_access}
use mostro.Bond.Model.{Bond}
use mostro.Bond.Table.{World, M, ◌>>=◌, execute, update_rows, count_rows, is_faulty, later_faults}

pub execute_fault :
    (fits : Bond → Bool) (change : Bond → Bond) (w : World)
    → is_faulty w.faults ≡ true
    → execute fits change w ≡ (err db_access, record w { faults = later_faults w.faults })
unfolding execute
execute_fault fits change w fault = rw fault refl

pub execute_fine :
    (fits : Bond → Bool) (change : Bond → Bond) (w : World)
    → is_faulty w.faults ≡ false
    → execute fits change w ≡ (
      ok (count_rows fits w.bonds),
      record w { bonds = update_rows fits change w.bonds; faults = later_faults w.faults },
    )
unfolding execute
execute_fine fits change w fine = rw fine refl

-- `?` on a result.
abbrev pub continue : {A B : Type 0} → (A → M B) → Result A × World → Result B × World
continue f (ok a, w) = f a w
continue f (err e, w) = (err e, w)

continued :
    {A B : Type 0} (f : A → M B) (p : Result A × World)
    → (let (r, w) = p in elim r as (λ _. Result B × World) [ ok a ↦ f a w | err e ↦ (err e, w) ])
      ≡ continue f p
continued f (ok a, w) = refl
continued f (err e, w) = refl

pub bind_continue :
    {A B : Type 0} (m : M A) (f : A → M B) (w : World) → (m >>= f) w ≡ continue f (m w)
unfolding ◌>>=◌
bind_continue m f w = continued f (m w)

pub bind_ok :
    {A B : Type 0} (m : M A) (f : A → M B) (a : A) (w w' : World)
    → m w ≡ (ok a, w')
    → (m >>= f) w ≡ f a w'
bind_ok m f a w w' h = bind_continue m f w ∙ ap (continue f) h

pub bind_err :
    {A B : Type 0} (m : M A) (f : A → M B) (e : Error) (w w' : World)
    → m w ≡ (err e, w')
    → (m >>= f) w ≡ (err e, w')
bind_err m f e w w' h = bind_continue m f w ∙ ap (continue f) h
