-- ===== src/Bond/Answers.antt =====
-- What a handler answers, and the table that an error leaves (src/app/bond/).
use mostro.Prelude.{Bool, ◌≡◌, refl, ap, ◌∙◌, List, [], ◌∷◌, arith, Bool-cases, inl, inr}
use mostro.Result.{Result, ok, err}
use mostro.Bond.Model.{Bond}
use mostro.Bond.Table.{World, M, ◌>>=◌, lift, fetch, execute, update_rows, count_rows, is_faulty}
use mostro.Bond.Statements.{continue, bind_continue, execute_fault, execute_fine}

-- An error leaves these rows, and an answer fulfils `Post`.
abbrev pub Answer : {A : Type 0} → List Bond → (A → World → Type 0) → Result A × World → Type 0
Answer bs Post (ok a, w) = Post a w
Answer bs Post (err e, w) = w.bonds ≡ bs

-- A read: the rows stay, and the value fulfils `Q`.
abbrev pub Reads : {A : Type 0} → List Bond → (A → Type 0) → Result A × World → Type 0
Reads bs Q p = Answer bs (λ a w. (w.bonds ≡ bs) × Q a) p

continue-Answer :
    {A B : Type 0} (bs : List Bond) (Mid : A → World → Type 0) (Post : B → World → Type 0)
    (f : A → M B) (p : Result A × World)
    → Answer bs Mid p
    → ((a : A) (w : World) → Mid a w → Answer bs Post (f a w))
    → Answer bs Post (continue f p)
continue-Answer bs Mid Post f (ok a, w) h k = k a w h
continue-Answer bs Mid Post f (err e, w) h k = h

pub bind-Answer :
    {A B : Type 0} (bs : List Bond) (Mid : A → World → Type 0) (Post : B → World → Type 0) (m : M A)
    (f : A → M B) (w : World)
    → Answer bs Mid (m w)
    → ((a : A) (w' : World) → Mid a w' → Answer bs Post (f a w'))
    → Answer bs Post ((m >>= f) w)
bind-Answer bs Mid Post m f w h k =
    rw (bind_continue m f w) (continue-Answer bs Mid Post f (m w) h k)

lifted :
    {A : Type 0} (bs : List Bond) (r : Result A) (w : World)
    → w.bonds ≡ bs
    → Reads bs (λ a. r ≡ ok a) (r, w)
lifted bs (ok a) w h = (h, refl)
lifted bs (err e) w h = h

pub lift-Reads :
    {A : Type 0} (bs : List Bond) (r : Result A) (w : World)
    → w.bonds ≡ bs
    → Reads bs (λ a. r ≡ ok a) (lift r w)
unfolding lift
lift-Reads bs r w h = lifted bs r w h

pub fetch-Reads :
    {A : Type 0} (bs : List Bond) (read : List Bond → A) (w : World)
    → w.bonds ≡ bs
    → Reads bs (λ a. a ≡ read bs) (fetch read w)
unfolding fetch
fetch-Reads bs read w h = elim (Bool-cases (is_faulty w.faults)) [
  | inl fault ↦ rw fault h
  | inr fine ↦ rw fine (h, ap read h)
]

pub update_rows-none :
    (fits : Bond → Bool) (change : Bond → Bond) (bs : List Bond)
    → count_rows fits bs ≡ 0
    → update_rows fits change bs ≡ bs
unfolding update_rows count_rows
update_rows-none fits change [] h = refl
update_rows-none fits change (b ∷ bs) h = elim (Bool-cases (fits b)) [
  | inl fit ↦ absurd (ground arith)
  | inr other ↦ rw (other, update_rows-none fits change bs (rw other at h)) refl
]

-- A statement that hits no row changes none.
pub execute-Answer :
    (bs : List Bond) (fits : Bond → Bool) (change : Bond → Bond) (w : World)
    → w.bonds ≡ bs
    → Answer bs (λ rows w'. rows ≡ 0 → w'.bonds ≡ bs) (execute fits change w)
execute-Answer bs fits change w h = elim (Bool-cases (is_faulty w.faults)) [
  | inl fault ↦ rw (execute_fault fits change w fault) h
  | inr fine ↦
      rw (execute_fine fits change w fine)
        (λ missed. update_rows-none fits change w.bonds missed ∙ h)
]

pub map-Answer :
    {A : Type 0} (bs cs : List Bond) (P Q : A → World → Type 0) (p : Result A × World)
    → cs ≡ bs
    → ((a : A) (w : World) → P a w → Q a w)
    → Answer cs P p
    → Answer bs Q p
map-Answer bs cs P Q (ok a, w) same k h = k a w h
map-Answer bs cs P Q (err e, w) same k h = h ∙ same
