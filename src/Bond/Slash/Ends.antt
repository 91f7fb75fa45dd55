-- ===== src/Bond/Slash/Ends.antt =====
-- What a handler that answers leaves, and what a transaction does (src/app/bond/slash.rs).
use mostro.Prelude.{
  Bool, true, false, arith, ◌≡◌, refl, ◌⊎◌, inl, inr, List, if◌then◌else◌, Bool-cases,
}
use mostro.Result.{Result, ok, err}
use mostro.Bond.Model.{Bond}
use mostro.Bond.Table.{World, M, ◌>>=◌, pure, lift, fetch, is_faulty}
use mostro.Bond.Statements.{continue, bind_continue}
use mostro.Bond.Answers.{Answer}
use mostro.Bond.Queries.{transaction, commit}

-- A condition on an answer, and none on an error.
abbrev pub Ends : {A : Type 0} → (A → World → Type 0) → Result A × World → Type 0
Ends Post (ok a, w) = Post a w
Ends Post (err e, w) = Unit

continue-Ends :
    {A B : Type 0} (Mid : A → World → Type 0) (Post : B → World → Type 0) (f : A → M B)
    (p : Result A × World)
    → Ends Mid p
    → ((a : A) (w : World) → Mid a w → Ends Post (f a w))
    → Ends Post (continue f p)
continue-Ends Mid Post f (ok a, w) h k = k a w h
continue-Ends Mid Post f (err e, w) h k = tt

pub bind-Ends :
    {A B : Type 0} (Mid : A → World → Type 0) (Post : B → World → Type 0) (m : M A) (f : A → M B)
    (w : World)
    → Ends Mid (m w)
    → ((a : A) (w' : World) → Mid a w' → Ends Post (f a w'))
    → Ends Post ((m >>= f) w)
bind-Ends Mid Post m f w h k = rw (bind_continue m f w) (continue-Ends Mid Post f (m w) h k)

pub fetch-Ends :
    {A : Type 0} (read : List Bond → A) (w : World)
    → Ends (λ a w'. (w'.bonds ≡ w.bonds) × (a ≡ read w.bonds)) (fetch read w)
unfolding fetch
fetch-Ends read w = elim (Bool-cases (is_faulty w.faults)) [
  | inl fault ↦ rw fault tt
  | inr fine ↦ rw fine (refl, refl)
]

lifted :
    {A : Type 0} (r : Result A) (w : World)
    → Ends (λ a w'. (w'.bonds ≡ w.bonds) × (r ≡ ok a)) (r, w)
lifted (ok a) w = (refl, refl)
lifted (err e) w = tt

pub lift-Ends :
    {A : Type 0} (r : Result A) (w : World)
    → Ends (λ a w'. (w'.bonds ≡ w.bonds) × (r ≡ ok a)) (lift r w)
unfolding lift
lift-Ends r w = lifted r w

begun : (w : World) → Ends (λ _ w'. w'.bonds ≡ w.bonds) (fetch (λ _. tt) w)
unfolding fetch
begun w = elim (Bool-cases (is_faulty w.faults)) [
  | inl fault ↦ rw fault tt
  | inr fine ↦ rw fine refl
]

pub Answer-Ends :
    {A : Type 0} (bs : List Bond) (P Q : A → World → Type 0) (p : Result A × World)
    → ((a : A) (w : World) → P a w → Q a w)
    → Answer bs P p
    → Ends Q p
Answer-Ends bs P Q (ok a, w) k h = k a w h
Answer-Ends bs P Q (err e, w) k h = tt

pub map-Ends :
    {A : Type 0} (P Q : A → World → Type 0) (p : Result A × World)
    → ((a : A) (w : World) → P a w → Q a w)
    → Ends P p
    → Ends Q p
map-Ends P Q (ok a, w) k h = k a w h
map-Ends P Q (err e, w) k h = tt

-- The rows that the transaction leaves: those before, or those that its statements make.
module _ (Q : List Bond → Type 0) where
  abbrev Commits : Bool → World → Type 0
  Commits commits w = commits ≡ true → Q w.bonds

  committed : (commits : Bool) (w : World) → Commits commits w → Ends Commits (commit commits w)
  unfolding commit pure fetch
  committed true w h = elim (Bool-cases (is_faulty w.faults)) [
    | inl fault ↦ rw fault tt
    | inr fine ↦ rw fine h
  ]
  committed false w h = λ no. absurd (ground arith)

  resolved :
      (w : World) (p : Result Bool × World)
      → Ends Commits p
      → Answer w.bonds
          (λ _ w'. (w'.bonds ≡ w.bonds) ⊎ Q w'.bonds)
          (let (r, w') = p in
            elim r as (λ _. Result (Unit {0}) × World) [
              | ok commits ↦ (ok tt, if commits then w' else record w' { bonds = w.bonds })
              | err e ↦ (err e, record w' { bonds = w.bonds })
            ])
  resolved w (ok true, w') h = inr (h refl)
  resolved w (ok false, w') h = inl refl
  resolved w (err e, w') h = refl

  pub transaction-Answer :
      (body : M Bool) (w : World)
      → ((w' : World) → w'.bonds ≡ w.bonds → Ends Commits (body w'))
      → Answer w.bonds (λ _ w'. (w'.bonds ≡ w.bonds) ⊎ Q w'.bonds) (transaction body w)
  unfolding transaction
  transaction-Answer body w h = resolved w _ (
      bind-Ends (λ _ w'. w'.bonds ≡ w.bonds) Commits (fetch (λ _. tt)) _ w (begun w)
        (λ _ w' same. bind-Ends Commits Commits body commit w' (h w' same) committed))
