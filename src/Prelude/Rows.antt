-- ===== src/Prelude/Rows.antt =====
-- The rows of a database's table as a list, and an `UPDATE` on them.
use Prim.Native.Nat.{ℕ}
use mathlib.Core.Path.{◌≡◌, refl, ap, ◌∙◌}
use mathlib.Core.Bool.{Bool, true, false, ◌||◌}
use mathlib.Core.List.{List, [], ◌∷◌}
use native.Mathlib.Omega.{arith}
use mostro.Prelude.Tests.{if◌then◌else◌, Bool-cases, ◌==◌}
use mostro.Prelude.Lists.{All}
use mathlib.Core.Logic.{inl, inr}

module _ {ℓ} {A : Type ℓ} where
  -- Whether the statement changes a row.
  unfoldable pub affects : (A → Bool) → List A → Bool
  affects fits [] = false
  affects fits (o ∷ os) = fits o || affects fits os

  unfoldable pub rewrite : (A → Bool) → (A → A) → List A → List A
  rewrite fits change [] = []
  rewrite fits change (o ∷ os) = (if fits o then change o else o) ∷ rewrite fits change os

-- A property that the change keeps on the rows that fit, given another of every row.
pub All-rewrite-given {ℓ κ μ} :
    {A : Type ℓ} (E : A → Type μ) (P : A → Type κ) (fits : A → Bool) (change : A → A)
    → ((o : A) → fits o ≡ true → E o → P o → P (change o))
    → (os : List A) → All E os
    → All P os
    → All P (rewrite fits change os)
unfolding rewrite
All-rewrite-given E P fits change keeps [] e h = tt
All-rewrite-given E P fits change keeps (o ∷ os) e h =
    (kept, All-rewrite-given E P fits change keeps os e.1 h.1)
  where
    kept : P (if fits o then change o else o)
    kept = elim (Bool-cases (fits o)) [
      | inl hit ↦ rw hit (keeps o hit e.0 h.0)
      | inr miss ↦ rw miss h.0
    ]

pub All-rewrite {ℓ κ} :
    {A : Type ℓ} (P : A → Type κ) (fits : A → Bool) (change : A → A)
    → ((o : A) → fits o ≡ true → P o → P (change o))
    → (os : List A) → All P os
    → All P (rewrite fits change os)
All-rewrite P fits change keeps os h =
    All-rewrite-given P P fits change (λ o hit _ p. keeps o hit p) os h h

-- A row that fits, with what holds of every row.
pub affects-row {ℓ κ} :
    {A : Type ℓ} (P : A → Type κ) (fits : A → Bool) (os : List A)
    → All P os
    → affects fits os ≡ true
    → (o : A) × (fits o ≡ true) × P o
unfolding affects
affects-row P fits [] h a = absurd (cc)
affects-row P fits (o ∷ os) h a = elim (Bool-cases (fits o)) [
  | inl hit ↦ (o, hit, h.0)
  | inr miss ↦ affects-row P fits os h.1 (ground arith)
]

-- A key: no two rows have the same.
module _ {ℓ} {A : Type ℓ} (key : A → ℕ) where
  abbrev pub has_key : ℕ → A → Bool
  has_key n o = key o == n

  abbrev pub IsKeyed : List A → Type 0
  IsKeyed [] = Unit
  IsKeyed (o ∷ os) = (affects (has_key (key o)) os ≡ false) × IsKeyed os

  module _ (fits : A → Bool) (change : A → A) (same : (o : A) → key (change o) ≡ key o) where
    key-changed : (o : A) → key (if fits o then change o else o) ≡ key o
    key-changed o = elim (Bool-cases (fits o)) [
      | inl hit ↦ rw hit (same o)
      | inr miss ↦ rw miss refl
    ]

    pub affects-key-rewrite :
        (n : ℕ) (os : List A)
        → affects (has_key n) (rewrite fits change os) ≡ affects (has_key n) os
    unfolding affects rewrite
    affects-key-rewrite n [] = refl
    affects-key-rewrite n (o ∷ os) = rw (key-changed o, affects-key-rewrite n os) refl

    pub rewrite-IsKeyed : (os : List A) → IsKeyed os → IsKeyed (rewrite fits change os)
    unfolding rewrite
    rewrite-IsKeyed [] k = tt
    rewrite-IsKeyed (o ∷ os) k = (
      affects-key-rewrite (key (if fits o then change o else o)) os
          ∙ ap (λ n. affects (has_key n) os) (key-changed o)
          ∙ k.0,
      rewrite-IsKeyed os k.1,
    )
