-- ===== src/Bond/Rows.antt =====
-- What a handler does to each row of the `bonds` table: a relation between the rows before and
-- after, kept by every statement, is kept by the program that makes them (src/app/bond/).
use mostro.Prelude.{ℕ, Bool, true, false, ◌≡◌, List, [], ◌∷◌, Bool-cases, inl, inr, if◌then◌else◌}
use mostro.Result.{Result, ok, err}
use mostro.Bond.Model.{Bond}
use mostro.Bond.Table.{
  World, M, ◌>>=◌, pure, lift, execute, update_rows, fetch, notify, Notice, is_faulty,
}

-- The tables have as many rows, and each row is related to the one in its place.
abbrev pub Rows : (Bond → Bond → Type 0) → List Bond → List Bond → Type 0
Rows R [] [] = Unit
Rows R [] (_ ∷ _) = ⊥
Rows R (_ ∷ _) [] = ⊥
Rows R (b ∷ bs) (c ∷ cs) = R b c × Rows R bs cs

-- Whatever the table, the coming faults and the messages, and whether the call fails or not.
pub record Preserves {A : Type 0} (R : Bond → Bond → Type 0) (m : M A) : Type 0 where
  pub rows : (w : World) → Rows R w.bonds (m w).1.bonds

module _ (R : Bond → Bond → Type 0) (same : (b : Bond) → R b b) where
  pub Rows-refl : (bs : List Bond) → Rows R bs bs
  Rows-refl [] = tt
  Rows-refl (b ∷ bs) = (same b, Rows-refl bs)

  pub update_rows-Rows :
      (fits : Bond → Bool) (change : Bond → Bond) (bs : List Bond)
      → ((b : Bond) → fits b ≡ true → R b (change b))
      → Rows R bs (update_rows fits change bs)
  unfolding update_rows
  update_rows-Rows fits change [] h = tt
  update_rows-Rows fits change (b ∷ bs) h = elim (Bool-cases (fits b)) [
    | inl yes_fit ↦ (rw yes_fit (h b yes_fit), update_rows-Rows fits change bs h)
    | inr no_fit ↦ (rw no_fit (same b), update_rows-Rows fits change bs h)
  ]

  pub execute-Preserves :
      (fits : Bond → Bool) (change : Bond → Bond)
      → ((b : Bond) → fits b ≡ true → R b (change b))
      → Preserves R (execute fits change)
  unfolding execute
  execute-Preserves fits change h = record {
    rows = λ w. elim (Bool-cases (is_faulty w.faults)) [
      | inl fault ↦ rw fault (Rows-refl w.bonds)
      | inr fine ↦ rw fine (update_rows-Rows fits change w.bonds h)
    ];
  }

  pub fetch-Preserves : {A : Type 0} (read : List Bond → A) → Preserves R (fetch read)
  unfolding fetch
  fetch-Preserves read = record { rows = λ w. Rows-refl w.bonds }

  pub pure-Preserves : {A : Type 0} (a : A) → Preserves R (pure a)
  unfolding pure
  pure-Preserves a = record { rows = λ w. Rows-refl w.bonds }

  pub lift-Preserves : {A : Type 0} (r : Result A) → Preserves R (lift r)
  unfolding lift
  lift-Preserves r = record { rows = λ w. Rows-refl w.bonds }

  pub notify-Preserves : (n : Notice) → Preserves R (notify n)
  unfolding notify
  notify-Preserves n = record { rows = λ w. Rows-refl w.bonds }

module _ (R : Bond → Bond → Type 0) (chain : (b c d : Bond) → R b c → R c d → R b d) where
  pub Rows-trans : (bs cs ds : List Bond) → Rows R bs cs → Rows R cs ds → Rows R bs ds
  Rows-trans [] [] ds h k = k
  Rows-trans [] (c ∷ cs) ds h k = absurd h
  Rows-trans (b ∷ bs) [] ds h k = absurd h
  Rows-trans (b ∷ bs) (c ∷ cs) [] h k = absurd k
  Rows-trans (b ∷ bs) (c ∷ cs) (d ∷ ds) h k = (chain b c d h.0 k.0, Rows-trans bs cs ds h.1 k.1)

  after_bind :
      {A B : Type 0} (bs : List Bond) (p : Result A × World) (f : A → M B)
      → Rows R bs p.1.bonds
      → ((a : A) (w : World) → Rows R w.bonds (f a w).1.bonds)
      → Rows R bs (
          let (r, w') = p in
          (elim r as (λ _. Result B × World) [ ok a ↦ f a w' | err e ↦ (err e, w') ]).1.bonds)
  after_bind bs (ok a, w') f h k = Rows-trans bs w'.bonds _ h (k a w')
  after_bind bs (err e, w') f h k = h

  pub >>=-Preserves :
      {A B : Type 0} (m : M A) (f : A → M B)
      → Preserves R m
      → ((a : A) → Preserves R (f a))
      → Preserves R (m >>= f)
  unfolding ◌>>=◌
  >>=-Preserves m f h k = record {
    rows = λ w. after_bind w.bonds (m w) f (h.rows w) (λ a. (k a).rows);
  }

pub if-Preserves :
    (R : Bond → Bond → Type 0) {A : Type 0} (test : Bool) (m k : M A)
    → Preserves R m
    → Preserves R k
    → Preserves R (if test then m else k)
if-Preserves R true m k hm hk = hm
if-Preserves R false m k hm hk = hk

after_execute :
    (R : Bond → Bond → Type 0) {A : Type 0} (f : ℕ → A) (bs : List Bond) (p : Result ℕ × World)
    → Rows R bs p.1.bonds
    → Rows R bs (
        let (r, w') = p in
        (elim r as (λ _. Result A × World) [ ok a ↦ pure (f a) w' | err e ↦ (err e, w') ]).1.bonds)
unfolding pure
after_execute R f bs (ok n, w) h = h
after_execute R f bs (err e, w) h = h

-- A statement and a computation on the number of its rows.
pub execute_bind-Preserves :
    (R : Bond → Bond → Type 0) {A : Type 0} (same : (b : Bond) → R b b) (fits : Bond → Bool)
    (change : Bond → Bond) (f : ℕ → A)
    → ((b : Bond) → fits b ≡ true → R b (change b))
    → Preserves R (execute fits change >>= λ rows. pure (f rows))
unfolding ◌>>=◌ pure
execute_bind-Preserves R same fits change f h = record {
  rows = λ w.
      after_execute R f w.bonds (execute fits change w)
        ((execute-Preserves R same fits change h).rows w);
}
