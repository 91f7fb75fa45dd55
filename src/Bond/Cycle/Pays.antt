-- ===== src/Bond/Cycle/Pays.antt =====
-- The programs that start at most one payment (src/app/bond/payout.rs).
use mostro.Prelude.{◌≡◌, refl, sym, Bool, true, false, ◌∷◌, if◌then◌else◌, List}
use mostro.Result.{Result, ok, err}
use mostro.Bond.Table.{World, M, ◌>>=◌, lift, Send}
use mostro.Bond.Quiet.{Quiet}
use mostro.Bond.Cycle.{start}

-- At most one payment is started, and it is one that `P` allows.
pub data Paid (P : Send → Type 0) (before after : List Send) : Type 0 where
  nothing : after ≡ before → Paid P before after
  once : (send : Send) → P send → after ≡ send ∷ before → Paid P before after

pub record Pays (P : Send → Type 0) {A : Type 0} (m : M A) : Type 0 where
  pub pays : (w : World) → Paid P w.sends (m w).1.sends

module _ (P : Send → Type 0) where
  pub of_Quiet : {A : Type 0} (m : M A) → Quiet m → Pays P m
  of_Quiet m h = record { pays = λ w. nothing (h.sends w) }

  after_quiet :
      {A B : Type 0} (before : List Send) (p : Result A × World) (f : A → M B)
      → p.1.sends ≡ before
      → ((a : A) → p.0 ≡ ok a → Pays P (f a))
      → Paid P before (
          let (r, w') = p in
          (elim r as (λ _. Result B × World) [ ok a ↦ f a w' | err e ↦ (err e, w') ]).1.sends)
  after_quiet before (ok a, w') f h k = rw (sym h) ((k a refl).pays w')
  after_quiet before (err e, w') f h k = nothing h

  pub Quiet-then :
      {A B : Type 0} (m : M A) (f : A → M B) → Quiet m → ((a : A) → Pays P (f a)) → Pays P (m >>= f)
  unfolding ◌>>=◌
  Quiet-then m f h k = record { pays = λ w. after_quiet w.sends (m w) f (h.sends w) (λ a _. k a) }

  pub lift_then :
      {A B : Type 0} (r : Result A) (f : A → M B)
      → ((a : A) → r ≡ ok a → Pays P (f a))
      → Pays P (lift r >>= f)
  unfolding ◌>>=◌ lift
  lift_then r f k = record { pays = λ w. after_quiet w.sends (r, w) f refl k }

  pub start_then :
      {B : Type 0} (send : Send) (k : M B) → P send → Quiet k → Pays P (start send >>= λ _. k)
  unfolding ◌>>=◌ start
  start_then send k owed h = record {
    pays = λ w. once send owed (h.sends (record w { sends = send ∷ w.sends }));
  }

  pub branch :
      {A : Type 0} (test : Bool) (m k : M A)
      → (test ≡ true → Pays P m)
      → (test ≡ false → Pays P k)
      → Pays P (if test then m else k)
  branch true m k hm hk = hm refl
  branch false m k hm hk = hk refl
