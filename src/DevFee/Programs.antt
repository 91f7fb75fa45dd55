-- ===== src/DevFee/Programs.antt =====
-- What holds after a program when something holds before it (src/app/dev_fee.rs).
use mostro.Prelude.{ℕ, String, Bool, true, ◌≡◌, Option, none, some, List, [], ◌∷◌, All}
use mostro.Prelude.{Bool-cases, inl, inr, keep}
use mostro.PaymentLog.{Entry}
use mostro.DevFee.Table.{
  FeeOrder, Fault, fine, refused, crash, Ledger, Task, ◌>>=◌, done, fate, select, select_at,
  observe, confirm, audit, for_each,
}

abbrev pub Ensures : {A : Type 0} → (Ledger → Type 0) → Task A → (A → Ledger → Type 0) → Type 0
Ensures P m Q = (w : Ledger) → P w → Q (m w).0 (m w).1

pub bind-Ensures :
    {A B : Type 0} (P : Ledger → Type 0) (Q : A → Ledger → Type 0) (R : B → Ledger → Type 0)
    (m : Task A) (f : A → Task B)
    → Ensures P m Q
    → ((a : A) → Ensures (Q a) (f a) R)
    → Ensures P (m >>= f) R
unfolding ◌>>=◌
bind-Ensures P Q R m f h k w p = k (m w).0 (m w).1 (h w p)

-- A predicate on the rows and on the log.
module _ (I : List FeeOrder → List Entry → Type 0) where
  abbrev pub Holds : Ledger → Type 0
  Holds w = I w.orders w.log

  -- A program that keeps it.
  abbrev pub Keeps : {A : Type 0} → Task A → Type 0
  Keeps m = Ensures Holds m (λ _. Holds)

  pub done-Keeps : {A : Type 0} (a : A) → Keeps (done a)
  unfolding done
  done-Keeps a w h = h

  pub bind-Keeps :
      {A B : Type 0} (m : Task A) (f : A → Task B)
      → Keeps m
      → ((a : A) → Keeps (f a))
      → Keeps (m >>= f)
  bind-Keeps m f h k = bind-Ensures Holds (λ _. Holds) (λ _. Holds) m f h k

  pub observe-Keeps : {A : Type 0} (answer : ℕ → A) → Keeps (observe answer)
  unfolding observe
  observe-Keeps answer w h = h

  pub confirm-Keeps : (order_id : ℕ) → Keeps (confirm order_id)
  unfolding confirm
  confirm-Keeps order_id w h = h

  pub audit-Keeps : (order_id : ℕ) (hash : String) → Keeps (audit order_id hash)
  unfolding audit
  audit-Keeps order_id hash w h = elim (Bool-cases w.down) [
    | inl down ↦ rw down h
    | inr up ↦ rw up h
  ]

  select_at-Keeps : {A : Type 0} (f : Fault) (read : List FeeOrder → A) → Keeps (select_at f read)
  select_at-Keeps fine read w h = h
  select_at-Keeps refused read w h = h
  select_at-Keeps crash read w h = h

  pub select-Keeps : {A : Type 0} (read : List FeeOrder → A) → Keeps (select read)
  unfolding select
  select-Keeps read w h = select_at-Keeps (fate w) read w h

  pub for_each-Keeps :
      {A : Type 0} (Q : A → Type 0) (body : A → Task (Unit {0}))
      → ((a : A) → Q a → Keeps (body a))
      → (rows : List A) → All Q rows
      → Keeps (for_each body rows)
  unfolding for_each
  for_each-Keeps Q body each [] qs = done-Keeps tt
  for_each-Keeps Q body each (a ∷ rest) qs =
      bind-Keeps (body a) (λ _. for_each body rest) (each a qs.0)
        (λ _. for_each-Keeps Q body each rest qs.1)

-- What a query answers when it goes through.
abbrev pub Read : {A : Type 0} → (A → Type 0) → Option A → Type 0
Read Q none = Unit
Read Q (some a) = Q a

select_at-Read :
    {A : Type 0} (Q : A → Type 0) (f : Fault) (read : List FeeOrder → A) (w : Ledger)
    → Q (read w.orders)
    → Read Q (select_at f read w).0
select_at-Read Q fine read w q = q
select_at-Read Q refused read w q = tt
select_at-Read Q crash read w q = tt

pub select-Read :
    {A : Type 0} (Q : A → Type 0) (read : List FeeOrder → A) (w : Ledger)
    → Q (read w.orders)
    → Read Q (select read w).0
unfolding select
select-Read Q read w q = select_at-Read Q (fate w) read w q

pub keep-All : {A : Type 0} (p : A → Bool) (xs : List A) → All (λ a. p a ≡ true) (keep p xs)
keep-All p [] = tt
keep-All p (x ∷ xs) = elim (Bool-cases (p x)) [
  | inl fits ↦ rw fits (fits, keep-All p xs)
  | inr other ↦ rw other (keep-All p xs)
]
