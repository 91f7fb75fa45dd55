-- ===== src/DevFee/Table.antt =====
-- The development fee's columns of the `orders` table, and the programs on them (src/app/dev_fee.rs,
-- src/db.rs). The process can go down at any statement: it then does nothing more until it is
-- started again. `log` holds the payments that were started and the hashes that the node answered
-- as failed, newest first; `calls` counts what was observed outside, so that each answer of the
-- node and each reading of the clock is one of its own.
use mostro.Prelude.{
  ℕ, suc, String, Bool, true, Option, none, some, List, [], ◌∷◌, ◌==◌, if◌then◌else◌,
}
use mostro.Prelude.Int.{ℤ}
use mostro.PaymentLog.{Entry}
use mostro.Prelude.Rows.{affects, rewrite}

pub record FeeOrder : Type 0 where
  pub id : ℕ
  pub status : String
  pub dev_fee : ℤ
  pub dev_fee_paid : Bool
  pub dev_fee_payment_hash : Option String

-- What becomes of a statement.
pub data Fault : Type 0 where
  fine refused crash : Fault

pub record Ledger : Type 0 where
  pub orders : List FeeOrder
  pub faults : List Fault
  pub down : Bool
  pub calls : ℕ
  pub confirmed : List ℕ
  pub log : List Entry
  pub audits : List (ℕ × String)

abbrev pub Task : Type 0 → Type 0
Task A = Ledger → A × Ledger

infixl 5 ◌>>=◌ ◌>>◌
unfoldable pub ◌>>=◌ : {A B : Type 0} → Task A → (A → Task B) → Task B
◌>>=◌ m f w = let (a, w') = m w in f a w'

abbrev pub ◌>>◌ : {A B : Type 0} → Task A → Task B → Task B
m >> k = m >>= λ _. k

unfoldable pub done : {A : Type 0} → A → Task A
done a w = (a, w)

abbrev pub first_fault : List Fault → Fault
first_fault [] = fine
first_fault (f ∷ _) = f

abbrev pub later_faults : List Fault → List Fault
later_faults [] = []
later_faults (_ ∷ fs) = fs

-- What the next statement meets.
abbrev pub fate : Ledger → Fault
fate w = if w.down then crash else first_fault w.faults

abbrev pub modify_at : Fault → (FeeOrder → Bool) → (FeeOrder → FeeOrder) → Task (Option Bool)
modify_at fine fits change w = (
  some (affects fits w.orders),
  record w { orders = rewrite fits change w.orders; faults = later_faults w.faults },
)
modify_at refused fits change w = (none, record w { faults = later_faults w.faults })
modify_at crash fits change w = (none, record w { faults = later_faults w.faults; down = true })

-- An `UPDATE`: whether it changed a row, or an error.
unfoldable pub modify : (FeeOrder → Bool) → (FeeOrder → FeeOrder) → Task (Option Bool)
modify fits change w = modify_at (fate w) fits change w

abbrev pub select_at : {A : Type 0} → Fault → (List FeeOrder → A) → Task (Option A)
select_at fine read w = (some (read w.orders), record w { faults = later_faults w.faults })
select_at refused read w = (none, record w { faults = later_faults w.faults })
select_at crash read w = (none, record w { faults = later_faults w.faults; down = true })

-- A query.
unfoldable pub select : {A : Type 0} → (List FeeOrder → A) → Task (Option A)
select read w = select_at (fate w) read w

-- Something outside: an answer or a reading of the clock.
unfoldable pub observe : {A : Type 0} → (ℕ → A) → Task A
observe answer w = (answer w.calls, record w { calls = suc w.calls })

-- Put an order into the set of the confirmed ones.
unfoldable pub confirm : ℕ → Task (Unit {0})
confirm order_id w = (tt, record w { confirmed = order_id ∷ w.confirmed })

unfoldable pub audit : ℕ → String → Task (Unit {0})
audit order_id hash w =
    (tt, if w.down then w else record w { audits = (order_id, hash) ∷ w.audits })

unfoldable pub find_order : ℕ → List FeeOrder → Option FeeOrder
find_order order_id [] = none
find_order order_id (o ∷ os) =
    let later = find_order order_id os in if o.id == order_id then some o else later

-- A loop over the rows of a query.
unfoldable pub for_each : {A : Type 0} → (A → Task (Unit {0})) → List A → Task (Unit {0})
for_each body [] = done tt
for_each body (a ∷ rest) = body a >> for_each body rest
