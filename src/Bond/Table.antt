-- ===== src/Bond/Table.antt =====
-- The statements on the `bonds` table (src/app/bond/db.rs and the handlers' own SQL), over the rows
-- in insertion order. A statement can fail, and then changes nothing: `faults` says of each coming
-- statement whether it does, and once it is used up none fails. `outbox` holds the queued messages,
-- `sends` the Lightning payments that were started, and `htlc_calls` the calls on hold invoices,
-- newest first.
use text.Mathlib.Text.{◌==◌ as str_eq}
use mostro.Prelude.{
  ℕ, suc, String, Bool, false, ◌&&◌, Option, none, some, List, [], ◌∷◌, if◌then◌else◌, keep, ◌==◌,
}
use mostro.Prelude.Int.{ℤ, ltb_ℤ}
use mostro.Result.{Result, ok, err, Error, db_access}
use mostro.Bond.Types.{BondState, show_state}
use mostro.Bond.Model.{Bond}

-- What `enqueue_order_msg` is given: the order, the recipient's key, and the sats, the time
-- and the payment request that the payload names.
pub data Notice : Type 0 where
  add_bond_invoice : ℕ → String → ℤ → ℤ → Notice
  bond_invoice_accepted bond_payout_completed bond_slashed : ℕ → String → ℤ → Notice
  trade_canceled : ℕ → String → Notice
  pay_bond_invoice : ℕ → String → ℤ → String → Notice

-- A call that settles a hold invoice by its preimage, or cancels one by its hash.
pub data HtlcCall : Type 0 where
  settle cancel : String → HtlcCall

-- A payment that was started: the invoice and the amount.
pub record Send : Type 0 where
  pub invoice : String
  pub amount : ℤ

pub record World : Type 0 where
  pub bonds : List Bond
  pub faults : List Bool
  pub outbox : List Notice
  pub sends : List Send
  pub htlc_calls : List HtlcCall

abbrev pub M : Type 0 → Type 0
M A = World → Result A × World

infixl 5 ◌>>=◌ ◌>>◌
unfoldable pub ◌>>=◌ : {A B : Type 0} → M A → (A → M B) → M B
◌>>=◌ m f w = let (r, w') = m w in elim r [ ok a ↦ f a w' | err e ↦ (err e, w') ]

abbrev pub ◌>>◌ : {A B : Type 0} → M A → M B → M B
m >> k = m >>= λ _. k

unfoldable pub pure : {A : Type 0} → A → M A
pure a w = (ok a, w)

unfoldable pub raise : {A : Type 0} → Error → M A
raise e w = (err e, w)

-- `?` on a result that needs no database.
unfoldable pub lift : {A : Type 0} → Result A → M A
lift r w = (r, w)

abbrev pub is_faulty : List Bool → Bool
is_faulty [] = false
is_faulty (f ∷ _) = f

abbrev pub later_faults : List Bool → List Bool
later_faults [] = []
later_faults (_ ∷ fs) = fs

-- A query.
unfoldable pub fetch : {A : Type 0} → (List Bond → A) → M A
fetch read w = (
  if is_faulty w.faults then err db_access else ok (read w.bonds),
  record w { faults = later_faults w.faults },
)

-- Rewrite the rows that fit.
unfoldable pub update_rows : (Bond → Bool) → (Bond → Bond) → List Bond → List Bond
update_rows fits change [] = []
update_rows fits change (b ∷ bs) = (if fits b then change b else b) ∷ update_rows fits change bs

-- The number of rows that fit.
unfoldable pub count_rows : (Bond → Bool) → List Bond → ℕ
count_rows fits [] = 0
count_rows fits (b ∷ bs) = let rest = count_rows fits bs in if fits b then suc rest else rest

-- `UPDATE bonds SET … WHERE …`, with `rows_affected`.
unfoldable pub execute : (Bond → Bool) → (Bond → Bond) → M ℕ
execute fits change w =
    if is_faulty w.faults then (err db_access, record w { faults = later_faults w.faults }) else (
      ok (count_rows fits w.bonds),
      record w { bonds = update_rows fits change w.bonds; faults = later_faults w.faults },
    )

unfoldable pub notify : Notice → M (Unit {0})
notify n w = (ok tt, record w { outbox = n ∷ w.outbox })

-- `state = ?`
abbrev pub in_state : BondState → Bond → Bool
in_state s b = str_eq b.state (show_state s)

-- `id = ? AND state = ?`, the guard of a compare-and-swap.
abbrev pub cas : ℕ → BondState → Bond → Bool
cas id s b = b.id == id && in_state s b

abbrev pub first : List Bond → Option Bond
first [] = none
first (b ∷ _) = some b

-- `ORDER BY`, which keeps the insertion order of rows with one key.
unfoldable pub insert_by : (Bond → Bond → Bool) → Bond → List Bond → List Bond
insert_by before b [] = b ∷ []
insert_by before b (c ∷ cs) =
    let rest = insert_by before b cs in if before c b then c ∷ rest else b ∷ c ∷ cs

unfoldable pub order_by : (Bond → Bond → Bool) → List Bond → List Bond
order_by before [] = []
order_by before (b ∷ bs) = insert_by before b (order_by before bs)

abbrev pub older : Bond → Bond → Bool
older a b = ltb_ℤ a.created_at b.created_at

unfoldable pub find_bonds_by_state : BondState → M (List Bond)
find_bonds_by_state s = fetch (λ bs. order_by older (keep (in_state s) bs))

unfoldable pub find_bond_by_id : ℕ → M (Option Bond)
find_bond_by_id id = fetch (λ bs. first (keep (λ b. b.id == id) bs))
