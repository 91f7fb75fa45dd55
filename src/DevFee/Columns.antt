-- ===== src/DevFee/Columns.antt =====
-- The tests and the changes of the statements on the development fee's columns
-- (src/app/dev_fee.rs).
use text.Mathlib.Text.{◌==◌ as str_eq}
use mostro.Prelude.{ℕ, String, Bool, true, false, not, ◌&&◌, ◌||◌, Option, none, some, ◌==◌}
use mostro.DevFee.Table.{FeeOrder}
use mostro.DevFee.Payment.{is_pending}

abbrev pub hash_is : String → Option String → Bool
hash_is hash none = false
hash_is hash (some h) = str_eq h hash

abbrev pub is_pending_hash : Option String → Bool
is_pending_hash none = false
is_pending_hash (some h) = is_pending h

abbrev pub or_empty : Option String → String
or_empty none = ""
or_empty (some h) = h

-- The hash is null or empty.
abbrev pub is_unset : Option String → Bool
is_unset none = true
is_unset (some h) = str_eq h ""

abbrev pub is_set : Option String → Bool
is_set none = false
is_set (some h) = not (str_eq h "")

unfoldable pub is_fee_due : FeeOrder → Bool
is_fee_due o = str_eq o.status "settled-hold-invoice" || str_eq o.status "success"

abbrev pub set_paid : FeeOrder → FeeOrder
set_paid o = record o { dev_fee_paid = true }

abbrev pub set_unpaid : FeeOrder → FeeOrder
set_unpaid o = record o { dev_fee_paid = false }

abbrev pub without_hash : FeeOrder → FeeOrder
without_hash o = record o { dev_fee_payment_hash = none }

abbrev pub with_hash : String → FeeOrder → FeeOrder
with_hash hash o = record o { dev_fee_payment_hash = some hash }

abbrev pub paid_with : String → FeeOrder → FeeOrder
paid_with hash o = record o { dev_fee_paid = true; dev_fee_payment_hash = some hash }

abbrev pub reset : FeeOrder → FeeOrder
reset o = record o { dev_fee_paid = false; dev_fee_payment_hash = none }

-- The rows of one order, those with a hash, and those of them that are unpaid.
abbrev pub is_order : ℕ → FeeOrder → Bool
is_order order_id o = o.id == order_id

unfoldable pub holds : ℕ → String → FeeOrder → Bool
holds order_id hash o = o.id == order_id && hash_is hash o.dev_fee_payment_hash

unfoldable pub is_unpaid : ℕ → FeeOrder → Bool
is_unpaid order_id o = o.id == order_id && not o.dev_fee_paid

unfoldable pub awaits : ℕ → String → FeeOrder → Bool
awaits order_id hash o = is_unpaid order_id o && hash_is hash o.dev_fee_payment_hash
