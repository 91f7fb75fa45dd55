-- ===== src/DevFee/Single.antt =====
-- A development fee is not paid twice (src/app/dev_fee.rs).
use mostro.Prelude.{ℕ, String, false, ◌&&◌, ◌≡◌, refl, List, [], ◌∷◌, All}
use mostro.Prelude.Rows.{rewrite}
use mostro.DevFee.Table.{FeeOrder, Fault, Ledger}
use mostro.DevFee.Payment.{Outside}
use mostro.DevFee.Columns.{is_pending_hash, is_order}
use mostro.DevFee.Cycle.{run_dev_fee_cycle}
use mostro.DevFee.Programs.{Holds}
use mostro.DevFee.Sound.{Single, RowOk, IsKeyed, Sound, rewrite-Sound}
use mostro.DevFee.Changes.{same-RowOk}
use mostro.DevFee.Process.{HasHashes, run_dev_fee_cycle-Keeps}

-- What happens to the process and to the table: a cycle, with what becomes of its statements; a
-- start of the process; and a move of an order to a status by another handler.
pub data Happening : Type 0 where
  cycle : Outside → List Fault → Happening
  restart : Happening
  move : ℕ → String → Happening

abbrev pub with_status : String → FeeOrder → FeeOrder
with_status status o = record o { status = status }

unfoldable pub happen : Happening → Ledger → Ledger
happen (cycle out faults) w = (run_dev_fee_cycle out (record w { faults = faults })).1
happen restart w = record w { down = false; confirmed = [] }
happen (move id status) w = record w {
  orders = rewrite (is_order id) (with_status status) w.orders;
}

unfoldable pub happen_all : List Happening → Ledger → Ledger
happen_all [] w = w
happen_all (h ∷ hs) w = happen_all hs (happen h w)

abbrev pub AllHashes : List Happening → Type 0
AllHashes [] = Unit
AllHashes (cycle out _ ∷ hs) = HasHashes out × AllHashes hs
AllHashes (restart ∷ hs) = AllHashes hs
AllHashes (move _ _ ∷ hs) = AllHashes hs

-- The process before its first cycle.
abbrev pub started : List FeeOrder → Ledger
started os = record {
  orders = os;
  faults = [];
  down = false;
  calls = 0;
  confirmed = [];
  log = [];
  audits = [];
}

-- No row is paid while it holds a marker.
abbrev pub IsClean : FeeOrder → Type 0
IsClean o = (o.dev_fee_paid && is_pending_hash o.dev_fee_payment_hash) ≡ false

happen_all-Sound :
    (hs : List Happening) (w : Ledger)
    → AllHashes hs
    → Holds Sound w
    → Holds Sound (happen_all hs w)
unfolding happen_all happen
happen_all-Sound [] w a s = s
happen_all-Sound (cycle out faults ∷ hs) w a s =
    happen_all-Sound hs (happen (cycle out faults) w) a.1
      (run_dev_fee_cycle-Keeps out a.0 (record w { faults = faults }) s)
happen_all-Sound (restart ∷ hs) w a s = happen_all-Sound hs (happen restart w) a s
happen_all-Sound (move id status ∷ hs) w a s = happen_all-Sound hs (happen (move id status) w) a (
    rewrite-Sound (is_order id) (with_status status) (λ _. refl) w.orders w.log
      (λ o _ ok. same-RowOk w.log s.hashes o ok (with_status status o) refl refl refl) s)

started-Sound : (os : List FeeOrder) → IsKeyed os → All IsClean os → Holds Sound (started os)
started-Sound os keyed clean = record {
  keyed = keyed;
  rows = rows os clean;
  hashes = tt;
  single = tt;
}
  where
    rows : (os : List FeeOrder) → All IsClean os → All (RowOk []) os
    rows [] c = tt
    rows (o ∷ os) c = ((tt, c.0), rows os c.1)

-- The ids of the orders are a key, none is paid while it holds a marker, and hashes are
-- hexadecimal. Then, whatever the node, the LNURL service and the clock answer, whichever statements
-- the database refuses, and wherever the process goes down and is started again, a development fee
-- is sent for an order only when the node has answered of each earlier payment for that order that it
-- failed.
pub happen_all-Single :
    (os : List FeeOrder) (hs : List Happening)
    → IsKeyed os
    → All IsClean os
    → AllHashes hs
    → Single (happen_all hs (started os)).log
happen_all-Single os hs keyed clean hashes =
    (happen_all-Sound hs (started os) hashes (started-Sound os keyed clean)).single
