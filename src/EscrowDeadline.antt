-- ===== src/EscrowDeadline.antt =====
-- When the guardian of a hold-invoice escrow acts: the deadline without a view of the chain
-- (src/util.rs, `escrow_guard_window_secs`, `escrow_action_deadline_unix`), and the decision of one
-- tick for one order (src/scheduler.rs, `enforce_escrow_deadline_pass`). Heights are those of a `u32`.
pub mod Window
mod Tests
use mostro.Prelude.{
  ℕ, ◌+◌, ◌-◌, ◌*◌, ◌/◌, Bool, true, false, Option, none, some, leb, if◌then◌else◌, min,
}
use mostro.Prelude.Int.{ℤ, pos, ◌+ℤ◌, i64, leb_ℤ}
use mostro.Result.{Result, ok, err}

abbrev pub secs_per_block : ℕ
secs_per_block = 600

-- The margin in use: one that leaves no window counts as half of it.
abbrev pub effective_margin : ℕ → ℕ → ℕ
effective_margin cltv margin = if leb cltv margin then cltv / 2 else margin

unfoldable pub escrow_guard_window_secs : ℕ → ℕ → ℤ
escrow_guard_window_secs cltv margin = pos ((cltv - effective_margin cltv margin) * secs_per_block)

-- `invoice_held_at == 0`
abbrev pub is_zero : ℤ → Bool
is_zero z = if leb_ℤ z (pos 0) then leb_ℤ (pos 0) z else false

unfoldable pub escrow_action_deadline_unix : ℤ → ℕ → ℕ → Option ℤ
escrow_action_deadline_unix held_at cltv margin =
    if is_zero held_at then none else some (i64 (held_at +ℤ escrow_guard_window_secs cltv margin))

abbrev pub u32_max : ℕ
u32_max = 4294967295

-- Whether the guardian must act, and whether the escrow is verifiably gone.
abbrev pub Verdict : Type 0
Verdict = Bool × Bool

-- What the accepted payment's expiry says, if it is known.
abbrev pub from_expiry : ℕ → ℕ → Result (Option ℕ) → Option Verdict
from_expiry chain margin (ok (some expiry)) =
    some (leb expiry (min (chain + margin) u32_max), leb expiry chain)
from_expiry chain margin (ok none) = some (true, true)
from_expiry chain margin (err _) = none

-- `chain_height` is none where the node did not tell it; `expiry` is the answer of
-- `hold_invoice_expiry_height`.
unfoldable pub from_heights : Option ℕ → Result (Option ℕ) → ℕ → Option Verdict
from_heights none expiry margin = none
from_heights (some chain) expiry margin = from_expiry chain margin expiry

abbrev pub is_past : ℤ → Option ℤ → Bool
is_past now none = false
is_past now (some deadline) = leb_ℤ deadline now

abbrev pub or_nominal : Option Verdict → Verdict → Verdict
or_nominal none nominal = nominal
or_nominal (some seen) nominal = seen

unfoldable pub due_and_gone : Option ℕ → Result (Option ℕ) → ℤ → ℤ → ℕ → ℕ → Verdict
due_and_gone chain_height expiry now held_at cltv margin =
    or_nominal (from_heights chain_height expiry margin)
      (is_past now (escrow_action_deadline_unix held_at cltv margin), false)
