-- ===== src/EscrowDeadline/Window.antt =====
-- When the guardian acts on an escrow, and on what evidence it takes it for gone (src/util.rs,
-- src/scheduler.rs).
use mostro.Prelude.{
  ℕ, ◌+◌, ◌*◌, ◌/◌, ◌-◌, ◌≤◌, ◌<◌, ◌≡◌, ◌↔◌, true, false, Option, some, none, zero, suc,
}
use mostro.Result.{Result, ok, err}
use mostro.EscrowDeadline.{secs_per_block, effective_margin, u32_max, Verdict}

-- A time at least one block after the escrow was seen, with the margin's blocks left before the
-- nominal end of the horizon, or with half of the horizon left where the margin is no less than it.
pub record Nominal (held cltv margin at : ℕ) : Type 0 where
  pub after : held + secs_per_block ≤ at
  pub margin_left : margin < cltv → at + margin * secs_per_block ≡ held + cltv * secs_per_block
  pub half_left : cltv ≤ margin → at + cltv / 2 * secs_per_block ≡ held + cltv * secs_per_block

-- The verdict without a view of the escrow: never gone, and due from a nominal time on, or never if
-- the escrow was not seen.
abbrev pub Nominally : ℕ → ℕ → ℕ → ℕ → Verdict → Type 0
Nominally now zero cltv margin (due, gone) = (due ≡ false) × (gone ≡ false)
Nominally now (suc h) cltv margin (due, gone) =
    ((at : ℕ) × Nominal (suc h) cltv margin at × ((due ≡ true) ↔ (at ≤ now))) × (gone ≡ false)

-- What the verdict has to be, for what the node tells.
abbrev pub Guards : Option ℕ → Result (Option ℕ) → ℕ → ℕ → ℕ → ℕ → Verdict → Type 0
Guards (some chain) (ok (some expiry)) now held cltv margin (due, gone) =
    ((due ≡ true) ↔ (expiry ≤ chain + margin)) × ((gone ≡ true) ↔ (expiry ≤ chain))
Guards (some chain) (ok none) now held cltv margin v = v ≡ (true, true)
Guards (some chain) (err _) now held cltv margin v = Nominally now held cltv margin v
Guards none expiry now held cltv margin v = Nominally now held cltv margin v

abbrev pub IsHeight : Result (Option ℕ) → Type 0
IsHeight (ok (some expiry)) = expiry ≤ u32_max
IsHeight (ok none) = Unit
IsHeight (err _) = Unit

abbrev nominal_time : (held cltv margin : ℕ) → ℕ
nominal_time held cltv margin = held + (cltv - effective_margin cltv margin) * secs_per_block
