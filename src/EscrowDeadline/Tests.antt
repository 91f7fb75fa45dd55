-- ===== src/EscrowDeadline/Tests.antt =====
-- Runs of the guardian's deadline, and an instance of its theorem.
use mostro.Prelude.{◌≡◌, refl, true, false, some, none}
use mostro.Prelude.Int.{pos, ◌+ℤ◌, i64}
use mostro.Result.{ok}
use mostro.EscrowDeadline.{
  escrow_guard_window_secs, escrow_action_deadline_unix, from_heights, due_and_gone,
}

-- A margin of the whole horizon counts as half of it.
windows :
    (escrow_guard_window_secs 144 36 ≡ pos 64800) × (escrow_guard_window_secs 144 144 ≡ pos 43200)
unfolding escrow_guard_window_secs
windows = (refl, refl)

never_seen : escrow_action_deadline_unix (pos 0) 144 36 ≡ none
unfolding escrow_action_deadline_unix
never_seen = refl

-- 36 blocks before the expiry the guardian acts, and at the expiry the escrow is gone. Without a view
-- it acts 108 blocks after the escrow was seen.
verdicts :
    (due_and_gone (some 899963) (ok (some 900000)) (pos 5000) (pos 1000) 144 36 ≡ (false, false))
    × (due_and_gone (some 899964) (ok (some 900000)) (pos 5000) (pos 1000) 144 36 ≡ (true, false))
    × (due_and_gone (some 900000) (ok (some 900000)) (pos 5000) (pos 1000) 144 36 ≡ (true, true))
    × (due_and_gone none (ok none) (pos 65799) (pos 1000) 144 36 ≡ (false, false))
    × (due_and_gone none (ok none) (pos 65800) (pos 1000) 144 36 ≡ (true, false))
unfolding due_and_gone from_heights escrow_action_deadline_unix escrow_guard_window_secs i64 ◌+ℤ◌
verdicts = (refl, refl, refl, refl, refl)
