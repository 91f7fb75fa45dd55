-- ===== src/PayoutClaim/Lease.antt =====
-- What the claim of a payout promises (src/db.rs): each order has a lease, which one holder has at a
-- time. The statements on the table implement it.
use text.Mathlib.Text.{◌==◌ as str_eq}
use mostro.Prelude.{
  ℕ, String, is_none, Bool, true, false, not, ◌&&◌, Option, none, some, List, [], ◌∷◌,
  if◌then◌else◌, ◌==◌,
}
use mostro.Prelude.Int.{ℤ}
use mostro.Result.{Result, ok, err, db_access}
use mostro.PayoutClaim.{
  OrderRow, is, settled_hold_invoice, claim_order_payout, touch_order_payout_claim,
  clear_order_payout, fail_order_payout,
}
use mostro.PayoutClaim.Owner.{Call, claim, touch, clear, fail, move, call}

-- The lease of an order: whether it is to be had, and its holder's hash and time.
pub record Lease : Type 0 where
  pub ready : Bool
  pub holder : Option (String × Option ℤ)

abbrev pub Leases : Type 0
Leases = ℕ → Option Lease

abbrev pub held_by : String → Option ℤ → Option (String × Option ℤ) → Bool
held_by hash at none = false
held_by hash at (some (h, t)) = str_eq h hash && is t at

-- An operation on a lease: the lease after it, or a refusal.
abbrev pub grant : String → ℤ → Lease → Option Lease
grant hash now l =
    if is_none l.holder && l.ready then some (record l { holder = some (hash, some now) }) else none

abbrev pub renew : String → Option ℤ → ℤ → Lease → Option Lease
renew hash at now l =
    if held_by hash at l.holder && l.ready
    then some (record l { holder = some (hash, some now) })
    else none

abbrev pub give_up : String → Option ℤ → Lease → Option Lease
give_up hash at l = if held_by hash at l.holder then some (record l { holder = none }) else none

abbrev pub set_ready : Bool → Lease → Option Lease
set_ready ready l = some (record l { ready = ready })

abbrev pub next : (Lease → Option Lease) → Option Lease → Option Lease
next f none = none
next f (some l) = f l

abbrev pub or_old : Option Lease → Option Lease → Option Lease
or_old none old = old
or_old (some l) old = some l

unfoldable pub put : (Lease → Option Lease) → ℕ → Leases → Leases
put f id m n = if n == id then or_old (next f (m n)) (m n) else m n

unfoldable pub accepts : (Lease → Option Lease) → ℕ → Leases → Bool
accepts f id m = not (is_none (next f (m id)))

pub data Answer : Type 0 where
  time : Result (Option ℤ) → Answer
  done : Result Bool → Answer
  silent : Answer

unfoldable pub lease_answer : Call → Leases → Answer
lease_answer (claim true id h now) m = time (err db_access)
lease_answer (claim false id h now) m =
    time (ok (if accepts (grant h now) id m then some now else none))
lease_answer (touch true id h at now) m = time (err db_access)
lease_answer (touch false id h at now) m =
    time (ok (if accepts (renew h at now) id m then some now else none))
lease_answer (clear true id h at) m = done (err db_access)
lease_answer (clear false id h at) m = done (ok (accepts (give_up h at) id m))
lease_answer (fail true id h at) m = done (err db_access)
lease_answer (fail false id h at) m = done (ok (accepts (give_up h at) id m))
lease_answer (move id status) m = silent

unfoldable pub lease_call : Call → Leases → Leases
lease_call (claim true id h now) m = m
lease_call (claim false id h now) m = put (grant h now) id m
lease_call (touch true id h at now) m = m
lease_call (touch false id h at now) m = put (renew h at now) id m
lease_call (clear true id h at) m = m
lease_call (clear false id h at) m = put (give_up h at) id m
lease_call (fail true id h at) m = m
lease_call (fail false id h at) m = put (give_up h at) id m
lease_call (move id status) m = put (set_ready (str_eq status "settled-hold-invoice")) id m

unfoldable pub lease_answers : List Call → Leases → List Answer
lease_answers [] m = []
lease_answers (c ∷ cs) m = lease_answer c m ∷ lease_answers cs (lease_call c m)

unfoldable pub lease_all : List Call → Leases → Leases
lease_all [] m = m
lease_all (c ∷ cs) m = lease_all cs (lease_call c m)

-- What the table answers.
unfoldable pub answer : Call → List OrderRow → Answer
answer (claim f id h now) os = time (claim_order_payout f id h now os).0
answer (touch f id h at now) os = time (touch_order_payout_claim f id h at now os).0
answer (clear f id h at) os = done (clear_order_payout f id h at os).0
answer (fail f id h at) os = done (fail_order_payout f id h at os).0
answer (move id status) os = silent

unfoldable pub answers : List Call → List OrderRow → List Answer
answers [] os = []
answers (c ∷ cs) os = answer c os ∷ answers cs (call c os)

-- The leases of a table.
abbrev pub holder_of : Option String → Option ℤ → Option (String × Option ℤ)
holder_of none t = none
holder_of (some h) t = some (h, t)

abbrev pub lease : OrderRow → Lease
lease o = record {
  ready = settled_hold_invoice o;
  holder = holder_of o.payout_payment_hash o.payout_claimed_at;
}

unfoldable pub leases : List OrderRow → Leases
leases [] n = none
leases (o ∷ os) n = if o.id == n then some (lease o) else leases os n
