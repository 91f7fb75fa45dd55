-- ===== src/Bond/Types/RoundTrip.antt =====
-- Printing and parsing the stored enums (src/app/bond/types.rs).
use text.Mathlib.TextEquality.{eq_iff}
use mostro.Prelude.{String, ◌≡◌, refl, inl, ◌↔◌, arith}
use mostro.Bond.Types.{
  BondRole, maker, BondState, requested, BondSlashReason, lost_dispute, show_role, parse_role,
  show_state, parse_state, show_reason, parse_reason,
}

parse_role-show : (r : BondRole) → parse_role (show_role r) ≡ inl r
unfolding parse_role
parse_role-show maker = refl
parse_role-show _ = refl

parse_state-show : (s : BondState) → parse_state (show_state s) ≡ inl s
unfolding parse_state
parse_state-show requested = refl
parse_state-show _ = refl

parse_reason-show : (r : BondSlashReason) → parse_reason (show_reason r) ≡ inl r
unfolding parse_reason
parse_reason-show lost_dispute = refl
parse_reason-show _ = refl

show_state-parse : (t : String) (s : BondState) → parse_state t ≡ inl s → show_state s ≡ t
unfolding parse_state
show_state-parse t s h = ground (
  arith,
  eq_iff t "requested",
  eq_iff t "locked",
  eq_iff t "released",
  eq_iff t "pending-payout",
  eq_iff t "slashed",
  eq_iff t "forfeited",
  eq_iff t "failed",
)

show_role-parse : (t : String) (r : BondRole) → parse_role t ≡ inl r → show_role r ≡ t
unfolding parse_role
show_role-parse t r h = ground (arith, eq_iff t "maker", eq_iff t "taker")

show_reason-parse : (t : String) (r : BondSlashReason) → parse_reason t ≡ inl r → show_reason r ≡ t
unfolding parse_reason
show_reason-parse t r h = ground (arith, eq_iff t "lost-dispute", eq_iff t "timeout")

-- For each of the three enums, a text parses to a value exactly when it is the text that the value
-- prints as. So printing and parsing back gives the value, and no other spelling is accepted.
pub parse_iff_show :
    (t : String) (role : BondRole) (state : BondState) (reason : BondSlashReason)
    → ((parse_role t ≡ inl role) ↔ (show_role role ≡ t))
      × ((parse_state t ≡ inl state) ↔ (show_state state ≡ t))
      × ((parse_reason t ≡ inl reason) ↔ (show_reason reason ≡ t))
parse_iff_show t role state reason = (
  (show_role-parse t role, λ e. rw (← e) (parse_role-show role)),
  (show_state-parse t state, λ e. rw (← e) (parse_state-show state)),
  (show_reason-parse t reason, λ e. rw (← e) (parse_reason-show reason)),
)
