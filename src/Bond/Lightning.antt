-- ===== src/Bond/Lightning.antt =====
-- The calls on hold invoices, and how their errors are read (src/app/bond/slash.rs,
-- src/app/bond/flow.rs). What the Lightning node answers is a parameter; each call is logged.
use text.Mathlib.Text.{find?}
use mostro.Prelude.{ℕ, String, Bool, true, ◌||◌, Option, none, some, ◌∷◌, if◌then◌else◌, is_some}
use mostro.Prelude.Int.{ℤ}
use mostro.Result.{ok, ln_node}
use mostro.Bond.Table.{M, ◌>>=◌, pure, raise, HtlcCall, settle, cancel}

-- What the handlers of one call are told from outside. `connects` is whether `LndConnector::new`
-- succeeds as the bond of that id is released. The calls answer nothing, or the message of the
-- error in lower case. `clock` is the reading of the clock as the bond of that id is written.
pub record Lightning : Type 0 where
  pub connects : ℕ → Bool
  pub settle_answer : String → Option String
  pub cancel_answer : String → Option String
  pub clock : ℕ → ℤ

abbrev contains : String → String → Bool
contains s t = is_some (find? s t)

unfoldable pub call : HtlcCall → M (Unit {0})
call c w = (ok tt, record w { htlc_calls = c ∷ w.htlc_calls })

unfoldable pub settle_hold_invoice : Lightning → String → M (Option String)
settle_hold_invoice lnd preimage = call (settle preimage) >>= λ _. pure (lnd.settle_answer preimage)

unfoldable pub is_already_settled_error : String → Bool
is_already_settled_error s =
    contains s "already settled"
    || contains s "invoice already settled"
    || contains s "code=alreadyexists"

-- The call went through, or had done so before.
abbrev pub is_settled : Option String → Bool
is_settled none = true
is_settled (some message) = is_already_settled_error message

pub data CancelOutcome : Type 0 where
  already_done transient : CancelOutcome

unfoldable pub classify_cancel_error : String → CancelOutcome
classify_cancel_error s =
    if contains s "code=notfound" || contains s "code=alreadyexists"
    then already_done
    else if contains s "already cancelled"
        || contains s "already canceled"
        || contains s "unable to locate invoice"
        || contains s "invoice not found"
        || contains s "no such invoice"
    then already_done
    else transient

abbrev pub outcome_of : Option String → CancelOutcome
outcome_of none = already_done
outcome_of (some message) = classify_cancel_error message

abbrev pub if_gone : CancelOutcome → M (Unit {0})
if_gone already_done = pure tt
if_gone transient = raise ln_node

unfoldable pub cancel_hold_invoice : Lightning → ℕ → String → M (Unit {0})
cancel_hold_invoice lnd id hash =
    if lnd.connects id
    then (call (cancel hash) >>= λ _. if_gone (outcome_of (lnd.cancel_answer hash)))
    else raise ln_node
