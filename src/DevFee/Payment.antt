-- ===== src/DevFee/Payment.antt =====
-- The invoice, the payment and the status of a development fee (src/app/dev_fee.rs). The node, the
-- LNURL service, the clock and fresh UUIDs answer from outside: each answer depends on the number
-- of the observation.
use Prim.Native.String.{◌++◌}
use text.Mathlib.Text.{starts_with, ◌==◌ as str_eq}
use mostro.Prelude.{
  ℕ, suc, String, Bool, true, false, not, ◌&&◌, Option, none, some, List, [], ◌∷◌, if◌then◌else◌,
}
use mostro.Prelude.Int.{ℤ, pos, leb_ℤ}
use mostro.PaymentLog.{Entry, failed, sent}
use mostro.DevFee.Table.{FeeOrder, Task, ◌>>=◌, ◌>>◌, done, observe}
use mostro.DevFee.Marker.{pending}

pub data PaymentStatus : Type 0 where
  succeeded in_flight payment_failed other : PaymentStatus

-- What `send_payment` itself comes to.
pub data Submitted : Type 0 where
  taken rejected late : Submitted

-- An update on the payment's stream: the hash that it names when it succeeded.
pub data Update : Type 0 where
  paid : String → Update
  lost pending_still : Update

pub record Outside : Type 0 where
  pub clock : ℕ → ℕ
  pub uuid : ℕ → String
  pub show_uuid : ℕ → String
  pub node_key : String
  -- `resolv_ln_address`: an invoice for the amount with the comment, in time or not.
  pub resolve : ℕ → ℤ → String → Option String
  pub decodes : String → Bool
  pub hash_of : String → String
  pub is_hex : String → Bool
  pub submit : ℕ → String → Submitted
  pub updates : ℕ → String → List Update
  -- Whether the 20 s and the 50 s around the calls suffice.
  pub resolved_in_time : ℕ → Bool
  pub sent_in_time : ℕ → Bool
  -- `check_payment_status`; nothing on an error or after 10 s.
  pub status : ℕ → String → Option PaymentStatus

pub data DevFeePaymentState : Type 0 where
  state_succeeded state_in_flight state_failed state_unknown : DevFeePaymentState

abbrev pub state_of : Option PaymentStatus → DevFeePaymentState
state_of (some succeeded) = state_succeeded
state_of (some in_flight) = state_in_flight
state_of (some payment_failed) = state_failed
state_of (some other) = state_unknown
state_of none = state_unknown

abbrev pub noted : String → DevFeePaymentState → List Entry → List Entry
noted hash state_failed l = failed hash ∷ l
noted hash state_succeeded l = l
noted hash state_in_flight l = l
noted hash state_unknown l = l

-- Ask the node about a hash. A process that is down asks nothing.
abbrev pub ask_unless : Bool → Outside → String → Task DevFeePaymentState
ask_unless true out hash w = (state_unknown, w)
ask_unless false out hash w =
    let state = state_of (out.status w.calls hash) in
    (state, record w { calls = suc w.calls; log = noted hash state w.log })

unfoldable pub ask : Outside → String → Task DevFeePaymentState
ask out hash w = ask_unless w.down out hash w

abbrev pub is_pending : String → Bool
is_pending hash = starts_with hash pending

unfoldable pub check_hash : Outside → Option String → Task DevFeePaymentState
check_hash out none = done state_unknown
check_hash out (some hash) =
    if is_pending hash
    then done state_unknown
    else if not (out.is_hex hash)
    then done state_unknown
    else ask out hash

unfoldable pub check_dev_fee_payment_status : Outside → FeeOrder → Task DevFeePaymentState
check_dev_fee_payment_status out order = check_hash out order.dev_fee_payment_hash

unfoldable pub dev_fee_comment : Outside → ℕ → String
dev_fee_comment out order_id =
    "mostro-dev-fee order=" ++ (out.show_uuid order_id ++ (" node=" ++ out.node_key))

-- The invoice and its hash, if the text decodes as one that may be paid.
abbrev pub usable : Outside → Option String → Option (String × String)
usable out none = none
usable out (some request) =
    if not (str_eq request "") && out.decodes request
    then some (request, out.hash_of request)
    else none

unfoldable pub resolve_dev_fee_invoice : Outside → FeeOrder → Task (Option (String × String))
resolve_dev_fee_invoice out order = if leb_ℤ order.dev_fee (pos 0) then done none else do
  answer ← observe (λ n. out.resolve n order.dev_fee (dev_fee_comment out order.id))
  in_time ← observe out.resolved_in_time
  done (if in_time then usable out answer else none)

pub data Outcome : Type 0 where
  sent_with : String → Outcome
  send_failed timed_out : Outcome

-- Wait for the payment to end; the stream may close, or the 25 s may pass, before it does.
abbrev pub await_result : List Update → Outcome
await_result [] = send_failed
await_result (paid hash ∷ _) = sent_with hash
await_result (lost ∷ _) = send_failed
await_result (pending_still ∷ rest) = await_result rest

abbrev pub after_submit : Submitted → List Update → Outcome
after_submit taken updates = await_result updates
after_submit rejected updates = send_failed
after_submit late updates = send_failed

-- The call of the node; a process that is down makes none.
abbrev pub start_unless : Bool → ℕ → String → Task (Unit {0})
start_unless true order_id hash w = (tt, w)
start_unless false order_id hash w = (tt, record w { log = sent order_id hash ∷ w.log })

unfoldable pub start_send : ℕ → String → Task (Unit {0})
start_send order_id hash w = start_unless w.down order_id hash w

-- `send_dev_fee_payment` under its timeout of 50 s.
unfoldable pub send_dev_fee_payment : Outside → FeeOrder → String → Task Outcome
send_dev_fee_payment out order request =
    if leb_ℤ order.dev_fee (pos 0) then done send_failed else do
      start_send order.id (out.hash_of request)
      submitted ← observe (λ n. out.submit n request)
      updates ← observe (λ n. out.updates n request)
      in_time ← observe out.sent_in_time
      done (if in_time then after_submit submitted updates else timed_out)
