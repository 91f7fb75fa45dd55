-- ===== src/Lib.antt =====
-- Mostro is a peer-to-peer exchange daemon: traders' messages are handled by the functions of
-- src/app/, orders are published as replaceable Nostr events, trades are secured with Lightning hold
-- invoices and, optionally, with anti-abuse bonds, and administrators reach it over gRPC.
--
-- The parts that this library models, and where:
--
-- - src/rpc/rate_limiter.rs, the brute-force protection of the administrators' interface:
--   RateLimiter (`check_rate_limit`, `record_failure`, `record_success`, `evict_stale`), with lemmas
--   on single entries in RateLimiter/Clients and one file for each theorem.
-- - src/spam_gate.rs, the cache of known keys and the guard against replays: SpamGate.
-- - src/util.rs, `OrderbookRegistry` and `update_order_event_stamped`: Orderbook is the registry that
--   stamps revisions (`monotonic_created_at`, `stamp_locked`,
--   `try_stamp_orderbook_event_quiescent`), Orderbook/Queue the queue of failed publications, and
--   Orderbook/Publish a publication; there too is src/scheduler.rs, `reconcile_orderbook_once`,
--   which drains the queue and publishes again through the same function.
-- - src/util.rs, `escrow_action_deadline_unix`, and the decision of `enforce_escrow_deadline_pass`
--   (src/scheduler.rs): EscrowDeadline.
-- - src/app/bond/types.rs and model.rs: Bond/Types (the enums and their text forms), Bond/Model (the
--   row).
-- - src/app/bond/db.rs, crud.rs and the handlers' own SQL: Bond/Table, the `bonds` table as the list
--   of its rows in insertion order, and Bond/Queries, its queries, insertions, transactions and the
--   walk to the root of a range; Bond/Statements, Bond/Rows, Bond/Quiet, Bond/Effects and Bond/Keeps
--   are laws of its programs.
-- - src/app/bond/math.rs: Bond/Math, over the interface of floats in Prelude/Float.
-- - src/app/bond/flow.rs: Bond/Lightning (the calls on hold invoices and how their errors are read),
--   Bond/Release (`release_bond` and its sweeps), Bond/Request (`request_taker_bond` and
--   `request_maker_bond`), Bond/Lock (a hold invoice is accepted or cancelled).
-- - src/app/bond/slash.rs: Bond/Slash (`slash_one`, the target of a slash, the notice), below it Range
--   (`record_maker_slice_slash`, `resolve_range_maker_bond_at_close`), Resolution
--   (`apply_bond_resolution`) and Timeout (`slash_or_release_on_timeout`), and the theorems.
-- - All of src/app/bond/ together: Bond/Reachable, the calls of the handlers as steps.
-- - src/app/bond/payout.rs: Bond/Recipient (the shares, and who is paid), Bond/Payout (the steps:
--   forfeit, request an invoice, send, slash, fail), Bond/Cycle (`process_one_bond` and
--   `run_bond_payout_cycle`) with its theorems below it, and Bond/Invoice (`AddBondInvoice`).
-- - src/db.rs, the claim of an order's payout to its buyer (`claim_order_payout`,
--   `touch_order_payout_claim`, `clear_order_payout`, `fail_order_payout`): PayoutClaim, below it
--   Owner and Exclusive, on the columns of `orders` that they read and write; Lease (what a claim
--   promises, one lease per order), Statements and Refinement.
-- - src/app/release.rs, the dispatch of a claimed payout: PayoutClaim/Dispatch (the stretches of the
--   task of `do_payment`, of its watcher, and `reconcile_inflight_payout`); Accounts (the invariant),
--   Marked, Stretches and Reconciled (each stretch keeps it) are the steps to Once.
-- - src/app/dev_fee.rs and `find_unpaid_dev_fees` of src/db.rs: DevFee/Table (the columns, and the
--   programs on them), DevFee/Marker (the marker of a claim), DevFee/Payment (the invoice, the
--   payment, its status), DevFee/Columns and DevFee/Cycle (the four phases of `run_dev_fee_cycle`);
--   Programs, Sound, Changes, Phases, Recovery, Stored and Process are the steps to Single.
--
-- The scheduler's cycle and the message handler meet in the table alone: each statement is a
-- compare-and-swap on the row's state, and the model runs it on the table as it is at that moment.
-- A handler is a program of the monad `M`: it threads the table, the queued messages and the
-- started payments and the calls on hold invoices, and stops at the first error, keeping what it
-- did. The list `faults` says of each coming statement whether the database refuses it.
-- The development fee has programs of its own, which handle every error on the spot, and there the
-- process may also go down at any statement and be started again.
--
-- What stands for what: a `Uuid` is a natural number, an `Instant` the nanoseconds since a start,
-- an `i64` an integer whose sums are wrapped to 64 bits (Prelude/Int), `u64` and `u32` sums are
-- taken modulo their width, a hash map is an association list with distinct keys (Prelude/Map).
-- Each reading of the clock is an argument of its own. The answers of the Lightning node, the
-- relays, the order table, and the decoders of keys and invoices are arguments; their code is not
-- in the repository or is pure input and output. `slash_after_success` has the five attempts of its
-- constant; all other recursion is on a list, but for the walk up a range. A float is opaque: the
-- only law relied on is that a float strictly between 0 and an integer is converted to an integer
-- from 0 to it. The walk up a range has the 1,024 rounds of its constant. Each bond that a call
-- writes has a reading of the clock of its own, and each row that it inserts a fresh id, which are
-- arguments. A transaction that fails or rolls back restores the rows. The unique index on slices
-- never refuses a row that passes the guard of its insertion, and is left out.
--
-- A payout's task is cut where it waits: the stretches of all tasks run in any order, a started
-- payment is logged (PaymentLog), and so is a hash whose payment the node reports as lost.
--
-- Not modelled: the moves of orders after a bond is requested and the resumption of a take or
-- publication (src/app/bond/flow.rs), the reconciliation sweep of stranded range bonds (slash.rs),
-- which reads the orders table, the retry count of a failed payout and the rest of src/app/release.rs,
-- the order handlers around the types of mostro-core, prices (on floats), the Cashu escrow,
-- configuration, and the log messages.
pub mod Prelude
pub mod RateLimiter
pub mod EscrowDeadline
pub mod Result
pub mod PaymentLog
pub mod PayoutClaim
pub mod DevFee
pub mod SpamGate
pub mod Orderbook
pub mod Bond
