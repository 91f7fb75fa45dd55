-- ===== src/Bond.antt =====
-- The anti-abuse bonds (src/app/bond/): the stored enums, the row, the table's statements, the
-- payout cycle, and the paths that lock, slash and release a bond.
pub mod Types
pub mod Model
pub mod Table
pub mod Statements
pub mod Rows
pub mod Quiet
pub mod Answers
pub mod Env
pub mod Math
pub mod Effects
pub mod Release
pub mod Request
pub mod Slash
pub mod Lock
pub mod Keeps
pub mod Sound
pub mod Queries
pub mod Lightning
pub mod Recipient
pub mod Payout
pub mod Cycle
pub mod Invoice
pub mod Carried
pub mod Reachable
mod Tests
