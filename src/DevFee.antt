-- ===== src/DevFee.antt =====
-- The payment of the development fee (src/app/dev_fee.rs): the columns of `orders` that it uses,
-- the node, the four phases of its cycle, and what they keep.
pub mod Table
pub mod Marker
pub mod ClaimTime
pub mod Payment
pub mod Columns
pub mod Cycle
pub mod Programs
pub mod Sound
pub mod Changes
pub mod Phases
pub mod Recovery
pub mod Stored
pub mod Process
pub mod Single
pub mod Pays
mod Tests
