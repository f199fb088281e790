-- ===== src/Tests.antt =====
-- The theorems at concrete inputs: a small hall, its orders, and the requests made of them.
pub mod Data
pub mod Bookings
pub mod Accounts
pub mod Jobs
pub mod Backfills
pub mod Checks
pub mod Indexes
pub mod Synced
pub mod Loads
pub mod Ledgers
pub mod Switches
