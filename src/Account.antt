-- ===== src/Account.antt =====
-- src/services/account_service.rs: the account pool.
pub mod State
pub mod Invariant
pub mod Normalize
pub mod Resolve
pub mod Matching
pub mod Slots
pub mod Updates
pub mod Members
pub mod Refresh
pub mod Fetch
pub mod Run
pub mod Progress
pub mod Stats
