-- ===== src/Tests.antt =====
-- Tests of the model, and each theorem with a hypothesis at an input that meets it.
pub mod Accounts
pub mod Changes
pub mod Caching
pub mod Tags
pub mod Keys
pub mod Images
pub mod Streams
pub mod Pictures
pub mod Served
pub mod Rotations
pub mod Logins
pub mod Messages
pub mod Reviews
