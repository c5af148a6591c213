-- ===== src/Cwerrors.antt =====
-- The module x/cwerrors: errors of calls that a contract did not make itself.
pub mod SudoError
pub mod State
pub mod Errors
pub mod Subscriptions
pub mod Block
pub mod Queue
pub mod Stored
pub mod Expiry
pub mod Report
pub mod Tests
