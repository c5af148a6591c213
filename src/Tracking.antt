-- ===== src/Tracking.antt =====
-- The module x/tracking: the gas of transactions and of the contract operations in them.
pub mod Records
pub mod Finalize
pub mod Homed
pub mod Cascade
pub mod Listing
pub mod Ingest
pub mod Tracked
pub mod Complete
pub mod Recorded
pub mod Trace
pub mod Removal
pub mod Genesis
pub mod Imported
pub mod Start
pub mod TraceTests
