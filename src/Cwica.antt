-- ===== src/Cwica.antt =====
-- The module x/cwica: interchain accounts of contracts.
pub mod State
pub mod Handlers
pub mod Msgs
pub mod Reports
pub mod Tests
