-- ===== src/Cwfees.antt =====
-- The module x/cwfees: contracts that pay the fees of transactions.
pub mod Granters
pub mod Genesis
pub mod Tests
