-- ===== src/Wasmbinding.antt =====
-- The custom messages of contracts (wasmbinding/).
pub mod Msgs
pub mod Dispatch
pub mod Tests
