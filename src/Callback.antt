-- ===== src/Callback.antt =====
-- The module x/callback: contracts register callbacks for a later block against fees, which the
-- module account holds until the callback is executed or cancelled.
pub mod State
pub mod Reserve
pub mod Fees
pub mod Msgs
pub mod Exec
pub mod Escrow
pub mod Trace
pub mod Scene
pub mod Hostile
pub mod Tests
