-- ===== src/Sim.antt =====
-- A small SDK that meets the laws of `Sdk`, at which theorems are run: coins are lists of amounts,
-- a bank is a table of balances, and an address prints as itself.
pub mod Coins
pub mod Decimals
pub mod Ledger
pub mod Instance
