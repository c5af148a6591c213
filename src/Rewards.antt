-- ===== src/Rewards.antt =====
-- The module x/rewards: the rewards of contracts and their withdrawal.
pub mod State
pub mod Records
pub mod Pool
pub mod Payment
pub mod Withdraw
pub mod Metadata
pub mod Ownership
pub mod MinFee
pub mod ConsensusFee
pub mod Parameters
pub mod Mint
pub mod MintSplit
pub mod Ante
pub mod FlatFees
pub mod Messages
pub mod Deduction
pub mod TxFees
pub mod TxCharges
pub mod FeeTests
pub mod Msgs
pub mod Identifiers
pub mod Distribution
pub mod Creation
pub mod Estimation
pub mod Allocation
pub mod EndOfBlock
pub mod DistributionTests
pub mod Tests
