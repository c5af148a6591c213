-- ===== src/Rewards/State.antt =====
-- The state of x/rewards: its messages (proto/archway/rewards/v1/rewards.proto) and its keeper
-- (x/rewards/keeper/keeper.go).
use archway.Common.{ℕ, Bool, Option}
use archway.Common.Key.{Key, Bytes, Text, bytes_key, nat_key, pair_key}
use archway.Common.Store.{Store}
use archway.Common.Int.{ℤ}
use archway.Common.Str.{codes}
use archway.Sdk.{Sdk, Coin, DecCoin}

pub record Params (D : Type 0) : Type 0 where
  pub inflation_rewards_ratio : D
  pub tx_fee_rebate_ratio : D
  pub max_withdraw_records : ℕ
  pub min_price_of_gas : DecCoin D

pub record ContractMetadata : Type 0 where
  pub contract_address : Text
  pub owner_address : Text
  pub rewards_address : Text
  pub withdraw_to_wallet : Bool

pub record BlockRewards : Type 0 where
  pub height : ℤ
  pub inflation_rewards : Coin
  pub max_gas : ℕ

pub record TxRewards (C : Type 0) : Type 0 where
  pub tx_id : ℕ
  pub height : ℤ
  pub fee_rewards : C

-- The time of a record is that of its block, in nanoseconds.
pub record RewardsRecord (C : Type 0) : Type 0 where
  pub id : ℕ
  pub rewards_address : Text
  pub rewards : C
  pub calculated_height : ℤ
  pub calculated_time : ℕ

instance abbrev pub address_key : Key (Bytes × ℕ)
address_key = pair_key bytes_key nat_key

-- The stores of the keeper with the index of the records by their address, and the balances.
pub record State (sdk : Sdk) : Type 0 where
  pub params : Params sdk.Dec18
  pub min_cons_fee : Option (DecCoin sdk.Dec18)
  pub contract_metadata : Store Bytes ContractMetadata
  pub block_rewards : Store ℕ BlockRewards
  pub flat_fees : Store Bytes Coin
  pub tx_rewards : Store ℕ (TxRewards sdk.Coins)
  pub rewards_record_id : ℕ
  pub rewards_records : Store ℕ (RewardsRecord sdk.Coins)
  pub records_by_address : Store (Bytes × ℕ) (Unit {0})
  pub bank : sdk.Bank

-- ContractRewardCollector and TreasuryCollector (x/rewards/types/keys.go)
abbrev pub contract_reward_collector : Text
contract_reward_collector = codes "rewards"

abbrev pub treasury_collector : Text
treasury_collector = codes "treasury"

-- The error values of x/rewards/types/errors.go that the modelled handlers return, and those of what
-- they call.
pub data Error : Type 0 where
  contract_not_found metadata_not_found unauthorized invalid_request internal : Error
  invalid_address bank_error insufficient_fee : Error
