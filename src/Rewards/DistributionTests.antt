-- ===== src/Rewards/DistributionTests.antt =====
-- The end of a block at the small SDK.
use archway.Common.{ℕ, ◌+◌, ◌*◌, ◌^◌, ◌≡◌, refl, false, none, [], ◌∷◌, ok, panic, arith, value_or}
use archway.Common.Key.{Text, bytes_key, bytes_eq, bytes_eq_iff, bytes_lt, nat_key}
use archway.Common.Store.{get, set, add_new, remove}
use archway.Common.Str.{codes}
use archway.Common.Int.{pos, uint64}
use archway.Sdk.{Coin}
use archway.Sim.Instance.{sim, parse, make_coin}
use archway.Sim.Decimals.{multiply, divide, of_int, truncate, signed, nearest}
use archway.Sim.Coins.{all_zero, sub_list, take_out}
use archway.Tracking.Records as Tracking
use archway.Rewards.State.{ContractMetadata, State}
use archway.Rewards.Distribution.{
  BlockShares, add_transactions, add_operations, add_operation, contract_share, with_inflation,
  tx_rewards_of, estimate_contracts, inflation_of, has_rewards, has_gas_limit, tx_has_rewards,
  create_rewards_records, distribute_each, distribute_to, cleanup_rewards_pool, gas_share,
  reward_coin, fees_of, tx_fee_shares, fee_shares, is_rewarded, estimate_block_gas_usage,
  estimate_block_rewards, allocate_block_rewards,
}
use archway.Pkg.Split.{share_of}
use archway.Rewards.Records.{create_rewards_record}
use archway.Rewards.Ownership.{ArePayable}
use archway.Rewards.Pool.{IsIndexed, owed, pool}
use archway.Rewards.Allocation.{AreApart, granted}
use archway.Rewards.EndOfBlock.{allocate_block_rewards-GivesOut}

abbrev stake : ℕ → Coin
stake n = record { denom = codes "stake"; amount = n }

abbrev operation : ℕ → Text → ℕ → Tracking.ContractOperationInfo
operation id contract gas = record {
  id = id;
  tx_id = 1;
  contract_address = contract;
  operation_type = Tracking.execution;
  vm_gas = gas;
  sdk_gas = 0;
}

-- One transaction, which two contracts take part in.
abbrev tracked : Tracking.State
tracked = record {
  tx_info_last_id = 1;
  tx_infos = (1, record { id = 1; height = pos 7; total_gas = 8 }) ∷ [];
  block_index = ((7, 1), tt) ∷ [];
  contract_op_last_id = 2;
  contract_ops = (1, operation 1 (codes "a") 6) ∷ (2, operation 2 (codes "b") 2) ∷ [];
  tx_index = ((1, 1), tt) ∷ ((1, 2), tt) ∷ [];
}

abbrev described : Text → ContractMetadata
described contract = record {
  contract_address = contract;
  owner_address = codes "owner";
  rewards_address = codes "dapp";
  withdraw_to_wallet = false;
}

abbrev block_start : State sim
block_start = record {
  params = record {
    inflation_rewards_ratio = pos 0;
    tx_fee_rebate_ratio = pos 0;
    max_withdraw_records = 25;
    min_price_of_gas = record { denom = codes "stake"; amount = pos 0 };
  };
  min_cons_fee = none;
  contract_metadata = (codes "a", described (codes "a")) ∷ [];
  block_rewards = (7, record { height = pos 7; inflation_rewards = stake 50; max_gas = 10 }) ∷ [];
  flat_fees = [];
  tx_rewards = (1, record { tx_id = 1; height = pos 7; fee_rewards = stake 40 ∷ [] }) ∷ [];
  rewards_record_id = 0;
  rewards_records = [];
  records_by_address = [];
  bank = λ x d. 100;
}

abbrev no_shares : BlockShares sim.Coins
no_shares = record {
  height = pos 0;
  txs = [];
  contracts = [];
  rewards_total = [];
  rewards_distributed = [];
}

abbrev used_shares : BlockShares sim.Coins
used_shares = value_or no_shares (estimate_block_gas_usage sim tracked block_start (pos 7))

abbrev block_shares : BlockShares sim.Coins
block_shares = value_or no_shares (estimate_block_rewards sim block_start used_shares)

is_used : estimate_block_gas_usage sim tracked block_start (pos 7) ≡ ok used_shares
unfolding estimate_block_gas_usage estimate_block_rewards Tracking.get_block_tracking_info
    Tracking.get_tx_infos_by_block Tracking.get_contract_op_info_by_tx_id Tracking.find_all
    Tracking.with_operations Tracking.gas_used add_transactions add_operations add_operation
    contract_share get set remove add_new uint64 parse bytes_eq bytes_lt with_inflation
    tx_rewards_of estimate_contracts inflation_of has_rewards has_gas_limit tx_has_rewards gas_share
    reward_coin fees_of tx_fee_shares fee_shares share_of make_coin multiply divide of_int truncate
    signed nearest all_zero
is_used = refl

is_shared : estimate_block_rewards sim block_start used_shares ≡ ok block_shares
unfolding estimate_block_gas_usage estimate_block_rewards Tracking.get_block_tracking_info
    Tracking.get_tx_infos_by_block Tracking.get_contract_op_info_by_tx_id Tracking.find_all
    Tracking.with_operations Tracking.gas_used add_transactions add_operations add_operation
    contract_share get set remove add_new uint64 parse bytes_eq bytes_lt with_inflation
    tx_rewards_of estimate_contracts inflation_of has_rewards has_gas_limit tx_has_rewards gas_share
    reward_coin fees_of tx_fee_shares fee_shares share_of make_coin multiply divide of_int truncate
    signed nearest all_zero
is_shared = refl

block_start-ArePayable : ArePayable sim (λ c. none) block_start
unfolding get parse bytes_eq
block_start-ArePayable c m found on =
    (codes "dapp", ground (arith, bytes_eq_iff c (codes "a")), refl)

are_apart : AreApart sim
unfolding bytes_eq
are_apart = record { collector_blocked = refl; treasury_apart = refl }

block_start-IsIndexed : IsIndexed sim block_start
unfolding get
block_start-IsIndexed = record {
  keyed = tt;
  index_keyed = tt;
  indexed = λ a id e. absurd (ground (arith, e));
}

allocate_block_rewards-GivesOut_example :
    (t' : Tracking.State) × (s' : State sim) × (allocate_block_rewards sim tracked block_start
        (pos 7)
        (pos 7)
        0
      ≡ ok (t', s'))
    × IsIndexed sim s'
    × ((d : Text)
        → pool sim s' d
            + owed sim block_start.rewards_records d
            + sim.amount_of block_shares.rewards_total d
          ≡ pool sim block_start d + owed sim s'.rewards_records d)
unfolding estimate_block_gas_usage estimate_block_rewards Tracking.get_block_tracking_info
    Tracking.get_tx_infos_by_block Tracking.get_contract_op_info_by_tx_id Tracking.find_all
    Tracking.with_operations Tracking.gas_used add_transactions add_operations add_operation
    contract_share get set remove add_new uint64 parse bytes_eq bytes_lt with_inflation
    tx_rewards_of estimate_contracts inflation_of has_rewards has_gas_limit tx_has_rewards gas_share
    reward_coin fees_of tx_fee_shares fee_shares share_of make_coin multiply divide of_int truncate
    signed nearest all_zero granted is_rewarded
allocate_block_rewards-GivesOut_example =
    allocate_block_rewards-GivesOut sim (λ c. none) tracked block_start (pos 7) (pos 7) 0 are_apart
      is_used is_shared block_start-IsIndexed (omega arith, λ id above. refl) block_start-ArePayable
      (λ d. ground arith) (λ d. ground arith)

-- Six contracts that use a sixth of the gas of a transaction each.
abbrev shared_tx : Tracking.State
shared_tx = record tracked {
  tx_infos = (1, record { id = 1; height = pos 7; total_gas = 6 }) ∷ [];
  contract_ops =
      (1, operation 1 (codes "a") 1)
      ∷ (2, operation 2 (codes "b") 1)
      ∷ (3, operation 3 (codes "c") 1)
      ∷ (4, operation 4 (codes "d") 1)
      ∷ (5, operation 5 (codes "e") 1)
      ∷ (6, operation 6 (codes "f") 1)
      ∷ [];
  tx_index =
      ((1, 1), tt) ∷ ((1, 2), tt) ∷ ((1, 3), tt) ∷ ((1, 4), tt) ∷ ((1, 5), tt) ∷ ((1, 6), tt) ∷ [];
}

abbrev large_fees : State sim
large_fees = record block_start {
  contract_metadata =
      (codes "a", described (codes "a"))
      ∷ (codes "b", described (codes "b"))
      ∷ (codes "c", described (codes "c"))
      ∷ (codes "d", described (codes "d"))
      ∷ (codes "e", described (codes "e"))
      ∷ (codes "f", described (codes "f"))
      ∷ [];
  block_rewards = [];
  tx_rewards =
      (1, record { tx_id = 1; height = pos 7; fee_rewards = stake (6 * 10 ^ 17 + 5) ∷ [] }) ∷ [];
  bank = λ x d. 10 ^ 20;
}

-- Rounded up six times, the shares exceed the fees by one, and the end of the block panics.
rounded_up : allocate_block_rewards sim shared_tx large_fees (pos 7) (pos 7) 0 ≡ panic
unfolding allocate_block_rewards create_rewards_records is_rewarded distribute_each distribute_to
    create_rewards_record cleanup_rewards_pool sub_list take_out estimate_block_gas_usage
    estimate_block_rewards Tracking.get_block_tracking_info Tracking.get_tx_infos_by_block
    Tracking.get_contract_op_info_by_tx_id Tracking.find_all Tracking.with_operations
    Tracking.gas_used add_transactions add_operations add_operation contract_share get set remove
    add_new uint64 parse bytes_eq bytes_lt with_inflation tx_rewards_of estimate_contracts
    inflation_of has_rewards has_gas_limit tx_has_rewards gas_share reward_coin fees_of
    tx_fee_shares fee_shares share_of make_coin multiply divide of_int truncate signed nearest
    all_zero
rounded_up = refl
