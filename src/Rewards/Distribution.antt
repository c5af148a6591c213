-- ===== src/Rewards/Distribution.antt =====
-- The distribution of the rewards of a block (x/rewards/keeper/distribution.go) and the objects that
-- it reads (x/rewards/types/rewards.go). The maps of Go that it iterates in the order of their keys are
-- stores; events and logs are left out.
use archway.Common.{
  ℕ, Bool, false, not, ◌&&◌, Option, none, some, List, [], ◌∷◌, select, map, Result, ok, ◌>>=◌,
  or_panic, must, if◌then◌else◌, ◌==◌ as nat_eq, ltb,
}
use archway.Common.Key.{Bytes, Text, ◌==◌, bytes_key, nat_key}
use archway.Common.Store.{Store, get, set, remove}
use archway.Common.Int.{ℤ, pos, uint64, ◌-ℤ◌, leb_ℤ}
use archway.Sdk.{Sdk, Coin}
use archway.Pkg.Split.{share_of}
use archway.Rewards.State.{
  ContractMetadata, BlockRewards, TxRewards, State, Error, contract_reward_collector,
  treasury_collector,
}
use archway.Rewards.Records.{create_rewards_record}
use archway.Rewards.Metadata.{is_set}
use archway.Tracking.Records as Tracking

-- `contractRewardsDistributionState`
pub record ContractShare (C : Type 0) : Type 0 where
  pub contract_address : Bytes
  pub metadata : Option ContractMetadata
  pub block_gas_used : ℕ
  pub tx_gas_used : Store ℕ ℕ
  pub fee_rewards : C
  pub inflationary_rewards : Coin

-- `blockRewardsDistributionState`
pub record BlockShares (C : Type 0) : Type 0 where
  pub height : ℤ
  pub txs : Store ℕ ℕ
  pub contracts : Store Text (ContractShare C)
  pub rewards_total : C
  pub rewards_distributed : C

-- The value at a key of a Go map of numbers, 0 for a missing key.
abbrev pub value_at : Store ℕ ℕ → ℕ → ℕ
value_at m k = elim (get m k) [ none ↦ 0 | some n ↦ n ]

module _ (sdk : Sdk) where
  open sdk use {
    Coins, no_coins, of_coin, to_list, add_coins, sub_coins, is_zero, is_empty, Dec18, dec_quo,
    dec_of_int, new_coin, from_bech32, module_to_account, module_to_module,
  }

  abbrev pub Share : Type 0
  Share = ContractShare Coins

  -- HasRewards and HasGasLimit
  unfoldable pub has_rewards : BlockRewards → Bool
  has_rewards r = not (nat_eq r.inflation_rewards.amount 0)

  unfoldable pub has_gas_limit : BlockRewards → Bool
  has_gas_limit r = ltb 0 r.max_gas

  unfoldable pub tx_has_rewards : TxRewards Coins → Bool
  tx_has_rewards r = not (is_zero r.fee_rewards)

  -- The state of a contract; one that is not there yet is made, with the metadata that is found.
  unfoldable pub contract_share : State sdk → Option Share → Text → Result Error Share
  contract_share s (some share) address = ok share
  contract_share s none address = or_panic (from_bech32 address) >>= λ addr. ok (record {
    contract_address = addr;
    metadata = get s.contract_metadata addr;
    block_gas_used = 0;
    tx_gas_used = [];
    fee_rewards = no_coins;
    inflationary_rewards = record { denom = []; amount = 0 };
  })

  -- One operation; those that used no gas are skipped.
  unfoldable pub add_operation :
      State sdk
      → BlockShares Coins
      → Tracking.ContractOperationInfo
      → Result Error (BlockShares Coins)
  unfolding Tracking.gas_used contract_share
  add_operation s b op =
      let gas = Tracking.gas_used op in
      if nat_eq gas 0
      then ok b
      else (contract_share s (get b.contracts op.contract_address) op.contract_address >>= λ share.
          ok (record b {
            contracts = set b.contracts op.contract_address (record share {
              block_gas_used = Tracking.add64 share.block_gas_used gas;
              tx_gas_used =
                  set share.tx_gas_used op.tx_id
                    (Tracking.add64 (value_at share.tx_gas_used op.tx_id) gas);
            });
          }))

  unfoldable pub add_operations :
      State sdk
      → BlockShares Coins
      → List Tracking.ContractOperationInfo
      → Result Error (BlockShares Coins)
  unfolding add_operation
  add_operations s b [] = ok b
  add_operations s b (op ∷ ops) = add_operation s b op >>= λ b'. add_operations s b' ops

  unfoldable pub add_transactions :
      State sdk
      → BlockShares Coins
      → List (Tracking.TxInfo × List Tracking.ContractOperationInfo)
      → Result Error (BlockShares Coins)
  unfolding add_operations
  add_transactions s b [] = ok b
  add_transactions s b ((info, ops) ∷ txs) =
      add_operations s (record b { txs = set b.txs info.id info.total_gas }) ops >>= λ b'.
      add_transactions s b' txs

  unfoldable pub estimate_block_gas_usage :
      Tracking.State → State sdk → ℤ → Result Error (BlockShares Coins)
  unfolding add_transactions
  estimate_block_gas_usage t s height = do
    tracked ← must (Tracking.get_block_tracking_info t height)
    add_transactions s
        (record {
          height = height;
          txs = [];
          contracts = [];
          rewards_total = no_coins;
          rewards_distributed = no_coins;
        })
        tracked

  -- The rewards of the transactions that have some, with the total they are added to.
  unfoldable pub tx_rewards_of :
      State sdk → Store ℕ ℕ → Store ℕ Coins × Coins → Store ℕ Coins × Coins
  unfolding tx_has_rewards
  tx_rewards_of s [] found = found
  tx_rewards_of s ((tx_id, gas) ∷ txs) (rewards, total) =
      tx_rewards_of s txs (elim (get s.tx_rewards tx_id) [
        | none ↦ (rewards, total)
        | some r ↦
            if tx_has_rewards r
            then (set rewards tx_id r.fee_rewards, add_coins total r.fee_rewards)
            else (rewards, total)
      ])

  -- The gas used over a gas total, as a decimal; a division by zero is a panic.
  unfoldable pub gas_share : ℕ → ℕ → Result Error Dec18
  gas_share gas total = or_panic (dec_quo (dec_of_int (pos gas)) (dec_of_int (pos total)))

  unfoldable pub reward_coin : Coin → Dec18 → Result Error Coin
  reward_coin coin share = or_panic (new_coin coin.denom (share_of sdk coin.amount share))

  unfoldable pub inflation_of : Option BlockRewards → Share → Result Error Share
  unfolding has_gas_limit has_rewards gas_share reward_coin
  inflation_of none c = ok c
  inflation_of (some r) c =
      if has_rewards r && has_gas_limit r
      then (gas_share c.block_gas_used r.max_gas >>= λ share.
          reward_coin r.inflation_rewards share >>= λ coin.
          ok (record c { inflationary_rewards = coin }))
      else ok c

  -- The share of each coin of the fees of a transaction, added to the fee rewards.
  unfoldable pub fee_shares : List Coin → Dec18 → Coins → Result Error Coins
  unfolding reward_coin
  fee_shares [] share rewards = ok rewards
  fee_shares (coin ∷ coins) share rewards =
      reward_coin coin share >>= λ part. fee_shares coins share (add_coins rewards (of_coin part))

  -- The fee rewards of one transaction, if it has any.
  unfoldable pub tx_fee_shares : Option Coins → ℕ → ℕ → Coins → Result Error Coins
  unfolding gas_share fee_shares
  tx_fee_shares none gas total rewards = ok rewards
  tx_fee_shares (some fees) gas total rewards =
      gas_share gas total >>= λ share. fee_shares (to_list fees) share rewards

  unfoldable pub fees_of : Store ℕ Coins → Store ℕ ℕ → Store ℕ ℕ → Coins → Result Error Coins
  unfolding tx_fee_shares
  fees_of txs_rewards txs [] rewards = ok rewards
  fees_of txs_rewards txs ((tx_id, gas) ∷ used) rewards =
      tx_fee_shares (get txs_rewards tx_id) gas (value_at txs tx_id) rewards >>= λ rewards'.
      fees_of txs_rewards txs used rewards'

  unfoldable pub estimate_contracts :
      Option BlockRewards
      → Store ℕ Coins
      → Store ℕ ℕ
      → Store Text Share
      → Result Error (Store Text Share)
  unfolding inflation_of fees_of
  estimate_contracts block txs_rewards txs [] = ok []
  estimate_contracts block txs_rewards txs ((key, c) ∷ cs) = inflation_of block c >>= λ inflated.
      fees_of txs_rewards txs inflated.tx_gas_used inflated.fee_rewards >>= λ fees.
      estimate_contracts block txs_rewards txs cs >>= λ rest.
      ok ((key, record inflated { fee_rewards = fees }) ∷ rest)

  -- The total with the inflation rewards of the block, if there are any.
  unfoldable pub with_inflation : Option BlockRewards → Coins → Coins
  unfolding has_rewards
  with_inflation none total = total
  with_inflation (some r) total =
      if has_rewards r then add_coins total (of_coin r.inflation_rewards) else total

  unfoldable pub estimate_block_rewards :
      State sdk → BlockShares Coins → Result Error (BlockShares Coins)
  unfolding with_inflation tx_rewards_of estimate_contracts
  estimate_block_rewards s b = do
    let block = get s.block_rewards (uint64 b.height)
    let found = tx_rewards_of s b.txs ([], with_inflation block b.rewards_total)
    contracts ← estimate_contracts block found.0 b.txs b.contracts
    ok (record b { contracts = contracts; rewards_total = found.1 })

  -- The contracts that get something: there are rewards, metadata and a rewards address.
  unfoldable pub is_rewarded : Text × Share → Bool
  is_rewarded (key, c) =
      not (is_zero c.fee_rewards && nat_eq c.inflationary_rewards.amount 0)
      && elim c.metadata [ none ↦ false | some m ↦ is_set m.rewards_address ]

  abbrev pub rewards_of : Share → Coins
  rewards_of c = add_coins (add_coins no_coins (of_coin c.inflationary_rewards)) c.fee_rewards

  -- To the wallet, or as a record.
  unfoldable pub distribute_to :
      State sdk → ContractMetadata → Bytes → Coins → ℤ → ℕ → Result Error (State sdk)
  distribute_to s m addr rewards height time =
      if m.withdraw_to_wallet
      then (or_panic (module_to_account s.bank contract_reward_collector addr rewards) >>= λ bank.
          ok (record s { bank = bank }))
      else (must (create_rewards_record sdk s addr rewards height time) >>= λ (obj, s'). ok s')

  unfoldable pub distribute_each :
      State sdk → List (Text × Share) → ℤ → ℕ → Coins → Result Error (State sdk × Coins)
  unfolding distribute_to
  distribute_each s [] height time distributed = ok (s, distributed)
  distribute_each s ((key, c) ∷ cs) height time distributed = or_panic c.metadata >>= λ m.
      or_panic (from_bech32 m.rewards_address) >>= λ addr.
      distribute_to s m addr (rewards_of c) height time >>= λ s'.
      distribute_each s' cs height time (add_coins distributed (rewards_of c))

  unfoldable pub create_rewards_records :
      State sdk → BlockShares Coins → ℤ → ℕ → Result Error (State sdk × BlockShares Coins)
  unfolding is_rewarded distribute_each
  create_rewards_records s b height time = do
    (s', distributed) ←
        distribute_each s (select is_rewarded b.contracts) height time b.rewards_distributed
    ok (s', record b { rewards_distributed = distributed })

  unfoldable pub cleanup_rewards_pool : State sdk → BlockShares Coins → Result Error (State sdk)
  cleanup_rewards_pool s b =
      or_panic (sub_coins b.rewards_total b.rewards_distributed) >>= λ leftovers.
      if is_empty leftovers
      then ok s
      else (or_panic
            (module_to_module s.bank contract_reward_collector treasury_collector leftovers)
          >>= λ bank. ok (record s { bank = bank }))

  -- The index of the transactions' rewards is by the height that they hold.
  unfoldable pub tx_rewards_at : State sdk → ℤ → List ℕ
  tx_rewards_at s height =
      map (λ (e : ℕ × TxRewards Coins). e.0)
        (select (λ (e : ℕ × TxRewards Coins). uint64 e.1.height == uint64 height) s.tx_rewards)

  unfoldable pub delete_block_rewards_cascade : State sdk → ℤ → State sdk
  unfolding tx_rewards_at
  delete_block_rewards_cascade s height = record s {
    block_rewards = remove s.block_rewards (uint64 height);
    tx_rewards = Tracking.remove_objects s.tx_rewards (tx_rewards_at s height);
  }

  -- The data of ten blocks ago.
  unfoldable pub cleanup_tracking : Tracking.State → State sdk → ℤ → Tracking.State × State sdk
  unfolding delete_block_rewards_cascade
  cleanup_tracking t s height =
      let height_to_prune = height -ℤ pos 10 in
      if leb_ℤ height_to_prune (pos 0) then (t, s) else (
        Tracking.delete_tx_infos_cascade t height_to_prune,
        delete_block_rewards_cascade s height_to_prune,
      )

  unfoldable pub allocate_block_rewards :
      Tracking.State → State sdk → ℤ → ℤ → ℕ → Result Error (Tracking.State × State sdk)
  unfolding estimate_block_gas_usage estimate_block_rewards create_rewards_records
      cleanup_rewards_pool cleanup_tracking
  allocate_block_rewards t s height block_height block_time = do
    used ← estimate_block_gas_usage t s height
    shares ← estimate_block_rewards s used
    (distributed, b) ← create_rewards_records s shares block_height block_time
    cleaned ← cleanup_rewards_pool distributed b
    ok (cleanup_tracking t cleaned height)
