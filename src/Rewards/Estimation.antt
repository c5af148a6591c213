-- ===== src/Rewards/Estimation.antt =====
-- The estimation of a block's rewards: the metadata that it works with is the stored one.
use archway.Common.{
  ℕ, ◌≡◌, refl, sym, ap, subst, ◌∙◌, Option, none, some, List, [], ◌∷◌, All, ok, Result-cases,
  Option-cases, ◌&&◌, arith, inl, inr, Bool-cases, ◌==◌ as nat_eq,
}
use archway.Common.Key.{Text, bytes_key, nat_key}
use archway.Common.Store.{Store, get, set, All-set, All-get}
use archway.Common.Int.{ℤ, uint64}
use archway.Sdk.{Sdk}
use archway.Tracking.Records as Tracking
use archway.Rewards.State.{BlockRewards, State}
use archway.Rewards.Distribution.{
  BlockShares, Share, contract_share, add_operation, add_operations, add_transactions,
  estimate_block_gas_usage, estimate_contracts, inflation_of, gas_share, reward_coin, fees_of,
  value_at, has_rewards, has_gas_limit, estimate_block_rewards, tx_rewards_of, with_inflation,
}

module _ (sdk : Sdk) (s : State sdk) where
  open sdk use {Coins, no_coins, from_bech32}

  -- The metadata of a share is that of its contract.
  abbrev pub IsStored : Text × Share sdk → Type 0
  IsStored e = e.1.metadata ≡ get s.contract_metadata e.1.contract_address

  -- The shares have stored metadata, and nothing is distributed yet.
  abbrev pub IsEstimate : BlockShares Coins → Type 0
  IsEstimate b = All IsStored b.contracts × (b.rewards_distributed ≡ no_coins)

  contract_share-IsStored :
      (o : Option (Share sdk)) (key : Text) {c : Share sdk}
      → ((x : Share sdk) → o ≡ some x → IsStored (key, x))
      → contract_share sdk s o key ≡ ok c
      → IsStored (key, c)
  unfolding contract_share
  contract_share-IsStored (some x) key known h = ground (arith, known x refl)
  contract_share-IsStored none key known h = elim (Option-cases (from_bech32 key)) [
    | inl bad ↦ ground arith
    | inr (a, e) ↦ ground arith
  ]

  add_operation-IsEstimate :
      (b : BlockShares Coins) (op : Tracking.ContractOperationInfo) {b' : BlockShares Coins}
      → IsEstimate b
      → add_operation sdk s b op ≡ ok b'
      → IsEstimate b'
  unfolding add_operation
  add_operation-IsEstimate b op {b'} v h = elim (Bool-cases (nat_eq (Tracking.gas_used op) 0)) [
    | inl noop ↦ let same : b ≡ b' = ground arith in subst IsEstimate same v
    | inr used ↦
        elim (Result-cases
          (contract_share sdk s (get b.contracts op.contract_address) op.contract_address)) [
            | inl (c, e) ↦
                let gas = Tracking.gas_used op in
                let c' : Share sdk = record c {
                  block_gas_used = Tracking.add64 c.block_gas_used gas;
                  tx_gas_used =
                      set c.tx_gas_used op.tx_id
                        (Tracking.add64 (value_at c.tx_gas_used op.tx_id) gas);
                } in
                let same : record b { contracts = set b.contracts op.contract_address c' } ≡ b' =
                  ground arith in
                subst IsEstimate same (
                  All-set IsStored b.contracts op.contract_address c'
                      (contract_share-IsStored (get b.contracts op.contract_address)
                        op.contract_address
                        (λ x found. All-get IsStored b.contracts op.contract_address x v.0 found) e)
                      v.0,
                  v.1,
                )
            | inr bad ↦ ground arith
          ]
  ]

  add_operations-IsEstimate :
      (ops : List Tracking.ContractOperationInfo) (b : BlockShares Coins) {b' : BlockShares Coins}
      → IsEstimate b
      → add_operations sdk s b ops ≡ ok b'
      → IsEstimate b'
  unfolding add_operations
  add_operations-IsEstimate [] b {b'} v h =
      let same : b ≡ b' = ground arith in subst IsEstimate same v
  add_operations-IsEstimate (op ∷ ops) b {b'} v h = elim (Result-cases (add_operation sdk s b op)) [
    | inl (b1, e) ↦
        add_operations-IsEstimate ops b1 {b' = b'} (add_operation-IsEstimate b op v e)
          (ground arith)
    | inr bad ↦ ground arith
  ]

  add_transactions-IsEstimate :
      (txs : List (Tracking.TxInfo × List Tracking.ContractOperationInfo)) (b : BlockShares Coins)
      {b' : BlockShares Coins}
      → IsEstimate b
      → add_transactions sdk s b txs ≡ ok b'
      → IsEstimate b'
  unfolding add_transactions
  add_transactions-IsEstimate [] b {b'} v h =
      let same : b ≡ b' = ground arith in subst IsEstimate same v
  add_transactions-IsEstimate ((info, ops) ∷ txs) b {b'} v h =
      let b0 : BlockShares Coins = record b { txs = set b.txs info.id info.total_gas } in
      elim (Result-cases (add_operations sdk s b0 ops)) [
        | inl (b1, e) ↦
            add_transactions-IsEstimate txs b1 {b' = b'} (add_operations-IsEstimate ops b0 v e)
              (ground arith)
        | inr bad ↦ ground arith
      ]

  estimate_block_gas_usage-IsEstimate :
      (t : Tracking.State) (height : ℤ) {b : BlockShares Coins}
      → estimate_block_gas_usage sdk t s height ≡ ok b
      → IsEstimate b
  unfolding estimate_block_gas_usage
  estimate_block_gas_usage-IsEstimate t height {b} h =
      elim (Result-cases (Tracking.get_block_tracking_info t height)) [
        | inl (txs, e) ↦
            add_transactions-IsEstimate txs
              (record {
                height = height;
                txs = [];
                contracts = [];
                rewards_total = no_coins;
                rewards_distributed = no_coins;
              })
              {b' = b} (tt, refl) (ground arith)
        | inr bad ↦ ground arith
      ]

  inflation_of-metadata :
      (o : Option BlockRewards) (c : Share sdk) {c' : Share sdk}
      → inflation_of sdk o c ≡ ok c'
      → (c'.metadata ≡ c.metadata) × (c'.contract_address ≡ c.contract_address)
  unfolding inflation_of
  inflation_of-metadata none c h = ground arith
  inflation_of-metadata (some r) c h =
      elim (Bool-cases (has_rewards sdk r && has_gas_limit sdk r)) [
        | inl on ↦ elim (Result-cases (gas_share sdk c.block_gas_used r.max_gas)) [
          | inl (share, e) ↦ elim (Result-cases (reward_coin sdk r.inflation_rewards share)) [
            | inl (coin, f) ↦ ground arith
            | inr bad ↦ ground arith
          ]
          | inr bad ↦ ground arith
        ]
        | inr off ↦ ground arith
      ]

  estimate_contracts-IsStored :
      (block : Option BlockRewards) (rewards : Store ℕ Coins) (txs : Store ℕ ℕ)
      (cs : Store Text (Share sdk)) {cs' : Store Text (Share sdk)}
      → All IsStored cs
      → estimate_contracts sdk block rewards txs cs ≡ ok cs'
      → All IsStored cs'
  unfolding estimate_contracts
  estimate_contracts-IsStored block rewards txs [] v h = ground arith
  estimate_contracts-IsStored block rewards txs ((key, c) ∷ cs) {cs'} v h =
      elim (Result-cases (inflation_of sdk block c)) [
        | inl (c1, e) ↦
            elim (Result-cases (fees_of sdk rewards txs c1.tx_gas_used c1.fee_rewards)) [
              | inl (fees, f) ↦ elim (Result-cases (estimate_contracts sdk block rewards txs cs)) [
                | inl (rest, g) ↦
                    let same : (key, record c1 { fee_rewards = fees }) ∷ rest ≡ cs' =
                      ground arith in
                    let (meta, addr) = inflation_of-metadata block c e in
                    subst (All IsStored) same (
                      meta ∙ v.0 ∙ sym (ap (get s.contract_metadata) addr),
                      estimate_contracts-IsStored block rewards txs cs v.1 g,
                    )
                | inr bad ↦ ground arith
              ]
              | inr bad ↦ ground arith
            ]
        | inr bad ↦ ground arith
      ]

  -- What is estimated for a block has stored metadata, and nothing is distributed.
  pub estimate_block_rewards-IsEstimate :
      (t : Tracking.State) (height : ℤ) {used b : BlockShares Coins}
      → estimate_block_gas_usage sdk t s height ≡ ok used
      → estimate_block_rewards sdk s used ≡ ok b
      → IsEstimate b
  unfolding estimate_block_rewards
  estimate_block_rewards-IsEstimate t height {used} {b} h k =
      let block = get s.block_rewards (uint64 used.height) in
      let found = tx_rewards_of sdk s used.txs ([], with_inflation sdk block used.rewards_total) in
      elim (Result-cases (estimate_contracts sdk block found.0 used.txs used.contracts)) [
        | inl (cs, e) ↦
            let same : record used { contracts = cs; rewards_total = found.1 } ≡ b = ground arith in
            let v = estimate_block_gas_usage-IsEstimate t height h in
            subst IsEstimate same
              (estimate_contracts-IsStored block found.0 used.txs used.contracts v.0 e, v.1)
        | inr bad ↦ ground arith
      ]
