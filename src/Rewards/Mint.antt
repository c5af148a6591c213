-- ===== src/Rewards/Mint.antt =====
-- The split of minted coins between the fee collector and the contracts' rewards
-- (x/rewards/mintbankkeeper/keeper.go).
use archway.Common.{ℕ, not, ◌||◌, List, [], ◌∷◌, Result, ok, panic, ◌>>=◌, or_fail, if◌then◌else◌}
use archway.Common.Key.{Text, ◌==◌, bytes_key}
use archway.Common.Int.{ℤ, pos, eqb_ℤ}
use archway.Common.Str.{codes}
use archway.Sdk.{Sdk, Coin}
use archway.Pkg.Split.{split_coins}
use archway.Rewards.State.{State, Error, bank_error, contract_reward_collector}
use archway.Rewards.MinFee.{track_inflation_rewards, update_min_consensus_fee}

-- FeeCollectorName of x/auth
abbrev pub fee_collector : Text
fee_collector = codes "fee_collector"

module _ (sdk : Sdk) where
  open sdk use {Coins, Dec18, atto, to_list, is_empty, module_to_module}

  -- A transfer of the bank that is decorated.
  unfoldable pub transfer : State sdk → Text → Text → Coins → Result Error (State sdk)
  transfer s sender recipient amt =
      or_fail (module_to_module s.bank sender recipient amt) bank_error >>= λ bank.
      ok (record s { bank = bank })

  -- A transfer of coins, if there are any.
  unfoldable pub transfer_some : State sdk → Text → Text → Coins → Result Error (State sdk)
  unfolding transfer
  transfer_some s sender recipient amt =
      if is_empty amt then ok s else transfer s sender recipient amt

  -- Exactly one coin is tracked.
  unfoldable pub track_one : State sdk → List Coin → ℤ → ℕ → Result Error (State sdk)
  track_one s (c ∷ []) height block_gas_limit =
      update_min_consensus_fee sdk (track_inflation_rewards sdk s height block_gas_limit c) c
        block_gas_limit
  track_one s _ height block_gas_limit = panic

  -- The height and the gas limit are those of the block.
  unfoldable pub send_coins_from_module_to_module :
      State sdk → ℤ → ℕ → Text → Text → Coins → Result Error (State sdk)
  unfolding transfer transfer_some track_one
  send_coins_from_module_to_module s height block_gas_limit sender_module recipient_module amt =
      let ratio = s.params.inflation_rewards_ratio in
      if not (recipient_module == fee_collector) || eqb_ℤ (atto ratio) (pos 0)
      then transfer s sender_module recipient_module amt
      else (split_coins sdk amt ratio >>= λ (dapp_rewards, staking_rewards).
          transfer_some s sender_module recipient_module staking_rewards >>= λ s1.
          transfer_some s1 sender_module contract_reward_collector dapp_rewards >>= λ s2.
          track_one s2 (to_list dapp_rewards) height block_gas_limit)
