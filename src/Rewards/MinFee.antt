-- ===== src/Rewards/MinFee.antt =====
-- The minimum consensus fee (x/rewards/keeper/min_cons_fee.go), the tracking of rewards
-- (x/rewards/keeper/tracking.go) and the parameters (x/rewards/keeper/params.go and
-- x/rewards/types/params.go). The limit of the block's gas meter is an argument.
use archway.Common.{
  ℕ, ◌-◌, ◌^◌, Bool, ◌||◌, not, Option, none, some, Result, ok, ◌>>=◌, ◌>>◌, or_panic, panic,
  reject, require, if◌then◌else◌, ltb, ◌==◌ as nat_eq,
}
use archway.Common.Key.{Text, ◌==◌, bytes_key, nat_key}
use archway.Common.Store.{set}
use archway.Common.Int.{ℤ, pos, uint64, leb_ℤ, ltb_ℤ}
use archway.Sdk.{Sdk, Coin, DecCoin, precision}
use archway.Rewards.State.{Params, State, Error, invalid_request}

-- The limit of a meter that has none (math.MaxUint64).
abbrev pub no_limit : ℕ
no_limit = 2 ^ 64 - 1

-- MaxWithdrawRecordsParamLimit
abbrev pub max_withdraw_records_param_limit : ℕ
max_withdraw_records_param_limit = 25000

module _ (sdk : Sdk) where
  open sdk use {
    Coins, valid_denom, Dec18, atto, dec_of_int, dec_mul, dec_quo, dec_sub, dec_neg, dec_max,
  }

  -- `blockRewards / (gasLimit * (txFeeRatio - 1))`, negated; a division by zero is a panic.
  unfoldable pub calculate_min_consensus_fee_amt : Dec18 → Dec18 → Dec18 → Result Error Dec18
  calculate_min_consensus_fee_amt block_rewards gas_limit tx_fee_ratio =
      or_panic
        (dec_quo block_rewards (dec_mul gas_limit (dec_sub tx_fee_ratio (dec_of_int (pos 1)))))
      >>= λ q. ok (dec_neg q)

  -- A fee that is not above zero is not stored.
  unfoldable pub store_min_fee : State sdk → Text → Dec18 → State sdk
  store_min_fee s denom fee_amt =
      if leb_ℤ (atto fee_amt) (pos 0)
      then s
      else record s { min_cons_fee = some (record { denom = denom; amount = fee_amt }) }

  unfoldable pub update_min_consensus_fee : State sdk → Coin → ℕ → Result Error (State sdk)
  unfolding calculate_min_consensus_fee_amt store_min_fee
  update_min_consensus_fee s inflation_rewards block_gas_limit =
      if nat_eq inflation_rewards.amount 0 || nat_eq block_gas_limit no_limit
      then ok s
      else (calculate_min_consensus_fee_amt (dec_of_int (pos inflation_rewards.amount))
            (dec_of_int (pos block_gas_limit)) s.params.tx_fee_rebate_ratio
          >>= λ fee_amt. ok (store_min_fee s inflation_rewards.denom fee_amt))

  unfoldable pub get_min_consensus_fee : State sdk → Option (DecCoin Dec18)
  get_min_consensus_fee s = s.min_cons_fee

  -- Two denominations are a panic, and so is one that is not valid or an amount below zero.
  unfoldable pub computational_price_of_gas : State sdk → Result Error (DecCoin Dec18)
  unfolding get_min_consensus_fee
  computational_price_of_gas s =
      let min_pog = s.params.min_price_of_gas in
      elim (get_min_consensus_fee s) [
        | none ↦ ok min_pog
        | some anti_dos_pog ↦
            if min_pog.denom == anti_dos_pog.denom
            then (let amount = dec_max min_pog.amount anti_dos_pog.amount in
                if not (valid_denom min_pog.denom) || ltb_ℤ (atto amount) (pos 0)
                then panic
                else ok (record { denom = min_pog.denom; amount = amount }))
            else panic
      ]

  -- The identifier is that of x/tracking.
  unfoldable pub track_fee_rebates_rewards : State sdk → ℕ → ℤ → Coins → State sdk
  track_fee_rebates_rewards s tx_id height rewards = record s {
    tx_rewards =
        set s.tx_rewards tx_id (record { tx_id = tx_id; height = height; fee_rewards = rewards });
  }

  unfoldable pub track_inflation_rewards : State sdk → ℤ → ℕ → Coin → State sdk
  track_inflation_rewards s height block_gas_limit rewards = record s {
    block_rewards = set s.block_rewards (uint64 height) (record {
      height = height;
      inflation_rewards = rewards;
      max_gas = if nat_eq block_gas_limit no_limit then 0 else block_gas_limit;
    });
  }

  unfoldable pub validate_ratio : Dec18 → Result Error (Unit {0})
  validate_ratio v =
      reject (ltb_ℤ (atto v) (pos 0)) invalid_request
      >> reject (leb_ℤ (pos precision) (atto v)) invalid_request

  unfoldable pub validate_max_withdraw_records : ℕ → Result Error (Unit {0})
  validate_max_withdraw_records p =
      reject (nat_eq p 0) invalid_request
      >> reject (ltb max_withdraw_records_param_limit p) invalid_request

  -- `valid_dec_coin` is the validation of a `DecCoin` by the SDK.
  unfoldable pub validate_params : (DecCoin Dec18 → Bool) → Params Dec18 → Result Error (Unit {0})
  unfolding validate_ratio validate_max_withdraw_records
  validate_params valid_dec_coin m =
      validate_ratio m.inflation_rewards_ratio
      >> validate_ratio m.tx_fee_rebate_ratio
      >> validate_max_withdraw_records m.max_withdraw_records
      >> require (valid_dec_coin m.min_price_of_gas) invalid_request
