-- ===== src/Rewards/Ante.antt =====
-- The fees of a transaction: what its messages ask for (x/rewards/ante/ante_utils.go), the check of the
-- minimum (x/rewards/ante/min_cons_fee.go) and the deduction (x/rewards/ante/fee_deduction.go).
use archway.Common.{
  ℕ, Bool, true, false, not, ◌||◌, Option, none, some, List, [], ◌∷◌, ◌++◌, Result, ok, err, ◌>>=◌,
  ◌>>◌, or_fail, or_panic, require, if◌then◌else◌,
}
use archway.Common.Key.{Bytes, Text}
use archway.Common.Int.{ℤ, pos, eqb_ℤ}
use archway.Sdk.{Sdk, Coin}
use archway.Pkg.Split.{split_coins}
use archway.Rewards.State.{
  State, Error, invalid_address, unauthorized, bank_error, contract_reward_collector,
  insufficient_fee,
}
use archway.Rewards.Metadata.{get_flat_fee, create_flat_fee_rewards_records}
use archway.Rewards.MinFee.{computational_price_of_gas, track_fee_rebates_rewards}
use archway.Rewards.Mint.{fee_collector}

-- The messages that are told apart: those of x/wasm and x/authz, and all others. An execution of x/authz
-- has messages that decode, or not.
mutual
  pub data Msg : Type 0 where
    migrate_contract : Msg
    execute_contract : Text → Msg
    authz_exec : Msgs → Msg
    authz_undecodable : Msg
    other_msg : Msg

  pub data Msgs : Type 0 where
    no_msgs : Msgs
    more_msgs : Msg → Msgs → Msgs

-- `contractFlatFee`
pub record ContractFlatFee (C : Type 0) : Type 0 where
  pub contract_address : Bytes
  pub flat_fees : C

-- `sdk.FeeTx`, with the messages of the transaction.
pub record FeeTx (C : Type 0) : Type 0 where
  pub msgs : Msgs
  pub fee : C
  pub gas : ℕ

module _ (sdk : Sdk) (contract_admin : Bytes → Option Text) where
  open sdk use {
    Coins, Dec18, atto, no_coins, of_coin, add_coins, sub_coins, is_zero, is_empty, is_all_gte,
    from_bech32, new_coin, mul_int, truncate_int, account_to_module, burn_coins,
  }

  abbrev pub Fees : Type 0
  Fees = List (ContractFlatFee Coins)

  -- The flat fee of an executed contract, if it has one.
  unfoldable pub flat_fee_of : State sdk → Bytes → Fees
  unfolding get_flat_fee
  flat_fee_of s ca = elim (get_flat_fee sdk contract_admin s ca) [
    | none ↦ []
    | some fee ↦ record { contract_address = ca; flat_fees = of_coin fee } ∷ []
  ]

  -- GetContractFlatFees, with its flag. The flags of the messages within an execution of x/authz are
  -- variables of the loop, which the result does not see.
  unfoldable mutual
    pub get_contract_flat_fees : State sdk → Msg → Result Error (Fees × Bool)
    get_contract_flat_fees s migrate_contract = ok ([], true)
    get_contract_flat_fees s (execute_contract contract) =
        or_fail (from_bech32 contract) invalid_address >>= λ ca. ok (flat_fee_of s ca, true)
    get_contract_flat_fees s (authz_exec msgs) =
        wrapped_flat_fees s msgs >>= λ fees. ok (fees, false)
    get_contract_flat_fees s authz_undecodable = err unauthorized
    get_contract_flat_fees s other_msg = ok ([], false)

    pub wrapped_flat_fees : State sdk → Msgs → Result Error Fees
    wrapped_flat_fees s no_msgs = ok []
    wrapped_flat_fees s (more_msgs m ms) =
        get_contract_flat_fees s m >>= λ r. wrapped_flat_fees s ms >>= λ fees. ok (r.0 ++ fees)

  -- The records for flat fees, made in order, and the fees that are expected with them.
  unfoldable pub expect_fees : State sdk → Fees → Coins → ℤ → ℕ → Result Error (State sdk × Coins)
  expect_fees s [] expected height time = ok (s, expected)
  expect_fees s (cff ∷ cffs) expected height time =
      create_flat_fee_rewards_records sdk contract_admin s cff.contract_address cff.flat_fees height
        time
      >>= λ s'. expect_fees s' cffs (add_coins expected cff.flat_fees) height time

  unfoldable pub expect_all : State sdk → Msgs → Coins → ℤ → ℕ → Result Error (State sdk × Coins)
  unfolding get_contract_flat_fees expect_fees
  expect_all s no_msgs expected height time = ok (s, expected)
  expect_all s (more_msgs m ms) expected height time = get_contract_flat_fees s m >>= λ r.
      expect_fees s r.0 expected height time >>= λ t. expect_all t.0 ms t.1 height time

  -- The price of the gas of a transaction, rounded down to a coin.
  unfoldable pub gas_fee : State sdk → ℕ → Result Error Coin
  unfolding computational_price_of_gas
  gas_fee s gas = computational_price_of_gas sdk s >>= λ price.
      or_panic (new_coin price.denom (truncate_int (mul_int price.amount (pos gas))))

  -- AnteHandle of the MinFeeDecorator, up to the next decorator.
  unfoldable pub check_min_fee : State sdk → FeeTx Coins → Bool → ℤ → ℕ → Result Error (State sdk)
  unfolding gas_fee expect_all
  check_min_fee s tx simulate height time = do
    base ← gas_fee s tx.gas
    (s', expected) ← expect_all s tx.msgs (add_coins no_coins (of_coin base)) height time
    require (simulate || is_zero expected || is_all_gte tx.fee expected) insufficient_fee
    ok s'

  unfoldable pub sum_fees : Fees → Coins → Coins
  sum_fees [] total = total
  sum_fees (cff ∷ cffs) total = sum_fees cffs (add_coins total cff.flat_fees)

  -- The flat fees of all messages, and whether one of them is of x/wasm.
  unfoldable pub flat_fees_of : State sdk → Msgs → Coins → Bool → Result Error (Coins × Bool)
  unfolding get_contract_flat_fees sum_fees
  flat_fees_of s no_msgs flat has_wasm = ok (flat, has_wasm)
  flat_fees_of s (more_msgs m ms) flat has_wasm = get_contract_flat_fees s m >>= λ r.
      flat_fees_of s ms (sum_fees r.0 flat) (if has_wasm then true else r.1)

  unfoldable pub collect_from : State sdk → Bytes → Text → Coins → Result Error (State sdk)
  collect_from s acc recipient coins =
      or_fail (account_to_module s.bank acc recipient coins) bank_error >>= λ bank.
      ok (record s { bank = bank })

  -- The flat fees go to the contracts' rewards; what is left of the fees is returned.
  unfoldable pub pay_flat_fees :
      State sdk → Bytes → Coins → Coins → Result Error (State sdk × Coins)
  unfolding collect_from
  pay_flat_fees s acc flat fees =
      if is_empty flat
      then ok (s, fees)
      else (collect_from s acc contract_reward_collector flat >>= λ s'.
          or_panic (sub_coins fees flat) >>= λ rest. ok (s', rest))

  -- The part of the fee collector is burnt.
  unfoldable pub pay_auth_fees : State sdk → Bytes → Coins → Result Error (State sdk)
  unfolding collect_from
  pay_auth_fees s acc auth_fees =
      if is_empty auth_fees
      then ok s
      else (collect_from s acc fee_collector auth_fees >>= λ s'.
          or_fail (burn_coins s'.bank fee_collector auth_fees) bank_error >>= λ bank.
          ok (record s' { bank = bank }))

  unfoldable pub pay_rewards_fees : State sdk → Bytes → Coins → Result Error (State sdk)
  unfolding collect_from
  pay_rewards_fees s acc rewards_fees =
      if is_empty rewards_fees
      then ok s
      else collect_from s acc contract_reward_collector rewards_fees

  -- `is_valid` is the validation of coins by the SDK; the transaction's identifier is that of x/tracking.
  unfoldable pub deduct_fees :
      (Coins → Bool) → State sdk → Bytes → Msgs → Coins → ℕ → ℤ → Result Error (State sdk)
  unfolding flat_fees_of pay_flat_fees pay_auth_fees pay_rewards_fees collect_from
  deduct_fees is_valid s acc msgs fees tx_id height = do
    require (is_valid fees) insufficient_fee
    (flat, has_wasm_msgs) ← flat_fees_of s msgs no_coins false
    let ratio = s.params.tx_fee_rebate_ratio
    if eqb_ℤ (atto ratio) (pos 0) || not has_wasm_msgs
        then collect_from s acc fee_collector fees
        else (pay_flat_fees s acc flat fees >>= λ (s1, rest).
            split_coins sdk rest ratio >>= λ (rewards_fees, auth_fees).
            pay_auth_fees s1 acc auth_fees >>= λ s2. pay_rewards_fees s2 acc rewards_fees >>= λ s3.
            ok (track_fee_rebates_rewards sdk s3 tx_id height rewards_fees))
