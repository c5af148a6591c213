-- ===== src/Rewards/Msgs.antt =====
-- The messages of x/rewards (x/rewards/types/msg.go, x/rewards/types/metadata.go) and their server
-- (x/rewards/keeper/msg_server.go).
use archway.Common.{
  ℕ, Bool, true, false, ◌||◌, Option, none, some, List, [], ◌∷◌, length, Result, ok, ◌>>=◌, ◌>>◌,
  or_fail, require, reject, if◌then◌else◌, ◌==◌ as nat_eq,
}
use archway.Common.Key.{Bytes, Text, bytes_eq}
use archway.Sdk.{Sdk, Coin, DecCoin}
use archway.Rewards.State.{
  Params, ContractMetadata, State, Error, invalid_address, invalid_request, unauthorized,
}
use archway.Rewards.Records.{withdraw_rewards_by_records_limit, withdraw_rewards_by_record_ids}
use archway.Rewards.Metadata.{is_set, set_contract_metadata, set_flat_fee}
use archway.Rewards.MinFee.{validate_params}

-- The mode of a withdrawal: a limit, or identifiers.
pub data WithdrawMode : Type 0 where
  records_limit : ℕ → WithdrawMode
  record_ids : List ℕ → WithdrawMode

pub record MsgWithdrawRewards : Type 0 where
  pub rewards_address : Text
  pub mode : Option WithdrawMode

-- The keys of a Go map that is used as a set.
unfoldable pub is_in : ℕ → List ℕ → Bool
is_in id [] = false
is_in id (x ∷ xs) = nat_eq id x || is_in id xs

-- The loop over identifiers: none is 0, and none is among those that were seen.
unfoldable pub check_ids : List ℕ → List ℕ → Result Error (Unit {0})
unfolding is_in
check_ids seen [] = ok tt
check_ids seen (id ∷ ids) =
    reject (nat_eq id 0) invalid_request
    >> reject (is_in id seen) invalid_request
    >> check_ids (id ∷ seen) ids

unfoldable pub check_mode : Option WithdrawMode → Result Error (Unit {0})
unfolding check_ids
check_mode none = reject true invalid_request
check_mode (some (records_limit limit)) = ok tt
check_mode (some (record_ids ids)) =
    reject (nat_eq (length ids) 0) invalid_request >> check_ids [] ids

module _ (sdk : Sdk) (contract_admin : Bytes → Option Text) where
  open sdk use {Coins, from_bech32}

  unfoldable pub parses : Text → Result Error (Unit {0})
  parses address = or_fail (from_bech32 address) invalid_address >>= λ a. ok tt

  -- MsgWithdrawRewards.ValidateBasic
  unfoldable pub validate_withdraw_rewards : MsgWithdrawRewards → Result Error (Unit {0})
  unfolding parses check_mode
  validate_withdraw_rewards msg = parses msg.rewards_address >> check_mode msg.mode

  -- ContractMetadata.Validate; the flag is that of a genesis file.
  unfoldable pub validate_metadata : Bool → ContractMetadata → Result Error (Unit {0})
  unfolding parses
  validate_metadata genesis m =
      parses m.contract_address
      >> (if genesis || is_set m.owner_address then parses m.owner_address else ok tt)
      >> (if is_set m.rewards_address then parses m.rewards_address else ok tt)

  unfoldable pub msg_withdraw_rewards :
      State sdk → MsgWithdrawRewards → Result Error (Coins × (ℕ × State sdk))
  msg_withdraw_rewards s msg = do
    rewards_addr ← or_fail (from_bech32 msg.rewards_address) invalid_address
    mode ← or_fail msg.mode invalid_request
    elim mode [
      | records_limit limit ↦ withdraw_rewards_by_records_limit sdk s rewards_addr limit
      | record_ids ids ↦ withdraw_rewards_by_record_ids sdk s rewards_addr ids
    ]

  unfoldable pub msg_set_contract_metadata :
      State sdk → Text → ContractMetadata → Result Error (State sdk)
  msg_set_contract_metadata s sender_address metadata = do
    sender_addr ← or_fail (from_bech32 sender_address) invalid_address
    contract_addr ← or_fail (from_bech32 metadata.contract_address) invalid_address
    set_contract_metadata sdk contract_admin s sender_addr contract_addr metadata

  unfoldable pub msg_set_flat_fee : State sdk → Text → Text → Coin → Result Error (State sdk)
  msg_set_flat_fee s sender_address contract_address flat_fee = do
    sender_addr ← or_fail (from_bech32 sender_address) invalid_address
    contract_addr ← or_fail (from_bech32 contract_address) invalid_address
    set_flat_fee sdk contract_admin s sender_addr contract_address flat_fee

  -- `authority` is the module's, and `valid_dec_coin` the validation of a `DecCoin` by the SDK.
  unfoldable pub msg_update_params :
      Text
      → (DecCoin sdk.Dec18 → Bool)
      → State sdk
      → Text
      → Params sdk.Dec18
      → Result Error (State sdk)
  msg_update_params authority valid_dec_coin s sender params = do
    address ← or_fail (from_bech32 sender) invalid_address
    require (bytes_eq sender authority) unauthorized
    validate_params sdk valid_dec_coin params
    ok (record s { params = params })
