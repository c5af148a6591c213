-- ===== src/Wasmbinding/Msgs.antt =====
-- The custom messages (wasmbinding/types/msg.go, wasmbinding/rewards/types), their handlers
-- (wasmbinding/rewards/msg_handler.go) and their dispatch (wasmbinding/msg_plugin.go). The decoding of
-- JSON, the parsing of an integer and the validation of a denomination are parameters.
use archway.Common.{
  ℕ, ◌+◌, Bool, true, false, ◌&&◌, ◌||◌, Option, none, some, List, [], length, Result, ok, ◌>>=◌,
  ◌>>◌, or_fail, or_panic, require, reject, if◌then◌else◌, ltb, ◌==◌ as nat_eq,
}
use archway.Common.Key.{Bytes, Text}
use archway.Common.Int.{ℤ, pos, leb_ℤ}
use archway.Sdk.{Sdk}
use archway.Pkg.Split.{coin_of}
use archway.Rewards.State.{ContractMetadata, State, Error, invalid_request}
use archway.Rewards.Records.{withdraw_rewards_by_records_limit, withdraw_rewards_by_record_ids}
use archway.Rewards.Metadata.{is_set, set_contract_metadata, set_flat_fee}
use archway.Rewards.Msgs.{check_ids, parses}

pub record UpdateContractMetadataRequest : Type 0 where
  pub contract_address : Text
  pub owner_address : Text
  pub rewards_address : Text

pub record WithdrawRewardsRequest : Type 0 where
  pub records_limit : Option ℕ
  pub record_ids : List ℕ

-- A coin of the contracts' interface, with its amount as a text.
pub record WasmCoin : Type 0 where
  pub denom : Text
  pub amount : Text

pub record SetFlatFeeRequest : Type 0 where
  pub contract_address : Text
  pub flat_fee_amount : WasmCoin

-- `Msg`: of the three fields one is to be set.
pub record CustomMsg : Type 0 where
  pub update_contract_metadata : Option UpdateContractMetadataRequest
  pub withdraw_rewards : Option WithdrawRewardsRequest
  pub set_flat_fee_msg : Option SetFlatFeeRequest

-- One for a field that is set.
abbrev pub count {ℓ} : {A : Type ℓ} → Option A → ℕ
count none = 0
count (some a) = 1

unfoldable pub validate_msg : CustomMsg → Result Error (Unit {0})
validate_msg m =
    require
      (nat_eq
        (count m.update_contract_metadata + count m.withdraw_rewards + count m.set_flat_fee_msg) 1)
      invalid_request

-- Exactly one of a limit and of identifiers, and the identifiers are in order.
unfoldable pub validate_withdraw : WithdrawRewardsRequest → Result Error (Unit {0})
unfolding check_ids
validate_withdraw r =
    reject (nat_eq (count r.records_limit) 0 && nat_eq (length r.record_ids) 0) invalid_request
    >> reject (nat_eq (count r.records_limit) 1 && ltb 0 (length r.record_ids)) invalid_request
    >> check_ids [] r.record_ids

-- ToSDK: the fields that are not in the request have the zero values of Go.
unfoldable pub metadata_to_sdk : UpdateContractMetadataRequest → ContractMetadata
metadata_to_sdk r = record {
  contract_address = [];
  owner_address = r.owner_address;
  rewards_address = r.rewards_address;
  withdraw_to_wallet = false;
}

module _ (sdk : Sdk) (contract_admin : Bytes → Option Text) (parse_int : Text → Option ℤ)
    (valid_denom : Text → Bool) where
  open sdk use {Coins, from_bech32}

  -- An address that is set has to parse.
  unfoldable pub parses_if_set : Text → Result Error (Unit {0})
  unfolding parses
  parses_if_set address = if is_set address then parses sdk contract_admin address else ok tt

  unfoldable pub validate_update : UpdateContractMetadataRequest → Result Error (Unit {0})
  unfolding parses_if_set
  validate_update r =
      parses_if_set r.contract_address
      >> parses_if_set r.owner_address
      >> parses_if_set r.rewards_address
      >> require (is_set r.owner_address || is_set r.rewards_address) invalid_request

  -- The target is the sender, if the request names none.
  unfoldable pub target_of : Bytes → UpdateContractMetadataRequest → Result Error Bytes
  target_of sender r =
      if is_set r.contract_address then or_panic (from_bech32 r.contract_address) else ok sender

  unfoldable pub update_contract_metadata :
      State sdk → Bytes → UpdateContractMetadataRequest → Result Error (State sdk)
  unfolding validate_update target_of metadata_to_sdk
  update_contract_metadata s sender req = do
    validate_update req
    contract_addr ← target_of sender req
    set_contract_metadata sdk contract_admin s sender contract_addr (metadata_to_sdk req)

  unfoldable pub withdraw_by :
      State sdk → Bytes → Option ℕ → List ℕ → Result Error (Coins × (ℕ × State sdk))
  withdraw_by s contract_addr (some limit) ids =
      withdraw_rewards_by_records_limit sdk s contract_addr limit
  withdraw_by s contract_addr none ids = withdraw_rewards_by_record_ids sdk s contract_addr ids

  unfoldable pub withdraw_contract_rewards :
      State sdk → Bytes → WithdrawRewardsRequest → Result Error (Coins × (ℕ × State sdk))
  unfolding validate_withdraw withdraw_by
  withdraw_contract_rewards s contract_addr req =
      validate_withdraw req >> withdraw_by s contract_addr req.records_limit req.record_ids

  unfoldable pub wasm_coin_to_sdk : WasmCoin → Result Error (Text × ℤ)
  wasm_coin_to_sdk c = or_fail (parse_int c.amount) invalid_request >>= λ a. ok (c.denom, a)

  unfoldable pub validate_flat_fee : SetFlatFeeRequest → Result Error (Unit {0})
  unfolding parses wasm_coin_to_sdk
  validate_flat_fee r =
      parses sdk contract_admin r.contract_address
      >> (wasm_coin_to_sdk r.flat_fee_amount >>= λ (d, a).
          require (valid_denom d && leb_ℤ (pos 0) a) invalid_request)

  unfoldable pub set_contract_flat_fee :
      State sdk → Bytes → SetFlatFeeRequest → Result Error (State sdk)
  unfolding validate_flat_fee wasm_coin_to_sdk
  set_contract_flat_fee s sender req =
      validate_flat_fee req
      >> (wasm_coin_to_sdk req.flat_fee_amount >>= λ (d, a).
          coin_of d a >>= λ fee. set_flat_fee sdk contract_admin s sender req.contract_address fee)

  -- The field that is set, in the order of the switch; the response is that of a withdrawal.
  unfoldable pub dispatch_to :
      State sdk → Bytes → CustomMsg → Result Error (Option (Coins × ℕ) × State sdk)
  unfolding update_contract_metadata withdraw_contract_rewards set_contract_flat_fee
  dispatch_to s contract_addr m = elim m.update_contract_metadata [
    | some req ↦ update_contract_metadata s contract_addr req >>= λ s'. ok (none, s')
    | none ↦ elim m.withdraw_rewards [
      | some req ↦
          withdraw_contract_rewards s contract_addr req >>= λ (t, (n, s')). ok (some (t, n), s')
      | none ↦ elim m.set_flat_fee_msg [
        | some req ↦ set_contract_flat_fee s contract_addr req >>= λ s'. ok (none, s')
        | none ↦ reject true invalid_request >>= λ u. ok (none, s)
      ]
    ]
  ]

  -- A custom message, as JSON decodes it; others go to the wrapped messenger.
  unfoldable pub dispatch_msg :
      State sdk → Bytes → Option CustomMsg → Result Error (Option (Coins × ℕ) × State sdk)
  unfolding validate_msg dispatch_to
  dispatch_msg s contract_addr custom =
      or_fail custom invalid_request >>= λ m. validate_msg m >> dispatch_to s contract_addr m
