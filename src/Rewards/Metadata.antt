-- ===== src/Rewards/Metadata.antt =====
-- The metadata of contracts and their flat fees (x/rewards/keeper/metadata.go and flat_fee.go).
use archway.Common.{
  ℕ, Bool, false, Option, none, some, [], Result, ok, ◌>>=◌, ◌>>◌, or_fail, or_panic, must, require,
  reject, if◌then◌else◌, not, ◌==◌ as nat_eq,
}
use archway.Common.Key.{Bytes, Text, bytes_eq, bytes_key}
use archway.Common.Store.{get, set, remove}
use archway.Common.Int.{ℤ}
use archway.Sdk.{Sdk, Coin}
use archway.Rewards.State.{
  ContractMetadata, State, Error, contract_not_found, metadata_not_found, unauthorized,
  invalid_request, invalid_address,
}
use archway.Rewards.Records.{create_rewards_record}

-- `s != ""`
abbrev pub is_set : Text → Bool
is_set s = not (bytes_eq s [])

module _ (sdk : Sdk) (contract_admin : Bytes → Option Text) where
  open sdk use {Coins, from_bech32, to_bech32, blocked_addr}

  -- A rewards address parses and is not blocked.
  unfoldable pub check_rewards_address : Text → Result Error (Unit {0})
  check_rewards_address address =
      if is_set address
      then (or_fail (from_bech32 address) invalid_address >>= λ addr.
          reject (blocked_addr addr) invalid_request)
      else ok tt

  -- The owner changes metadata that is there; the admin of the contract creates it.
  unfoldable pub may_set : Option ContractMetadata → Text → Text → Result Error (Unit {0})
  may_set (some old) admin sender = require (bytes_eq old.owner_address sender) unauthorized
  may_set none admin sender = require (bytes_eq admin sender) unauthorized

  -- What the updates are applied to.
  unfoldable pub base_metadata : Option ContractMetadata → Text → Text → ContractMetadata
  base_metadata (some old) contract sender = old
  base_metadata none contract sender = record {
    contract_address = contract;
    owner_address = sender;
    rewards_address = [];
    withdraw_to_wallet = false;
  }

  -- The fields that the updates set; `withdraw_to_wallet` is always taken over.
  unfoldable pub updated : ContractMetadata → ContractMetadata → ContractMetadata
  updated base updates = record base {
    owner_address =
        if is_set updates.owner_address then updates.owner_address else base.owner_address;
    rewards_address =
        if is_set updates.rewards_address then updates.rewards_address else base.rewards_address;
    withdraw_to_wallet = updates.withdraw_to_wallet;
  }

  -- `contract_admin` reads the contract of x/wasm, `none` if there is no contract.
  unfoldable pub set_contract_metadata :
      State sdk → Bytes → Bytes → ContractMetadata → Result Error (State sdk)
  unfolding check_rewards_address may_set base_metadata updated
  set_contract_metadata s sender_addr contract_addr updates = do
    admin ← or_fail (contract_admin contract_addr) contract_not_found
    check_rewards_address updates.rewards_address
    let old = get s.contract_metadata contract_addr
    may_set old admin (to_bech32 sender_addr)
    let base = base_metadata old (to_bech32 contract_addr) (to_bech32 sender_addr)
    ok (record s {
      contract_metadata = set s.contract_metadata contract_addr (updated base updates);
    })

  -- A fee of zero removes the flat fee; another one needs a rewards address.
  unfoldable pub store_flat_fee :
      State sdk → Bytes → ContractMetadata → Coin → Result Error (State sdk)
  store_flat_fee s contract info fee =
      if nat_eq fee.amount 0
      then ok (record s { flat_fees = remove s.flat_fees contract })
      else require (is_set info.rewards_address) metadata_not_found
        >> ok (record s { flat_fees = set s.flat_fees contract fee })

  unfoldable pub set_flat_fee : State sdk → Bytes → Text → Coin → Result Error (State sdk)
  unfolding store_flat_fee
  set_flat_fee s sender_addr contract_address fee = do
    contract ← or_panic (from_bech32 contract_address)
    info ← or_fail (get s.contract_metadata contract) metadata_not_found
    require (bytes_eq info.owner_address (to_bech32 sender_addr)) unauthorized
    store_flat_fee s contract info fee

  unfoldable pub get_flat_fee : State sdk → Bytes → Option Coin
  get_flat_fee s contract_addr = get s.flat_fees contract_addr

  -- The metadata of a contract that has none is a nil pointer.
  unfoldable pub create_flat_fee_rewards_records :
      State sdk → Bytes → Coins → ℤ → ℕ → Result Error (State sdk)
  create_flat_fee_rewards_records s contract fees height time = do
    metadata ← or_panic (get s.contract_metadata contract)
    rewards_addr ← or_panic (from_bech32 metadata.rewards_address)
    (obj, s') ← must (create_rewards_record sdk s rewards_addr fees height time)
    ok s'
