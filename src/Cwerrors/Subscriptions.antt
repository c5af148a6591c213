-- ===== src/Cwerrors/Subscriptions.antt =====
-- The subscriptions of contracts to their errors (x/cwerrors/keeper/subscriptions.go).
use archway.Common.{
  not, Bool, true, false, Option, none, some, List, [], ◌∷◌, ◌&&◌, select, Result, ok, ◌>>=◌, ◌>>◌,
  or_fail, or_panic, require, if◌then◌else◌, ◌==◌ as nat_eq,
}
use archway.Common.Key.{Bytes, Text, ◌==◌, bytes_eq, bytes_key}
use archway.Common.Store.{Store, get, set, remove}
use archway.Common.Int.{ℤ, pos, ◌+ℤ◌, ltb_ℤ, int_key}
use archway.Sdk.{Sdk, Coin}
use archway.Pkg.Fold.{equal_fold}
use archway.Cwerrors.State.{
  Params, State, Keepers, Error, end_block_key, fee_collector_name, contract_not_found,
  unauthorized, params_not_found, incorrect_subscription_fee, bank_error, invalid_address,
  invalid_params,
}

-- `max` of two int64
abbrev pub max : ℤ → ℤ → ℤ
max a b = if ltb_ℤ a b then b else a

-- PruneSubscriptionsEndBlock, the walk: the subscription of every contract of the entries is removed.
unfoldable pub unsubscribe : Store Bytes ℤ → List ((ℤ × Bytes) × Unit {0}) → Store Bytes ℤ
unsubscribe subscriptions [] = subscriptions
unsubscribe subscriptions (((h, contract), _) ∷ entries) =
    unsubscribe (remove subscriptions contract) entries

-- The entry of the subscription that the contract has, if it has one, is removed.
unfoldable pub drop_end_block :
    Store (ℤ × Bytes) (Unit {0}) → Bytes → Bool × ℤ → Store (ℤ × Bytes) (Unit {0})
drop_end_block ends contract (false, height) = ends
drop_end_block ends contract (true, height) = remove ends (height, contract)

module _ (sdk : Sdk) (keepers : Keepers sdk) where
  open sdk use {from_bech32, to_bech32, of_coin, account_to_module}
  open keepers use {World, has_contract_info, contract_admin, metadata_owner}

  unfoldable pub is_metadata_owner : Option Text → Text → Bool
  is_metadata_owner none sender = false
  is_metadata_owner (some owner) sender = equal_fold sender owner

  unfoldable pub is_authorized_to_subscribe : State sdk World → Bytes → Text → Result Error Bool
  unfolding is_metadata_owner
  is_authorized_to_subscribe s contract sender =
      if equal_fold sender (to_bech32 contract)
      then ok true
      else or_panic (contract_admin s.world contract) >>= λ admin.
          if equal_fold sender admin
          then ok true
          else ok (is_metadata_owner (metadata_owner s.world contract) sender)

  unfoldable pub get_subscription : State sdk World → Bytes → Bool × ℤ
  get_subscription s contract = elim (get s.contract_subscriptions contract) [
    | none ↦ (false, pos 0)
    | some height ↦ (true, height)
  ]

  -- `fee.IsEqual`
  abbrev pub same_coin : Coin → Coin → Bool
  same_coin a b = bytes_eq a.denom b.denom && nat_eq a.amount b.amount

  -- The end height of the subscription, and the state with it.
  unfoldable pub set_subscription :
      ℤ → State sdk World → Bytes → Bytes → Coin → Result Error (ℤ × State sdk World)
  unfolding is_authorized_to_subscribe get_subscription drop_end_block
  set_subscription block_height s sender contract fee = do
    require (has_contract_info s.world contract) contract_not_found
    authorized ← is_authorized_to_subscribe s contract (to_bech32 sender)
    require authorized unauthorized
    let existing = get_subscription s contract
    let ends = drop_end_block s.subscription_end_block contract existing
    params ← or_fail s.params params_not_found
    require (same_coin fee params.subscription_fee) incorrect_subscription_fee
    bank ← or_fail (account_to_module s.bank sender fee_collector_name (of_coin fee)) bank_error
    let end_height = max block_height (existing.1) +ℤ params.subscription_period
    ok (
      end_height,
      record s {
        bank = bank;
        subscription_end_block = set ends (end_height, contract) tt;
        contract_subscriptions = set s.contract_subscriptions contract end_height;
      },
    )

  unfoldable pub prune_subscriptions_end_block : ℤ → State sdk World → State sdk World
  unfolding unsubscribe
  prune_subscriptions_end_block height s = record s {
    contract_subscriptions =
        unsubscribe s.contract_subscriptions
          (select (λ (x : (ℤ × Bytes) × Unit {0}). x.0.0 == height) s.subscription_end_block);
    subscription_end_block =
        select (λ (x : (ℤ × Bytes) × Unit {0}). not (x.0.0 == height)) s.subscription_end_block;
  }

  -- SubscribeToError (x/cwerrors/keeper/msg_server.go): the end height, and the state.
  unfoldable pub subscribe_to_error :
      ℤ → State sdk World → Text → Text → Coin → Result Error (ℤ × State sdk World)
  unfolding set_subscription
  subscribe_to_error block_height s sender contract_address fee = do
    sender_addr ← or_fail (from_bech32 sender) invalid_address
    contract ← or_fail (from_bech32 contract_address) invalid_address
    set_subscription block_height s sender_addr contract fee

  -- Params.Validate (x/cwerrors/types/params.go); the validity of a coin is `is_valid_coin`.
  unfoldable pub validate_params : (Coin → Bool) → Params → Result Error (Unit {0})
  validate_params is_valid_coin p = do
    require (ltb_ℤ (pos 0) p.error_stored_time) invalid_params
    require (is_valid_coin p.subscription_fee) invalid_params
    require (ltb_ℤ (pos 0) p.subscription_period) invalid_params

  -- UpdateParams (x/cwerrors/keeper/msg_server.go)
  unfoldable pub update_params :
      (Coin → Bool) → Text → State sdk World → Text → Params → Result Error (State sdk World)
  unfolding validate_params
  update_params is_valid_coin authority s requested_by params = do
    address ← or_fail (from_bech32 requested_by) invalid_address
    require (bytes_eq requested_by authority) unauthorized
    validate_params is_valid_coin params
    ok (record s { params = some params })
