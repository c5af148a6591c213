-- ===== src/Callback/Reserve.antt =====
-- The pending callbacks (x/callback/keeper/callback.go).
use archway.Common.{
  ℕ, Bool, true, false, Option, none, some, List, map, Result, ok, ◌>>=◌, ◌>>◌, or_fail, or_panic,
  require, reject, length, select, if◌then◌else◌,
}
use archway.Common.Key.{Bytes, Text, ◌==◌}
use archway.Common.Store.{Store, has, get, set, remove}
use archway.Common.Int.{ℤ, pos, leb_ℤ, ltb_ℤ, int64, ◌+ℤ◌, int_key}
use archway.Sdk.{Sdk}
use archway.Pkg.Fold.{equal_fold}
use archway.Callback.State.{
  Callback, CallbackKey, callback_key, State, Keepers, Error, contract_not_found, unauthorized,
  callback_height_not_in_future, callback_exists, callback_height_too_far_in_future, block_filled,
  callback_not_found, invalid_address, params_not_found,
}

-- GetCallbacksByHeight: the entries whose key begins with the height, in the order of their keys.
unfoldable pub get_callbacks_by_height : Store CallbackKey Callback → ℤ → List Callback
get_callbacks_by_height callbacks height =
    map (λ (e : CallbackKey × Callback). e.1)
      (select (λ (e : CallbackKey × Callback). e.0.0 == height) callbacks)

module _ (sdk : Sdk) (keepers : Keepers sdk) where
  open sdk use {from_bech32, to_bech32, blocked_addr}
  open keepers use {World, has_contract_info, contract_admin, metadata_owner}

  unfoldable pub exists_callback : State sdk World → ℤ → Text → ℕ → Result Error Bool
  exists_callback s height contract_addr job_id = do
    contract_address ← or_fail (from_bech32 contract_addr) invalid_address
    ok (has s.callbacks (height, (contract_address, job_id)))

  -- A callback that is not stored, and an address that does not parse, are one error to the caller.
  unfoldable pub get_callback : State sdk World → ℤ → Text → ℕ → Result Error Callback
  get_callback s height contract_addr job_id = do
    contract_address ← or_fail (from_bech32 contract_addr) invalid_address
    or_fail (get s.callbacks (height, (contract_address, job_id))) callback_not_found

  -- `contractMetadata != nil && strings.EqualFold(sender, contractMetadata.OwnerAddress)`
  unfoldable pub is_metadata_owner : Option Text → Text → Bool
  unfolding equal_fold
  is_metadata_owner none sender = false
  is_metadata_owner (some owner) sender = equal_fold sender owner

  unfoldable pub is_authorized_to_modify : State sdk World → Bytes → Text → Result Error Bool
  unfolding is_metadata_owner
  is_authorized_to_modify s contract_address sender = do
    sender_addr ← or_panic (from_bech32 sender)
    if blocked_addr sender_addr
        then ok false
        else if equal_fold sender (to_bech32 contract_address)
        then ok true
        else or_panic (contract_admin s.world contract_address) >>= λ admin.
            if equal_fold sender admin
            then ok true
            else ok (is_metadata_owner (metadata_owner s.world contract_address) sender)

  unfoldable pub delete_callback :
      State sdk World → Text → Callback → Result Error (State sdk World)
  delete_callback s sender callback = do
    contract_address ← or_fail (from_bech32 callback.contract_address) invalid_address
    authorized ← is_authorized_to_modify s contract_address sender
    require authorized unauthorized
    ok (record s {
      callbacks =
          remove s.callbacks (callback.callback_height, (contract_address, callback.job_id));
    })

  unfoldable pub save_callback : ℤ → State sdk World → Callback → Result Error (State sdk World)
  unfolding exists_callback
  save_callback block_height s callback = do
    contract_address ← or_fail (from_bech32 callback.contract_address) invalid_address
    require (has_contract_info s.world contract_address) contract_not_found
    authorized ← is_authorized_to_modify s contract_address callback.reserved_by
    require authorized unauthorized
    exists ← exists_callback s callback.callback_height (to_bech32 contract_address) callback.job_id
    reject exists callback_exists
    reject (leb_ℤ callback.callback_height block_height) callback_height_not_in_future
    params ← or_fail s.params params_not_found
    reject
        (ltb_ℤ (block_height +ℤ int64 params.max_future_reservation_limit) callback.callback_height)
        callback_height_too_far_in_future
    reject
        (leb_ℤ (int64 params.max_block_reservation_limit)
          (pos (length (get_callbacks_by_height s.callbacks callback.callback_height))))
        block_filled
    ok (record s {
      callbacks =
          set s.callbacks (callback.callback_height, (contract_address, callback.job_id))
            (record callback { max_gas_limit = params.callback_gas_limit });
    })
