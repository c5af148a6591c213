-- ===== src/Callback/Msgs.antt =====
-- The message handlers (x/callback/keeper/msg_server.go) and the checks of the parameters
-- (x/callback/types/params.go).
use archway.Common.{ℕ, some, Result, ok, ◌>>=◌, ◌>>◌, or_fail, or_panic, reject, require}
use archway.Common.Key.{Text, bytes_eq}
use archway.Common.Int.{ℤ, pos, ltb_ℤ}
use archway.Sdk.{Sdk, Coin}
use archway.Callback.State.{
  Params, State, Keepers, Error, new_callback, insufficient_fees, callback_not_found,
  invalid_address, unauthorized, invalid_params,
}
use archway.Common.{err, panic}
use archway.Common.{◌==◌}
use archway.Callback.Reserve.{get_callback, delete_callback, save_callback}
use archway.Callback.Fees.{
  estimate_callback_fees, send_to_callback_module, send_to_fee_collector,
  refund_from_callback_module,
}

pub record MsgRequestCallback : Type 0 where
  pub sender : Text
  pub contract_address : Text
  pub job_id : ℕ
  pub callback_height : ℤ
  pub fees : Coin

pub record MsgCancelCallback : Type 0 where
  pub sender : Text
  pub contract_address : Text
  pub job_id : ℕ
  pub callback_height : ℤ

-- Every error of the lookup is reported as a callback that was not found.
unfoldable pub not_found_on_error : {A : Type 0} → Result Error A → Result Error A
not_found_on_error (ok a) = ok a
not_found_on_error (err e) = err callback_not_found
not_found_on_error panic = panic

module _ (sdk : Sdk) (keepers : Keepers sdk) where
  open sdk use {coin_add, coin_sub, coin_is_lt, from_bech32, atto, Dec18}
  open keepers use {World}

  unfoldable pub request_callback :
      ℤ → State sdk World → MsgRequestCallback → Result Error (State sdk World)
  unfolding new_callback
  request_callback block_height s request = do
    (future_fee, block_fee, transaction_fee) ←
        estimate_callback_fees sdk keepers block_height s request.callback_height
    partial ← or_panic (coin_add transaction_fee block_fee)
    expected_fees ← or_panic (coin_add partial future_fee)
    too_low ← or_panic (coin_is_lt request.fees expected_fees)
    reject too_low insufficient_fees
    surplus_fees ← or_panic (coin_sub request.fees expected_fees)
    saved ← save_callback sdk keepers block_height s (
        new_callback request.sender request.contract_address request.callback_height request.job_id
          transaction_fee block_fee future_fee surplus_fees)
    send_to_callback_module sdk keepers saved request.sender request.fees

  -- The new state and the refund.
  unfoldable pub cancel_callback :
      State sdk World → MsgCancelCallback → Result Error (State sdk World × Coin)
  unfolding not_found_on_error
  cancel_callback s request = do
    callback ←
        not_found_on_error (
          get_callback sdk keepers s request.callback_height request.contract_address
            request.job_id)
    deleted ← delete_callback sdk keepers s request.sender callback
    refund_fees ←
        or_panic (coin_add callback.fee_split.transaction_fees callback.fee_split.surplus_fees)
    refunded ← refund_from_callback_module sdk keepers deleted request.sender refund_fees
    reservation_fees ← or_panic (
        coin_add callback.fee_split.block_reservation_fees
          callback.fee_split.future_reservation_fees)
    s' ← send_to_fee_collector sdk keepers refunded reservation_fees
    ok (s', refund_fees)

  -- Params.Validate
  unfoldable pub validate_params : Params Dec18 → Result Error (Unit {0})
  validate_params p = do
    reject (p.callback_gas_limit == 0) invalid_params
    reject (ltb_ℤ (atto p.block_reservation_fee_multiplier) (pos 0)) invalid_params
    reject (ltb_ℤ (atto p.future_reservation_fee_multiplier) (pos 0)) invalid_params

  -- The authority is a parameter of the keeper.
  unfoldable pub update_params :
      Text → State sdk World → Text → Params Dec18 → Result Error (State sdk World)
  unfolding validate_params
  update_params authority s requested_by params = do
    address ← or_fail (from_bech32 requested_by) invalid_address
    require (bytes_eq requested_by authority) unauthorized
    validate_params params
    ok (record s { params = some params })
