-- ===== src/Callback/Fees.antt =====
-- The fees of a callback (x/callback/keeper/fees.go) and the transfers of the keeper
-- (x/callback/keeper/keeper.go).
use archway.Common.{ℕ, Result, ok, ◌>>=◌, ◌>>◌, or_fail, or_panic, reject, length, if◌then◌else◌}
use archway.Common.Key.{Text}
use archway.Common.Int.{ℤ, pos, leb_ℤ, ltb_ℤ, int64, ◌+ℤ◌, ◌-ℤ◌}
use archway.Sdk.{Sdk, Coin}
use archway.Callback.State.{
  State, Keepers, Error, module_name, fee_collector_name, not_in_future, too_far_in_future,
  reservation_limit, params_not_found, invalid_address, bank_error,
}
use archway.Callback.Reserve.{get_callbacks_by_height}

module _ (sdk : Sdk) (keepers : Keepers sdk) where
  open sdk use {
    from_bech32, blocked_addr, of_coin, mul_int, round_int, new_coin, account_to_module,
    module_to_account, module_to_module,
  }
  open keepers use {World, price_of_gas}

  unfoldable pub calculate_transaction_fees : World → ℕ → Result Error Coin
  calculate_transaction_fees w gas_amount = do
    price ← or_panic (price_of_gas w)
    or_panic (new_coin price.denom (round_int (mul_int price.amount (int64 gas_amount))))

  -- Future reservation fees, block reservation fees and transaction fees, in this order.
  unfoldable pub estimate_callback_fees :
      ℤ → State sdk World → ℤ → Result Error (Coin × Coin × Coin)
  unfolding calculate_transaction_fees
  estimate_callback_fees current s block_height = do
    reject (leb_ℤ block_height current) not_in_future
    params ← or_fail s.params params_not_found
    reject (ltb_ℤ (current +ℤ int64 params.max_future_reservation_limit) block_height)
        too_far_in_future
    let future_amount = mul_int params.future_reservation_fee_multiplier (block_height -ℤ current)
    let total_callbacks = length (get_callbacks_by_height s.callbacks block_height)
    reject (leb_ℤ (int64 params.max_block_reservation_limit) (pos total_callbacks))
        reservation_limit
    let block_amount = mul_int params.block_reservation_fee_multiplier (pos total_callbacks)
    transaction_fee ← calculate_transaction_fees s.world params.callback_gas_limit
    future_fee ← or_panic (new_coin transaction_fee.denom (round_int future_amount))
    block_fee ← or_panic (new_coin transaction_fee.denom (round_int block_amount))
    ok (future_fee, block_fee, transaction_fee)

  unfoldable pub send_to_callback_module :
      State sdk World → Text → Coin → Result Error (State sdk World)
  send_to_callback_module s sender amount = do
    sender_addr ← or_fail (from_bech32 sender) invalid_address
    bank ← or_fail (account_to_module s.bank sender_addr module_name (of_coin amount)) bank_error
    ok (record s { bank = bank })

  unfoldable pub send_to_fee_collector : State sdk World → Coin → Result Error (State sdk World)
  send_to_fee_collector s amount = do
    bank ←
        or_fail (module_to_module s.bank module_name fee_collector_name (of_coin amount)) bank_error
    ok (record s { bank = bank })

  unfoldable pub refund_from_callback_module :
      State sdk World → Text → Coin → Result Error (State sdk World)
  unfolding send_to_fee_collector
  refund_from_callback_module s recipient amount = do
    recipient_addr ← or_fail (from_bech32 recipient) invalid_address
    if blocked_addr recipient_addr
        then send_to_fee_collector s amount
        else or_fail (module_to_account s.bank module_name recipient_addr (of_coin amount))
            bank_error
          >>= λ bank. ok (record s { bank = bank })
