-- ===== src/Callback/Exec.antt =====
-- The execution of the callbacks of a block (x/callback/abci.go).
use archway.Common.{
  ℕ, Option, none, some, List, [], ◌∷◌, Result, ok, ◌>>=◌, or_panic, must, if◌then◌else◌,
}
use archway.Common.Store.{remove}
use archway.Common.Int.{ℤ}
use archway.Sdk.{Sdk, Coin}
use archway.Pkg.Gas.{Outcome, execute_with_gas_limit}
use archway.Cwerrors.SudoError.{SudoError}
use archway.Callback.State.{
  Callback, State, Keepers, Error, callback_key, callback_msg, module_name,
}
use archway.Callback.Reserve.{get_callbacks_by_height}
use archway.Callback.Fees.{
  calculate_transaction_fees, refund_from_callback_module, send_to_fee_collector,
}

module _ (sdk : Sdk) (keepers : Keepers sdk) where
  open sdk use {coin_add, coin_sub, coin_is_lt, from_bech32}
  open keepers use {
    World, Failure, is_out_of_gas, is_execute_failed, failure_text, err_out_of_gas, sudo, set_error,
  }

  -- ERR_UNKNOWN, ERR_OUT_OF_GAS and ERR_CONTRACT_EXECUTION_FAILED; the later test wins.
  unfoldable pub error_code : Failure → ℕ
  error_code e = if is_execute_failed e then 2 else if is_out_of_gas e then 1 else 0

  -- NewSudoError (x/callback/types/errors.go) of a failed callback.
  unfoldable pub sudo_error_of : Callback → Failure → SudoError
  unfolding error_code callback_msg
  sudo_error_of callback e = record {
    module_name = module_name;
    error_code = error_code e;
    contract_address = callback.contract_address;
    input_payload = callback_msg callback.job_id;
    error_message = failure_text e;
  }

  -- `ctx.GasMeter().ConsumeGas` on the caller's meter, which lies in the world.
  unfoldable pub charge : State sdk World → ℕ → Option (State sdk World)
  charge s gas = elim (keepers.consume_gas s.world gas) [
    | none ↦ none
    | some w ↦ some (record s { world = w })
  ]

  -- An error is stored, and counts as the whole gas limit.
  unfoldable pub settle_error :
      Callback → Outcome Failure → State sdk World → Result Error (ℕ × State sdk World)
  unfolding sudo_error_of
  settle_error callback outcome s = elim outcome.error [
    | none ↦ ok (outcome.gas_used, s)
    | some e ↦ or_panic (set_error s.world (sudo_error_of callback e)) >>= λ w.
        ok (callback.max_gas_limit, record s { world = w })
  ]

  unfoldable pub pay_refund :
      Callback → Coin → State sdk World → Result Error (Coin × State sdk World)
  pay_refund callback consumed s = do
    refund ← or_panic (coin_sub callback.fee_split.transaction_fees consumed)
    s' ← must (refund_from_callback_module sdk keepers s callback.reserved_by refund)
    ok (consumed, s')

  -- The fees consumed, after a refund of what is left of the transaction fees.
  unfoldable pub refund_unused :
      Callback → ℕ → State sdk World → Result Error (Coin × State sdk World)
  unfolding pay_refund
  refund_unused callback gas_used s = do
    consumed ← must (calculate_transaction_fees sdk keepers s.world gas_used)
    less ← or_panic (coin_is_lt consumed callback.fee_split.transaction_fees)
    if less then pay_refund callback consumed s else ok (callback.fee_split.transaction_fees, s)

  -- The rest of the fees goes to the fee collector, and the callback is removed.
  unfoldable pub collect_fees : Callback → Coin → State sdk World → Result Error (State sdk World)
  collect_fees callback consumed s = do
    reservation ← or_panic (
        coin_add callback.fee_split.block_reservation_fees
          callback.fee_split.future_reservation_fees)
    with_surplus ← or_panic (coin_add reservation callback.fee_split.surplus_fees)
    amount ← or_panic (coin_add with_surplus consumed)
    s' ← must (send_to_fee_collector sdk keepers s amount)
    contract_address ← or_panic (from_bech32 callback.contract_address)
    ok (record s' {
      callbacks =
          remove s'.callbacks (callback.callback_height, (contract_address, callback.job_id));
    })

  -- callbackExec: its errors are panics.
  unfoldable pub callback_exec : State sdk World → Callback → Result Error (State sdk World)
  unfolding charge settle_error refund_unused collect_fees
  callback_exec s callback = do
    contract_address ← or_panic (from_bech32 callback.contract_address)
    (outcome, s₁) ←
        execute_with_gas_limit err_out_of_gas charge s callback.max_gas_limit
          λ limit t. sudo limit contract_address (callback_msg callback.job_id) t
    (gas_used, s₂) ← settle_error callback outcome s₁
    (consumed, s₃) ← refund_unused callback gas_used s₂
    collect_fees callback consumed s₃

  unfoldable pub exec_all : State sdk World → List Callback → Result Error (State sdk World)
  exec_all s [] = ok s
  exec_all s (callback ∷ callbacks) = callback_exec s callback >>= λ s'. exec_all s' callbacks

  -- EndBlocker: the callbacks of the height, as they stood when the walk began.
  unfoldable pub end_blocker : ℤ → State sdk World → Result Error (State sdk World)
  unfolding exec_all
  end_blocker block_height s = exec_all s (get_callbacks_by_height s.callbacks block_height)
