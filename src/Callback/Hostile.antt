-- ===== src/Callback/Hostile.antt =====
-- A contract that cancels its callback when it is called back, at the small SDK.
use archway.Common.{value_or, ℕ, ◌+◌, ◌≡◌, refl, none, Result, ok, err, panic}
use archway.Common.Key.{Text, bytes_key, bytes_eq, bytes_lt}
use archway.Common.Store.{get, set, remove, add_new}
use archway.Common.Int.{pos, ◌+ℤ◌, ◌-ℤ◌, int64, wrap64}
use archway.Common.Str.{codes}
use archway.Sdk.{Coin}
use archway.Pkg.Fold.{equal_fold, to_lower}
use archway.Pkg.Gas.{Run, finished, failed, panicked, conclude, execute_with_gas_limit}
use archway.Sim.Decimals.{nearest, scale, signed, round}
use archway.Sim.Ledger.{move, withdraw, deposit, within}
use archway.Sim.Instance.{sim, make_coin, add_coin, sub_coin, is_lt, parse, pay}
use archway.Callback.State.{State, Keepers, Callback, callback_key, callback_msg, new_callback}
use archway.Callback.Reserve.{
  get_callbacks_by_height, get_callback, exists_callback, save_callback, delete_callback,
  is_authorized_to_modify, is_metadata_owner,
}
use archway.Callback.Fees.{
  calculate_transaction_fees, estimate_callback_fees, send_to_callback_module,
  send_to_fee_collector, refund_from_callback_module,
}
use archway.Callback.Msgs.{request_callback, cancel_callback, not_found_on_error}
use archway.Callback.Exec.{
  charge, settle_error, pay_refund, refund_unused, collect_fees, callback_exec,
}
use archway.Callback.Escrow.{IsValid, escrow, split_amount}
use archway.Callback.Escrow.Request.{request_callback-IsValid}
use archway.Callback.Escrow.Cancel.{cancel_callback-IsValid}
use archway.Callback.Escrow.Reentry.{call, callback_exec-reentry}
use archway.Callback.Scene.{
  contract, stake, quiet, accounts, start, request, pending, cancellation, saved, pending-IsValid,
  is_parsed,
}

abbrev on_call : Result archway.Callback.State.Error (State sim ℕ × Coin) → Run Text (State sim ℕ)
on_call (ok (s, refund)) = finished 3 s
on_call (err e) = failed 3 (codes "failed")
on_call panic = panicked

abbrev hostile : Keepers sim
hostile = record quiet {
  sudo = λ limit a msg s. on_call (cancel_callback sim quiet s cancellation);
}

abbrev two_pending : State sim ℕ
two_pending =
    value_or start (request_callback sim quiet (pos 10) pending (record request { job_id = 2 }))

is_two_pending :
    request_callback sim quiet (pos 10) pending (record request { job_id = 2 }) ≡ ok two_pending
unfolding request_callback estimate_callback_fees ◌+ℤ◌ ◌-ℤ◌ int64 wrap64 get_callbacks_by_height
    make_coin round scale signed nearest add_coin sub_coin is_lt bytes_eq bytes_lt save_callback
    parse is_authorized_to_modify get set remove add_new send_to_callback_module move withdraw
    deposit within calculate_transaction_fees exists_callback is_metadata_owner new_callback
    equal_fold to_lower
is_two_pending = refl

abbrev one_canceled : State sim ℕ
one_canceled =
    (value_or (two_pending, stake 0) (cancel_callback sim quiet two_pending cancellation)).0

is_one_canceled : cancel_callback sim quiet two_pending cancellation ≡ ok (one_canceled, stake 7)
unfolding request_callback estimate_callback_fees ◌+ℤ◌ ◌-ℤ◌ int64 wrap64 get_callbacks_by_height
    make_coin round scale signed nearest add_coin sub_coin is_lt bytes_eq bytes_lt save_callback
    parse is_authorized_to_modify get set remove add_new send_to_callback_module move withdraw
    deposit within calculate_transaction_fees exists_callback is_metadata_owner new_callback
    equal_fold to_lower cancel_callback get_callback not_found_on_error delete_callback
    refund_from_callback_module send_to_fee_collector pay
is_one_canceled = refl

one_canceled-IsValid : IsValid sim one_canceled
one_canceled-IsValid =
    (cancel_callback-IsValid sim quiet accounts two_pending cancellation
      (request_callback-IsValid sim quiet accounts (pos 10) pending (record request { job_id = 2 })
        pending-IsValid is_two_pending)
      is_one_canceled).1

abbrev called : State sim ℕ
called = record one_canceled { world = 3 }

called-IsValid : IsValid sim called
called-IsValid = record {
  keyed = one_canceled-IsValid.keyed;
  own_keys = one_canceled-IsValid.own_keys;
  funded = one_canceled-IsValid.funded;
}

abbrev executed : State sim ℕ
executed = value_or start (callback_exec sim hostile two_pending saved)

is_called :
    call sim hostile accounts two_pending saved contract
    ≡ ok (record { gas_used = 3; error = none }, called)
unfolding request_callback estimate_callback_fees ◌+ℤ◌ ◌-ℤ◌ int64 wrap64 get_callbacks_by_height
    make_coin round scale signed nearest add_coin sub_coin is_lt bytes_eq bytes_lt save_callback
    parse is_authorized_to_modify get set remove add_new send_to_callback_module move withdraw
    deposit within calculate_transaction_fees exists_callback is_metadata_owner new_callback
    equal_fold to_lower cancel_callback get_callback not_found_on_error delete_callback
    refund_from_callback_module send_to_fee_collector pay execute_with_gas_limit conclude charge
is_called = refl

is_gone : get called.callbacks (pos 12, (contract, 1)) ≡ none
unfolding request_callback estimate_callback_fees ◌+ℤ◌ ◌-ℤ◌ int64 wrap64 get_callbacks_by_height
    make_coin round scale signed nearest add_coin sub_coin is_lt bytes_eq bytes_lt save_callback
    parse is_authorized_to_modify get set remove add_new send_to_callback_module move withdraw
    deposit within calculate_transaction_fees exists_callback is_metadata_owner new_callback
    equal_fold to_lower cancel_callback get_callback not_found_on_error delete_callback
    refund_from_callback_module send_to_fee_collector pay
is_gone = refl

is_executed : callback_exec sim hostile two_pending saved ≡ ok executed
unfolding request_callback estimate_callback_fees ◌+ℤ◌ ◌-ℤ◌ int64 wrap64 get_callbacks_by_height
    make_coin round scale signed nearest add_coin sub_coin is_lt bytes_eq bytes_lt save_callback
    parse is_authorized_to_modify get set remove add_new send_to_callback_module move withdraw
    deposit within calculate_transaction_fees exists_callback is_metadata_owner new_callback
    equal_fold to_lower cancel_callback get_callback not_found_on_error delete_callback
    refund_from_callback_module send_to_fee_collector pay execute_with_gas_limit conclude charge
    settle_error refund_unused pay_refund collect_fees callback_exec
is_executed = refl

callback_exec-reentry_example :
    sim.balance executed.bank (codes "callback") (codes "stake")
      + split_amount saved.fee_split (codes "stake")
    ≡ escrow executed.callbacks (codes "stake")
callback_exec-reentry_example =
    callback_exec-reentry sim hostile accounts two_pending called saved contract (codes "stake")
      is_parsed is_called called-IsValid is_gone is_executed
