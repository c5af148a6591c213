-- ===== src/Callback/Scene.antt =====
-- The life of one callback at the small SDK: it is requested, and then canceled or executed.
use archway.Common.{
  value_or, ℕ, ◌+◌, ◌≡◌, refl, subst, true, false, none, some, [], ok, if◌then◌else◌, arith,
}
use archway.Common.Key.{Text, Bytes, ◌==◌, bytes_key}
use archway.Common.Store.{get}
use archway.Common.Str.{codes}
use archway.Common.Int.{ℤ, pos}
use archway.Sdk.{Coin, precision}
use archway.Sim.Instance.{sim}
use archway.Pkg.Gas.{finished}
use archway.Callback.State.{State, Keepers, Callback, callback_key}
use archway.Callback.Reserve.{get_callbacks_by_height}
use archway.Callback.Msgs.{MsgRequestCallback, MsgCancelCallback, request_callback, cancel_callback}
use archway.Callback.Exec.{end_blocker, callback_exec}
use archway.Callback.Escrow.{IsValid, HasModuleAccounts}
use archway.Callback.Escrow.Request.{request_callback-IsValid}
use archway.Callback.Escrow.Execute.{KeepsDue}
use archway.Common.Key.{bytes_eq, bytes_lt}
use archway.Common.Store.{set, remove, add_new}
use archway.Common.Int.{◌+ℤ◌, ◌-ℤ◌, int64, wrap64}
use archway.Pkg.Fold.{equal_fold, to_lower}
use archway.Pkg.Gas.{conclude, execute_with_gas_limit}
use archway.Sim.Decimals.{nearest, scale, signed, round}
use archway.Sim.Ledger.{move, withdraw, deposit, within}
use archway.Sim.Instance.{make_coin, add_coin, sub_coin, is_lt, parse, pay}
use archway.Callback.State.{new_callback}
use archway.Callback.Reserve.{
  get_callback, exists_callback, save_callback, delete_callback, is_authorized_to_modify,
  is_metadata_owner,
}
use archway.Callback.Fees.{
  calculate_transaction_fees, estimate_callback_fees, send_to_callback_module,
  send_to_fee_collector, refund_from_callback_module,
}
use archway.Callback.Msgs.{not_found_on_error}
use archway.Callback.Exec.{charge, settle_error, pay_refund, refund_unused, collect_fees, exec_all}

abbrev pub contract : Text
contract = codes "contract"

abbrev pub stake : ℕ → Coin
stake n = record { denom = codes "stake"; amount = n }

-- Contracts that do nothing, and spend three units of gas.
abbrev pub quiet : Keepers sim
quiet = record {
  World = ℕ;
  has_contract_info = λ w a. true;
  contract_admin = λ w a. some (codes "admin");
  metadata_owner = λ w a. none;
  price_of_gas = λ w. some (record { denom = codes "stake"; amount = pos precision });
  Failure = Text;
  err_out_of_gas = codes "out of gas";
  is_out_of_gas = λ e. e == codes "out of gas";
  is_execute_failed = λ e. false;
  failure_text = λ e. e;
  sudo = λ limit a msg s. finished 3 s;
  consume_gas = λ w g. some (w + g);
  set_error = λ w e. some w;
}

pub accounts : HasModuleAccounts sim
unfolding bytes_eq
accounts = record { apart = ground arith; blocked = refl }

pub finished-IsValid :
    (limit : ℕ) (a : Bytes) (msg : Text) (t t' : State sim ℕ) (g : ℕ)
    → IsValid sim t
    → quiet.sudo limit a msg t ≡ finished g t'
    → IsValid sim t'
finished-IsValid limit a msg t t' g v e =
    let same : t ≡ t' = ground arith in subst (IsValid sim) same v

pub well : (h : ℤ) → KeepsDue sim quiet accounts h
well h = record {
  keeps_valid = finished-IsValid;
  keeps_due = λ limit a msg t t' g key due e. ground arith;
}

abbrev pub start : State sim ℕ
start = record {
  params = some (record {
    callback_gas_limit = 5;
    max_block_reservation_limit = 3;
    max_future_reservation_limit = 10;
    block_reservation_fee_multiplier = pos precision;
    future_reservation_fee_multiplier = pos precision;
  });
  callbacks = [];
  bank = λ x d. if x == codes "callback" then 0 else 100;
  world = 0;
}

pub start-IsValid : IsValid sim start
unfolding bytes_eq
start-IsValid = record { keyed = tt; own_keys = tt; funded = λ d. refl }

abbrev pub request : MsgRequestCallback
request = record {
  sender = contract;
  contract_address = contract;
  job_id = 1;
  callback_height = pos 12;
  fees = stake 9;
}

abbrev pub pending : State sim ℕ
pending = value_or start (request_callback sim quiet (pos 10) start request)

pub is_pending : request_callback sim quiet (pos 10) start request ≡ ok pending
unfolding request_callback estimate_callback_fees ◌+ℤ◌ ◌-ℤ◌ int64 wrap64 get_callbacks_by_height
    make_coin round scale signed nearest add_coin sub_coin is_lt bytes_eq bytes_lt save_callback
    parse is_authorized_to_modify get set remove add_new send_to_callback_module move withdraw
    deposit within calculate_transaction_fees exists_callback is_metadata_owner new_callback
    equal_fold to_lower
is_pending = refl

abbrev pub cancellation : MsgCancelCallback
cancellation = record {
  sender = contract;
  contract_address = contract;
  job_id = 1;
  callback_height = pos 12;
}

abbrev pub canceled_state : State sim ℕ
canceled_state = (value_or (pending, stake 0) (cancel_callback sim quiet pending cancellation)).0

pub is_canceled : cancel_callback sim quiet pending cancellation ≡ ok (canceled_state, stake 7)
unfolding request_callback estimate_callback_fees ◌+ℤ◌ ◌-ℤ◌ int64 wrap64 get_callbacks_by_height
    make_coin round scale signed nearest add_coin sub_coin is_lt bytes_eq bytes_lt save_callback
    parse is_authorized_to_modify get set remove add_new send_to_callback_module move withdraw
    deposit within calculate_transaction_fees exists_callback is_metadata_owner new_callback
    equal_fold to_lower cancel_callback get_callback not_found_on_error delete_callback
    refund_from_callback_module send_to_fee_collector pay
is_canceled = refl

abbrev pub ended : State sim ℕ
ended = value_or start (end_blocker sim quiet (pos 12) pending)

-- Three of the five units of gas are used: the rest is refunded.
pub is_ended : end_blocker sim quiet (pos 12) pending ≡ ok ended
unfolding request_callback estimate_callback_fees ◌+ℤ◌ ◌-ℤ◌ int64 wrap64 get_callbacks_by_height
    make_coin round scale signed nearest add_coin sub_coin is_lt bytes_eq bytes_lt save_callback
    parse is_authorized_to_modify get set remove add_new send_to_callback_module move withdraw
    deposit within calculate_transaction_fees exists_callback is_metadata_owner new_callback
    equal_fold to_lower refund_from_callback_module send_to_fee_collector pay end_blocker exec_all
    callback_exec execute_with_gas_limit conclude charge settle_error refund_unused pay_refund
    collect_fees
is_ended = refl

abbrev pub saved : Callback
saved = record {
  contract_address = contract;
  job_id = 1;
  callback_height = pos 12;
  fee_split = record {
    transaction_fees = stake 5;
    block_reservation_fees = stake 0;
    future_reservation_fees = stake 2;
    surplus_fees = stake 2;
  };
  reserved_by = contract;
  max_gas_limit = 5;
}

pub is_saved : get pending.callbacks (pos 12, (contract, 1)) ≡ some saved
unfolding request_callback estimate_callback_fees ◌+ℤ◌ ◌-ℤ◌ int64 wrap64 get_callbacks_by_height
    make_coin round scale signed nearest add_coin sub_coin is_lt bytes_eq bytes_lt save_callback
    parse is_authorized_to_modify get set remove add_new send_to_callback_module move withdraw
    deposit within calculate_transaction_fees exists_callback is_metadata_owner new_callback
    equal_fold to_lower
is_saved = refl

pub is_parsed : sim.from_bech32 contract ≡ some contract
unfolding parse
is_parsed = refl

pub is_authorized : is_authorized_to_modify sim quiet pending contract contract ≡ ok true
unfolding is_authorized_to_modify parse bytes_eq equal_fold to_lower
is_authorized = refl

pub pending-IsValid : IsValid sim pending
pending-IsValid =
    request_callback-IsValid sim quiet accounts (pos 10) start request start-IsValid is_pending
