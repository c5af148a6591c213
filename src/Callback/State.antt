-- ===== src/Callback/State.antt =====
-- The state and the collaborators of x/callback: its messages (proto/archway/callback/v1), its keeper
-- (x/callback/keeper/keeper.go) and x/callback/types/expected_keepers.go.
use archway.Common.{ℕ, ◌++◌, Option, Bool}
use archway.Common.Key.{Key, Bytes, Text, bytes_key, nat_key, pair_key}
use archway.Common.Store.{Store}
use archway.Common.Int.{ℤ, int_key}
use archway.Common.Str.{codes, decimal}
use archway.Sdk.{Sdk, Coin, DecCoin}
use archway.Pkg.Gas.{Run}
use archway.Cwerrors.SudoError.{SudoError}

pub record Params (D : Type 0) : Type 0 where
  pub callback_gas_limit : ℕ
  pub max_block_reservation_limit : ℕ
  pub max_future_reservation_limit : ℕ
  pub block_reservation_fee_multiplier : D
  pub future_reservation_fee_multiplier : D

-- CallbackFeesFeeSplit
pub record FeeSplit : Type 0 where
  pub transaction_fees : Coin
  pub block_reservation_fees : Coin
  pub future_reservation_fees : Coin
  pub surplus_fees : Coin

pub record Callback : Type 0 where
  pub contract_address : Text
  pub job_id : ℕ
  pub callback_height : ℤ
  pub fee_split : FeeSplit
  pub reserved_by : Text
  pub max_gas_limit : ℕ

-- `collections.Triple[int64, []byte, uint64]`: height, contract and job.
abbrev pub CallbackKey : Type 0
CallbackKey = ℤ × (Bytes × ℕ)

instance abbrev pub callback_key : Key CallbackKey
callback_key = pair_key int_key (pair_key bytes_key nat_key)

-- The stores of the keeper, the balances, and the state of the other modules.
pub record State (sdk : Sdk) (World : Type 0) : Type 0 where
  pub params : Option (Params sdk.Dec18)
  pub callbacks : Store CallbackKey Callback
  pub bank : sdk.Bank
  pub world : World

-- What the module calls: x/wasm, x/rewards and x/cwerrors. `none` is a nil pointer of
-- `contract_admin` and `metadata_owner`, a panic of `price_of_gas` and `consume_gas`, and an error
-- of `set_error`.
pub record Keepers (sdk : Sdk) : Type 1 where
  pub World : Type 0
  pub has_contract_info : World → Bytes → Bool
  pub contract_admin : World → Bytes → Option Text
  pub metadata_owner : World → Bytes → Option Text
  pub price_of_gas : World → Option (DecCoin sdk.Dec18)
  -- errors of a contract call
  pub Failure : Type 0
  pub err_out_of_gas : Failure
  pub is_out_of_gas : Failure → Bool
  pub is_execute_failed : Failure → Bool
  pub failure_text : Failure → Text
  -- a contract call under a gas limit, on an address with a message; it may call this module
  pub sudo : ℕ → Bytes → Text → State sdk World → Run Failure (State sdk World)
  pub consume_gas : World → ℕ → Option World
  pub set_error : World → SudoError → Option World

-- ModuleName (x/callback/types/keys.go)
abbrev pub module_name : Text
module_name = codes "callback"

-- authTypes.FeeCollectorName
abbrev pub fee_collector_name : Text
fee_collector_name = codes "fee_collector"

-- The error values of x/callback/types/errors.go, and those that the handlers make themselves.
pub data Error : Type 0 where
  contract_not_found callback_height_not_in_future unauthorized callback_not_found : Error
  insufficient_fees callback_exists callback_height_too_far_in_future block_filled : Error
  invalid_address not_in_future too_far_in_future reservation_limit : Error
  params_not_found bank_error invalid_params : Error

-- `NewCallbackMsg(jobID).Bytes()` (x/callback/types/sudo_msg.go): its JSON.
unfoldable pub callback_msg : ℕ → Text
unfolding decimal
callback_msg job_id = codes "{\"callback\":{\"job_id\":" ++ (decimal job_id ++ codes "}}")

-- NewCallback (x/callback/types/callback.go): the gas limit is set when the callback is saved.
unfoldable pub new_callback : Text → Text → ℤ → ℕ → Coin → Coin → Coin → Coin → Callback
new_callback sender contract_address height job_id tx_fees block_fees future_fees surplus_fees =
    record {
      contract_address = contract_address;
      job_id = job_id;
      callback_height = height;
      fee_split = record {
        transaction_fees = tx_fees;
        block_reservation_fees = block_fees;
        future_reservation_fees = future_fees;
        surplus_fees = surplus_fees;
      };
      reserved_by = sender;
      max_gas_limit = 0;
    }
