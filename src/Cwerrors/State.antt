-- ===== src/Cwerrors/State.antt =====
-- The state and the collaborators of x/cwerrors (x/cwerrors/keeper/keeper.go, x/cwerrors/types).
use archway.Common.{ℕ, Option, Bool}
use archway.Common.Key.{Key, Bytes, Text, bytes_key, nat_key, pair_key}
use archway.Common.Store.{Store}
use archway.Common.Int.{ℤ, int_key}
use archway.Common.Str.{codes}
use archway.Sdk.{Sdk, Coin}
use archway.Pkg.Gas.{Run}
use archway.Cwerrors.SudoError.{SudoError}

pub record Params : Type 0 where
  pub error_stored_time : ℤ
  pub subscription_fee : Coin
  pub subscription_period : ℤ

instance abbrev pub contract_error_key : Key (Bytes × ℕ)
contract_error_key = pair_key bytes_key nat_key

instance abbrev pub deletion_key : Key (ℤ × ℕ)
deletion_key = pair_key int_key nat_key

instance abbrev pub end_block_key : Key (ℤ × Bytes)
end_block_key = pair_key int_key bytes_key

-- The stores of the keeper, its transient store, the balances, and the state of other modules. A store
-- of which only the keys count holds the unit.
pub record State (sdk : Sdk) (World : Type 0) : Type 0 where
  pub params : Option Params
  pub error_id : ℕ
  pub contract_errors : Store (Bytes × ℕ) (Unit {0})
  pub errors : Store ℕ SudoError
  pub deletion_blocks : Store (ℤ × ℕ) (Unit {0})
  pub contract_subscriptions : Store Bytes ℤ
  pub subscription_end_block : Store (ℤ × Bytes) (Unit {0})
  pub error_callbacks : Store ℕ SudoError
  pub bank : sdk.Bank
  pub world : World

-- What the module calls: x/wasm, x/rewards and the JSON encoder. `none` of `contract_admin` is a nil
-- pointer, and of `consume_gas` a panic.
pub record Keepers (sdk : Sdk) : Type 1 where
  pub World : Type 0
  pub has_contract_info : World → Bytes → Bool
  pub contract_admin : World → Bytes → Option Text
  pub metadata_owner : World → Bytes → Option Text
  pub Failure : Type 0
  pub err_out_of_gas : Failure
  pub failure_text : Failure → Text
  -- a contract call under a gas limit, on an address with a message; it may call this module
  pub sudo : ℕ → Bytes → Text → State sdk World → Run Failure (State sdk World)
  pub consume_gas : World → ℕ → Option World
  -- the JSON text of an error
  pub json : SudoError → Text

-- ModuleName (x/cwerrors/types/keys.go)
abbrev pub module_name : Text
module_name = codes "cwerrors"

-- authTypes.FeeCollectorName
abbrev pub fee_collector_name : Text
fee_collector_name = codes "fee_collector"

-- The error values of x/cwerrors/types/errors.go, and those of what the handlers call.
pub data Error : Type 0 where
  contract_not_found unauthorized module_name_missing incorrect_subscription_fee : Error
  invalid_address params_not_found not_found bank_error invalid_params : Error
