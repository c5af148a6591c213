-- ===== src/Cwerrors/Block.antt =====
-- The end of a block (x/cwerrors/abci.go).
use archway.Common.{
  ℕ, ◌++◌, Option, none, some, List, [], ◌∷◌, map, Result, ok, ◌>>=◌, or_panic, must,
}
use archway.Common.Key.{Bytes, Text}
use archway.Common.Str.{codes}
use archway.Common.Int.{ℤ}
use archway.Sdk.{Sdk}
use archway.Pkg.Gas.{Outcome, execute_with_gas_limit}
use archway.Cwerrors.SudoError.{SudoError}
use archway.Cwerrors.State.{State, Keepers, Error, module_name}
use archway.Cwerrors.Errors.{store_error_in_state, prune_errors_current_block}
use archway.Cwerrors.Subscriptions.{prune_subscriptions_end_block}

-- ErrorCallbackGasLimit
abbrev pub error_callback_gas_limit : ℕ
error_callback_gas_limit = 150000

module _ (sdk : Sdk) (keepers : Keepers sdk) where
  open sdk use {from_bech32}
  open keepers use {World, Failure, err_out_of_gas, failure_text, sudo, json}

  -- The error of a callback that failed: ERR_CALLBACK_EXECUTION_FAILED.
  unfoldable pub callback_failed : SudoError → Failure → SudoError
  callback_failed e f = record {
    module_name = module_name;
    error_code = 1;
    contract_address = e.contract_address;
    input_payload = json e;
    error_message = failure_text f;
  }

  -- `NewSudoMsg(sudoError).Bytes()`
  unfoldable pub sudo_msg : SudoError → Text
  sudo_msg e = codes "{\"error\":" ++ (json e ++ codes "}")

  unfoldable pub charge : State sdk World → ℕ → Option (State sdk World)
  charge s gas = elim (keepers.consume_gas s.world gas) [
    | none ↦ none
    | some w ↦ some (record s { world = w })
  ]

  unfoldable pub settle :
      ℤ → Bytes → SudoError → Outcome Failure → State sdk World → Result Error (State sdk World)
  unfolding callback_failed
  settle height contract e outcome s = elim outcome.error [
    | none ↦ ok s
    | some f ↦ must (store_error_in_state sdk keepers height s contract (callback_failed e f))
  ]

  unfoldable pub sudo_error_callback_exec :
      ℤ → State sdk World → SudoError → Result Error (State sdk World)
  unfolding settle sudo_msg charge
  sudo_error_callback_exec height s e = do
    contract ← or_panic (from_bech32 e.contract_address)
    (outcome, s') ←
        execute_with_gas_limit err_out_of_gas charge s error_callback_gas_limit
          λ limit t. sudo limit contract (sudo_msg e) t
    settle height contract e outcome s'

  unfoldable pub exec_callbacks :
      ℤ → State sdk World → List SudoError → Result Error (State sdk World)
  unfolding sudo_error_callback_exec
  exec_callbacks height s [] = ok s
  exec_callbacks height s (e ∷ es) =
      sudo_error_callback_exec height s e >>= λ s'. exec_callbacks height s' es

  -- The callbacks as they stood when the walk began, in the order of their identifiers.
  unfoldable pub end_blocker : ℤ → State sdk World → Result Error (State sdk World)
  unfolding exec_callbacks
  end_blocker height s = do
    s' ← exec_callbacks height s (map (λ (x : ℕ × SudoError). x.1) s.error_callbacks)
    prune_errors_current_block sdk keepers height
        (prune_subscriptions_end_block sdk keepers height s')
