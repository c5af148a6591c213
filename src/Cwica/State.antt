-- ===== src/Cwica/State.antt =====
-- The state and the collaborators of x/cwica (x/cwica/keeper/keeper.go,
-- x/cwica/types/expected_keepers.go). IBC is a third-party protocol: what is called of it is a parameter.
use archway.Common.{ℕ, Bool, Option, List}
use archway.Common.Key.{Bytes, Text}
use archway.Common.Str.{codes}
use archway.Sdk.{Sdk}
use archway.Cwerrors.State as Errors

-- The acknowledgement of a packet: `GetError()`, empty on success, and `GetResult()`.
pub record Acknowledgement : Type 0 where
  pub error : Text
  pub result : Text

-- SudoPayload: an account was registered, or a transaction executed (proto/archway/cwica/v1/sudo.proto).
pub data SudoPayload (Packet : Type 0) : Type 0 where
  account_registered : Text → SudoPayload Packet
  tx_executed : Packet → Text → SudoPayload Packet

-- The parameters, the state of x/cwerrors with that of x/wasm, and the state of IBC.
pub record State (sdk : Sdk) (World Channels : Type 0) : Type 0 where
  pub params : Option ℕ
  pub cwerrors : Errors.State sdk World
  pub channels : Channels

-- What is called of IBC, the encodings, and of x/wasm. `none` is an error, of `sudo` a panic; the flag of
-- `sudo` is false for a contract that fails.
pub record Keepers (sdk : Sdk) (errors : Errors.Keepers sdk) : Type 1 where
  pub Channels : Type 0
  pub Packet : Type 0
  pub AnyMsg : Type 0
  pub source_port : Packet → Text
  pub packet_json : Packet → Text
  pub controller_port_prefix : Text
  pub metadata_address : Text → Option Text
  pub parse_acknowledgement : Text → Option Acknowledgement
  pub sudo :
      Bytes
      → SudoPayload Packet
      → State sdk errors.World Channels
      → Option (State sdk errors.World Channels × Bool)
  pub get_connection : Channels → Text → Option Text
  pub ica_metadata : Text → Text → Text
  pub register_interchain_account : Channels → Text → Text → Text → Option Channels
  pub new_controller_port_id : Text → Option Text
  pub get_active_channel_id : Channels → Text → Text → Option Text
  pub get_next_sequence_send : Channels → Text → Text → Option ℕ
  pub send_tx : Channels → Text → Text → Text → Text → ℕ → Option Channels
  pub serialize_cosmos_txs : List AnyMsg → Option Text

-- ModuleName (x/cwica/types/keys.go)
abbrev pub module_name : Text
module_name = codes "cwica"

-- The error values of x/cwica/types/errors.go, and those of what the handlers call.
pub data Error : Type 0 where
  not_contract empty_connection_id counterparty_connection_not_found no_messages : Error
  invalid_timeout : Error
  invalid_address unknown_data_type unknown_request invalid_request params_not_found : Error
  too_many_messages ibc_error active_channel_not_found sequence_send_not_found : Error
  set_error_failed : Error
