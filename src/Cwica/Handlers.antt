-- ===== src/Cwica/Handlers.antt =====
-- What happens to the channels of interchain accounts (x/cwica/keeper/ibc_handlers.go and
-- x/cwica/ibc_module.go).
use archway.Common.{
  ℕ, Option, none, some, [], ◌∷◌, Result, ok, err, panic, ◌>>=◌, or_fail, or_panic, if◌then◌else◌,
  ◌==◌ as nat_eq,
}
use archway.Common.Key.{Bytes, Text, bytes_eq}
use archway.Common.Str.{codes}
use archway.Common.Int.{ℤ}
use archway.Sdk.{Sdk}
use archway.Cwerrors.SudoError.{SudoError}
use archway.Cwerrors.State as Errors
use archway.Cwerrors.Errors.{set_error}
use archway.Cwica.State.{
  SudoPayload, account_registered, tx_executed, State, Keepers, Error, module_name, invalid_address,
  unknown_data_type, unknown_request, set_error_failed,
}

-- The error codes of the module (proto/archway/cwica/v1/errors.proto).
abbrev pub err_packet_timeout : ℕ
err_packet_timeout = 1

abbrev pub err_exec_failure : ℕ
err_exec_failure = 2

unfoldable pub new_sudo_error : ℕ → Text → Text → Text → SudoError
new_sudo_error error_code contract_addr input_payload err_msg = record {
  module_name = module_name;
  error_code = error_code;
  contract_address = contract_addr;
  input_payload = input_payload;
  error_message = err_msg;
}

-- `strings.TrimPrefix`: what follows the prefix, or the whole text.
unfoldable pub after_prefix : Text → Text → Option Text
after_prefix [] s = some s
after_prefix (p ∷ ps) [] = none
after_prefix (p ∷ ps) (c ∷ s) = if nat_eq p c then after_prefix ps s else none

unfoldable pub ica_owner_from_port : Text → Text → Text
unfolding after_prefix
ica_owner_from_port prefix port = elim (after_prefix prefix port) [ none ↦ port | some s ↦ s ]

module _ (sdk : Sdk) (errors : Errors.Keepers sdk) (keepers : Keepers sdk errors) where
  open sdk use {from_bech32, to_bech32}
  open errors use {World}
  open keepers use {
    Channels, Packet, source_port, packet_json, controller_port_prefix, metadata_address,
    parse_acknowledgement, sudo,
  }

  unfoldable pub owner_of_port : Text → Result Error Bytes
  unfolding ica_owner_from_port
  owner_of_port port =
      or_fail (from_bech32 (ica_owner_from_port controller_port_prefix port)) invalid_address

  -- A contract that fails is logged, and its call is an end like another.
  unfoldable pub call_contract :
      State sdk World Channels
      → Bytes
      → SudoPayload Packet
      → Result Error (State sdk World Channels)
  call_contract s contract msg = or_panic (sudo contract msg s) >>= λ r. ok r.0

  unfoldable pub report :
      ℤ → State sdk World Channels → SudoError → Result Error (State sdk World Channels)
  report height s e = elim (set_error sdk errors height s.cwerrors e) [
    | ok c ↦ ok (record s { cwerrors = c })
    | err bad ↦ err set_error_failed
    | panic ↦ panic
  ]

  unfoldable pub handle_chan_open_ack :
      State sdk World Channels → Text → Text → Result Error (State sdk World Channels)
  unfolding owner_of_port call_contract
  handle_chan_open_ack s port_id counterparty_version = do
    contract ← owner_of_port port_id
    address ← or_fail (metadata_address counterparty_version) unknown_data_type
    call_contract s contract (account_registered address)

  -- The error that an acknowledgement with an error makes.
  abbrev pub exec_failure : Bytes → Packet → Text → SudoError
  exec_failure contract packet message =
      new_sudo_error err_exec_failure (to_bech32 contract) (packet_json packet) message

  unfoldable pub handle_acknowledgement :
      ℤ → State sdk World Channels → Packet → Text → Result Error (State sdk World Channels)
  unfolding owner_of_port call_contract report new_sudo_error
  handle_acknowledgement height s packet acknowledgement = do
    contract ← owner_of_port (source_port packet)
    ack ← or_fail (parse_acknowledgement acknowledgement) unknown_request
    if bytes_eq ack.error []
        then call_contract s contract (tx_executed packet ack.result)
        else report height s (exec_failure contract packet ack.error)

  abbrev pub timed_out : Bytes → Packet → SudoError
  timed_out contract packet =
      new_sudo_error err_packet_timeout (to_bech32 contract) (packet_json packet)
        (codes "IBC packet timeout")

  unfoldable pub handle_timeout :
      ℤ → State sdk World Channels → Packet → Result Error (State sdk World Channels)
  unfolding owner_of_port report new_sudo_error
  handle_timeout height s packet =
      owner_of_port (source_port packet) >>= λ contract. report height s (timed_out contract packet)
