-- ===== src/Cwica/Msgs.antt =====
-- The messages of x/cwica (x/cwica/keeper/msg_server.go, x/cwica/types/tx.go, x/cwica/types/params.go).
use archway.Common.{
  ℕ, ◌+◌, ◌*◌, ◌%◌, ◌^◌, Option, none, some, List, [], length, Result, ok, ◌>>=◌, ◌>>◌, or_fail,
  require, reject, ltb, ◌==◌ as nat_eq,
}
use archway.Common.Key.{Bytes, Text, bytes_eq}
use archway.Sdk.{Sdk}
use archway.Cwerrors.State as Errors
use archway.Cwica.State.{
  State, Keepers, Error, not_contract, empty_connection_id, counterparty_connection_not_found,
  no_messages, invalid_timeout, invalid_address, invalid_request, params_not_found,
  too_many_messages, ibc_error, active_channel_not_found, sequence_send_not_found,
}

pub record MsgRegisterInterchainAccount : Type 0 where
  pub contract_address : Text
  pub connection_id : Text

pub record MsgSendTx (AnyMsg : Type 0) : Type 0 where
  pub contract_address : Text
  pub connection_id : Text
  -- `none` is a nil slice
  pub msgs : Option (List AnyMsg)
  pub memo : Text
  pub timeout : ℕ

pub record MsgSendTxResponse : Type 0 where
  pub sequence_id : ℕ
  pub channel : Text

-- The messages of a slice; a nil slice has none.
unfoldable pub elements : {A : Type 0} → Option (List A) → List A
elements none = []
elements (some xs) = xs

-- `uint64` of the block's time in nanoseconds plus a number of seconds, which wraps around.
unfoldable pub timeout_timestamp : ℕ → ℕ → ℕ
timeout_timestamp block_time timeout = (block_time + timeout * 10 ^ 9) % 2 ^ 64

-- Params.Validate
unfoldable pub validate_params : ℕ → Result Error (Unit {0})
validate_params max_messages = reject (nat_eq max_messages 0) invalid_request

module _ (sdk : Sdk) (errors : Errors.Keepers sdk) (keepers : Keepers sdk errors) where
  open sdk use {from_bech32}
  open errors use {World, has_contract_info}
  open keepers use {
    Channels, AnyMsg, get_connection, ica_metadata, register_interchain_account,
    new_controller_port_id, get_active_channel_id, get_next_sequence_send, send_tx,
    serialize_cosmos_txs,
  }

  -- ValidateBasic of the two messages
  unfoldable pub validate_register : MsgRegisterInterchainAccount → Result Error (Unit {0})
  validate_register msg = do
    reject (bytes_eq msg.connection_id []) empty_connection_id
    address ← or_fail (from_bech32 msg.contract_address) invalid_address
    ok tt

  unfoldable pub validate_send_tx : MsgSendTx AnyMsg → Result Error (Unit {0})
  unfolding elements
  validate_send_tx msg = do
    reject (bytes_eq msg.connection_id []) empty_connection_id
    address ← or_fail (from_bech32 msg.contract_address) invalid_address
    reject (nat_eq (length (elements msg.msgs)) 0) no_messages
    reject (nat_eq msg.timeout 0) invalid_timeout

  -- The address of a message is that of a contract.
  unfoldable pub contract_of : State sdk World Channels → Text → Result Error Bytes
  contract_of s address = do
    sender_addr ← or_fail (from_bech32 address) invalid_address
    require (has_contract_info s.cwerrors.world sender_addr) not_contract
    ok sender_addr

  unfoldable pub register_account :
      State sdk World Channels
      → MsgRegisterInterchainAccount
      → Result Error (State sdk World Channels)
  unfolding contract_of
  register_account s msg = do
    sender_addr ← contract_of s msg.contract_address
    counterparty ←
        or_fail (get_connection s.channels msg.connection_id) counterparty_connection_not_found
    let version = ica_metadata msg.connection_id counterparty
    channels ←
        or_fail
          (register_interchain_account s.channels msg.connection_id msg.contract_address version)
          ibc_error
    ok (record s { channels = channels })

  -- SendTx, at the time of the block.
  unfoldable pub submit_tx :
      ℕ
      → State sdk World Channels
      → MsgSendTx AnyMsg
      → Result Error (MsgSendTxResponse × State sdk World Channels)
  unfolding contract_of timeout_timestamp
  submit_tx block_time s msg = do
    msgs ← or_fail msg.msgs invalid_request
    sender_addr ← contract_of s msg.contract_address
    max_messages ← or_fail s.params params_not_found
    reject (ltb max_messages (length msgs)) too_many_messages
    port_id ← or_fail (new_controller_port_id msg.contract_address) ibc_error
    channel_id ←
        or_fail (get_active_channel_id s.channels msg.connection_id port_id)
          active_channel_not_found
    data_sent ← or_fail (serialize_cosmos_txs msgs) ibc_error
    sequence ←
        or_fail (get_next_sequence_send s.channels port_id channel_id) sequence_send_not_found
    channels ←
        or_fail
          (send_tx s.channels msg.connection_id port_id data_sent msg.memo
            (timeout_timestamp block_time msg.timeout))
          ibc_error
    ok (record { sequence_id = sequence; channel = channel_id }, record s { channels = channels })

  unfoldable pub update_params :
      Text → State sdk World Channels → Text → ℕ → Result Error (State sdk World Channels)
  unfolding validate_params
  update_params authority s sender max_messages = do
    address ← or_fail (from_bech32 sender) invalid_address
    require (bytes_eq authority sender) invalid_request
    validate_params max_messages
    ok (record s { params = some max_messages })
