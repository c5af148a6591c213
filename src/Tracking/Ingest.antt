-- ===== src/Tracking/Ingest.antt =====
-- The gas records of x/wasm (x/tracking/keeper/gas_processor.go), the start of a transaction
-- (x/tracking/ante/tracking.go) and the steps of the module.
use archway.Common.{
  ℕ, ◌+◌, ◌<◌, ◌^◌, ◌≡◌, Bool, ◌||◌, if◌then◌else◌, List, [], ◌∷◌, length, Result, ok, ◌>>=◌,
  or_fail,
}
use archway.Common.Key.{Text, ◌==◌, nat_key}
use archway.Common.Int.{ℤ}
use archway.Sdk.{Sdk}
use archway.Tracking.Records.{
  ContractOperation, unspecified, instantiation, execution, query, migrate, ibc, sudo, reply, State,
  Error, invalid_address, create_empty_tx_info, track_new_contract_operation,
  finalize_block_tx_tracking, delete_tx_infos_cascade,
}

-- What x/wasm defines: the identifiers of the operations of a contract, and its gas register.
pub record Wasm : Type 0 where
  pub operation_query : ℕ
  pub operation_instantiate : ℕ
  pub operation_execute : ℕ
  pub operation_migrate : ℕ
  pub operation_sudo : ℕ
  pub operation_reply : ℕ
  pub operation_ibc_packet_timeout : ℕ
  pub operation_ibc_packet_ack : ℕ
  pub operation_ibc_packet_receive : ℕ
  pub operation_ibc_channel_close : ℕ
  pub operation_ibc_channel_open : ℕ
  pub operation_ibc_channel_connect : ℕ
  pub from_wasm_vm_gas : ℕ → ℕ

-- `wasmTypes.ContractGasRecord`, with its original gas.
pub record ContractGasRecord : Type 0 where
  pub operation_id : ℕ
  pub contract_address : Text
  pub vm_gas : ℕ
  pub sdk_gas : ℕ

module _ (sdk : Sdk) (wasm : Wasm) where
  open sdk use {from_bech32, to_bech32}
  open wasm use {
    operation_query, operation_instantiate, operation_execute, operation_migrate, operation_sudo,
    operation_reply, operation_ibc_packet_timeout, operation_ibc_packet_ack,
    operation_ibc_packet_receive, operation_ibc_channel_close, operation_ibc_channel_open,
    operation_ibc_channel_connect, from_wasm_vm_gas,
  }

  -- The cases of the switch that fall through to the last one.
  unfoldable pub is_ibc : ℕ → Bool
  is_ibc id =
      id == operation_ibc_packet_timeout
      || id == operation_ibc_packet_ack
      || id == operation_ibc_packet_receive
      || id == operation_ibc_channel_close
      || id == operation_ibc_channel_open
      || id == operation_ibc_channel_connect

  unfoldable pub operation_of : ℕ → ContractOperation
  unfolding is_ibc
  operation_of id =
      if id == operation_query
      then query
      else if id == operation_instantiate
      then instantiation
      else if id == operation_execute
      then execution
      else if id == operation_migrate
      then migrate
      else if id == operation_sudo
      then sudo
      else if id == operation_reply
      then reply
      else if is_ibc id
      then ibc
      else unspecified

  -- IngestGasRecord
  unfoldable pub ingest_gas_record : State → List ContractGasRecord → Result Error State
  unfolding operation_of
  ingest_gas_record s [] = ok s
  ingest_gas_record s (r ∷ rs) = or_fail (from_bech32 r.contract_address) invalid_address >>= λ a.
      ingest_gas_record
        (track_new_contract_operation s (to_bech32 a) (operation_of r.operation_id)
          (from_wasm_vm_gas r.vm_gas) r.sdk_gas)
        rs

  -- What changes the stores: the start of a transaction, the gas records of x/wasm, the end of a
  -- block, and the removal of a block. The 64 bits of the identifiers are not used up.
  pub data Step : State → State → Type 0 where
    tx_tracked :
        {s : State} (height : ℤ)
        → s.tx_info_last_id + 1 < 2 ^ 64
        → Step s (create_empty_tx_info height s)
    gas_ingested :
        {s s' : State} (rs : List ContractGasRecord)
        → s.contract_op_last_id + length rs < 2 ^ 64
        → ingest_gas_record s rs ≡ ok s'
        → Step s s'
    block_finalized :
        {s s' : State} (height : ℤ) → finalize_block_tx_tracking s height ≡ ok s' → Step s s'
    block_removed : {s : State} (height : ℤ) → Step s (delete_tx_infos_cascade s height)

  pub data Run : State → State → Type 0 where
    started : {s : State} → Run s s
    continued : {s t u : State} → Run s t → Step t u → Run s u
