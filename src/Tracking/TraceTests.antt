-- ===== src/Tracking/TraceTests.antt =====
-- The gas of two contract calls in one transaction, from empty stores.
use archway.Common.{
  ◌+◌, some, ℕ, if◌then◌else◌, ◌≡◌, some, refl, none, List, [], ◌∷◌, ok, All, arith, value_or,
}
use archway.Common.Key.{◌==◌, bytes_key, nat_key}
use archway.Common.Store.{get, set}
use archway.Common.Int.{pos}
use archway.Sim.Instance.{sim, parse}
use archway.Callback.Scene.{contract}
use archway.Tracking.Records.{
  TxInfo, State, ContractOperationInfo, execution, index_key, create_empty_tx_info,
  get_tx_infos_by_block, finalize_block_tx_tracking, delete_tx_infos_cascade,
}
use archway.Tracking.Ingest.{
  Wasm, ContractGasRecord, ingest_gas_record, Run, started, continued, tx_tracked, gas_ingested,
}
use archway.Tracking.Tracked.{IsTracked}
use archway.Tracking.Trace.{run-IsFinalized}
use archway.Tracking.Imported.{empty}
use archway.Tracking.Start.{empty-IsTracked, init_genesis-IsTracked}
use archway.Tracking.Genesis.{GenesisState, validate_genesis, init_genesis, export_genesis}
use archway.Tracking.Recorded.{records_gas, ingest_gas_record-records}
use archway.Tracking.Complete.{gas_of, IsFinalizedAt, finalize_block_tx_tracking-IsFinalized}
use archway.Tracking.Removal.{is_at, delete_tx_infos_cascade-removes}

abbrev wasm : Wasm
wasm = record {
  operation_query = 0;
  operation_instantiate = 1;
  operation_execute = 2;
  operation_migrate = 3;
  operation_sudo = 4;
  operation_reply = 5;
  operation_ibc_packet_timeout = 6;
  operation_ibc_packet_ack = 7;
  operation_ibc_packet_receive = 8;
  operation_ibc_channel_close = 9;
  operation_ibc_channel_open = 10;
  operation_ibc_channel_connect = 11;
  from_wasm_vm_gas = λ gas. gas;
}

abbrev calls : List ContractGasRecord
calls =
    (record { operation_id = 2; contract_address = contract; vm_gas = 30; sdk_gas = 4 })
    ∷ (record { operation_id = 8; contract_address = contract; vm_gas = 5; sdk_gas = 6 })
    ∷ []

abbrev begun : State
begun = create_empty_tx_info (pos 7) empty

abbrev called : State
called = value_or empty (ingest_gas_record sim wasm begun calls)

is_called : ingest_gas_record sim wasm begun calls ≡ ok called
unfolding ingest_gas_record create_empty_tx_info parse
is_called = refl

run : Run sim wasm empty called
unfolding create_empty_tx_info
run =
    continued (continued started (tx_tracked (pos 7) (omega arith)))
      (gas_ingested calls (omega arith) is_called)

run-IsFinalized_example :
    IsTracked called
    × ((t' : State) × (finalize_block_tx_tracking called (pos 7) ≡ ok t')
        × IsTracked t'
        × ((id : ℕ) → IsFinalizedAt (pos 7) called t' id))
run-IsFinalized_example = run-IsFinalized sim wasm (pos 7) empty-IsTracked run

called-IsTracked : IsTracked called
called-IsTracked = (run-IsFinalized sim wasm (pos 7) empty-IsTracked run).0

finalize_block_tx_tracking-IsFinalized_example :
    (s' : State) × (finalize_block_tx_tracking called (pos 7) ≡ ok s')
    × IsTracked s'
    × ((id : ℕ) → IsFinalizedAt (pos 7) called s' id)
finalize_block_tx_tracking-IsFinalized_example =
    finalize_block_tx_tracking-IsFinalized called (pos 7) called-IsTracked

delete_tx_infos_cascade-removes_example :
    (get_tx_infos_by_block (delete_tx_infos_cascade called (pos 7)) (pos 7) ≡ ok [])
    × IsTracked (delete_tx_infos_cascade called (pos 7))
    × ((id : ℕ)
        → get (delete_tx_infos_cascade called (pos 7)).tx_infos id
          ≡ (if is_at (pos 7) called id then none else get called.tx_infos id))
    × ((id : ℕ)
        → get (delete_tx_infos_cascade called (pos 7)).contract_ops id
          ≡ (elim (get called.contract_ops id) [
            | none ↦ none
            | some op ↦ if is_at (pos 7) called op.tx_id then none else some op
          ]))
delete_tx_infos_cascade-removes_example =
    delete_tx_infos_cascade-removes called (pos 7) called-IsTracked

ingest_gas_record-records_example :
    ((id : ℕ)
      → get called.tx_infos id ≡ (
          if 1 == id
          then some (record { id = id; height = pos 7; total_gas = 0 })
          else get empty.tx_infos id))
    × ((id : ℕ)
        → gas_of called.contract_ops id
          ≡ (if 1 == id then records_gas sim wasm calls else 0) + gas_of empty.contract_ops id)
ingest_gas_record-records_example =
    ingest_gas_record-records sim wasm empty (pos 7) calls empty-IsTracked (omega arith)
      (omega arith) is_called

abbrev genesis : GenesisState
genesis = record {
  tx_info_last_id = 3;
  tx_infos = (record { id = 3; height = pos 7; total_gas = 34 }) ∷ [];
  contract_op_info_last_id = 5;
  contract_op_infos =
      (record {
        id = 5;
        tx_id = 3;
        contract_address = contract;
        operation_type = execution;
        vm_gas = 30;
        sdk_gas = 4;
      })
      ∷ [];
}

is_accepted : validate_genesis sim genesis ≡ ok tt
unfolding validate_genesis parse
is_accepted = refl

init_genesis-IsTracked_example :
    IsTracked (init_genesis empty genesis)
    × All (λ (t : TxInfo). get (init_genesis empty genesis).tx_infos t.id ≡ some t) genesis.tx_infos
    × All
        (λ (op : ContractOperationInfo).
          get (init_genesis empty genesis).contract_ops op.id ≡ some op)
        genesis.contract_op_infos
init_genesis-IsTracked_example = init_genesis-IsTracked sim genesis is_accepted

is_exported : export_genesis (init_genesis empty genesis) ≡ genesis
unfolding export_genesis init_genesis set
is_exported = refl
