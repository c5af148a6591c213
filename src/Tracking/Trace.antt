-- ===== src/Tracking/Trace.antt =====
-- The runs of x/tracking.
use archway.Common.{
  ℕ, ◌+◌, ◌<◌, ◌^◌, ◌≡◌, subst, Option-cases, inl, inr, ok, arith, List, [], ◌∷◌, length,
}
use archway.Common.Key.{nat_key}
use archway.Common.Int.{ℤ}
use archway.Sdk.{Sdk}
use archway.Tracking.Records.{
  State, index_key, track_new_contract_operation, get_current_tx_id, finalize_block_tx_tracking,
}
use archway.Tracking.Complete.{
  IsFinalizedAt, finalize_block_tx_tracking-IsTracked, finalize_block_tx_tracking-IsFinalized,
}
use archway.Tracking.Ingest.{
  Wasm, ContractGasRecord, ingest_gas_record, operation_of, Step, Run, tx_tracked, gas_ingested,
  block_finalized, block_removed, started, continued,
}
use archway.Tracking.Tracked.{
  IsTracked, create_empty_tx_info-IsTracked, create_contract_op_info-IsTracked,
  delete_tx_infos_cascade-IsTracked,
}

module _ (sdk : Sdk) (wasm : Wasm) where
  ingest_gas_record-IsTracked :
      (s : State) (rs : List ContractGasRecord) {s' : State}
      → s.contract_op_last_id + length rs < 2 ^ 64
      → ingest_gas_record sdk wasm s rs ≡ ok s'
      → IsTracked s
      → IsTracked s'
  unfolding ingest_gas_record track_new_contract_operation
  ingest_gas_record-IsTracked s [] room ran v = subst IsTracked (ground (arith, ran)) v
  ingest_gas_record-IsTracked s (r ∷ rs) {s'} room ran v =
      elim (Option-cases (sdk.from_bech32 r.contract_address)) [
        | inl bad ↦ ground (arith, ran)
        | inr (a, parsed) ↦
            let t =
              track_new_contract_operation s (sdk.to_bech32 a)
                (operation_of sdk wasm r.operation_id) (wasm.from_wasm_vm_gas r.vm_gas) r.sdk_gas in
            let (valid, next) =
              create_contract_op_info-IsTracked s (get_current_tx_id s) (sdk.to_bech32 a)
                (operation_of sdk wasm r.operation_id) (wasm.from_wasm_vm_gas r.vm_gas) r.sdk_gas
                (omega (arith, room)) v in
            ingest_gas_record-IsTracked t rs {s' = s'} (omega (arith, room, next))
              (ground (arith, ran, parsed)) valid
      ]

  step-IsTracked : {s s' : State} → Step sdk wasm s s' → IsTracked s → IsTracked s'
  step-IsTracked {s} (tx_tracked height room) v = create_empty_tx_info-IsTracked height s room v
  step-IsTracked {s} {s'} (gas_ingested rs room ran) v =
      ingest_gas_record-IsTracked s rs {s' = s'} room ran v
  step-IsTracked {s} {s'} (block_finalized height ran) v =
      finalize_block_tx_tracking-IsTracked s height v ran
  step-IsTracked {s} (block_removed height) v = delete_tx_infos_cascade-IsTracked s height v

  run-IsTracked : {s s' : State} → Run sdk wasm s s' → IsTracked s → IsTracked s'
  run-IsTracked started v = v
  run-IsTracked (continued run step) v = step-IsTracked step (run-IsTracked run v)

  -- From a state whose indexes and stores agree, such as one with empty stores, every run of the module
  -- (the start of transactions, gas records, the end of blocks and the removal of blocks, while
  -- identifiers are left in 64 bits) leads to one in which they agree: every entry leads to an object of
  -- its block or transaction, and every object has its entry. The end of any block then does not panic;
  -- each stored transaction of it gets the gas of all its stored operations, in 64 bits, and no other
  -- transaction changes.
  pub run-IsFinalized :
      {s t : State} (height : ℤ)
      → IsTracked s
      → Run sdk wasm s t
      → IsTracked t
        × ((t' : State) × (finalize_block_tx_tracking t height ≡ ok t')
            × IsTracked t'
            × ((id : ℕ) → IsFinalizedAt height t t' id))
  run-IsFinalized {s} {t} height v run =
      let valid = run-IsTracked run v in
      (valid, finalize_block_tx_tracking-IsFinalized t height valid)
