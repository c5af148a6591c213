-- ===== src/Tracking/Recorded.antt =====
-- What the start of a transaction and the gas records of x/wasm store.
use archway.Common.{
  ℕ, ◌+◌, ◌<◌, ◌^◌, ◌≡◌, refl, subst, none, some, Option-cases, inl, inr, ok, arith, List, [], ◌∷◌,
  length, if◌then◌else◌,
}
use archway.Common.Key.{Text, ◌==◌, nat_key}
use archway.Common.Store.{get, get-set, total-set_new}
use archway.Common.Int.{ℤ}
use archway.Sdk.{Sdk}
use archway.Tracking.Records.{
  TxInfo, ContractOperationInfo, ContractOperation, State, index_key, add64, create_empty_tx_info,
  get_current_tx_id, create_contract_op_info, track_new_contract_operation,
}
use archway.Tracking.Tracked.{
  add64_one, IsTracked, create_empty_tx_info-IsTracked, create_contract_op_info-IsTracked,
}
use archway.Tracking.Complete.{gas_of}
use archway.Tracking.Ingest.{Wasm, ContractGasRecord, ingest_gas_record, operation_of}

-- One more operation, of a transaction.
create_contract_op_info-gas_of :
    (s : State) (tx_id : ℕ) (a : Text) (t : ContractOperation) (vm_gas sdk_gas id : ℕ)
    → s.contract_op_last_id + 1 < 2 ^ 64
    → IsTracked s
    → gas_of (create_contract_op_info s tx_id a t vm_gas sdk_gas).contract_ops id
      ≡ (if tx_id == id then vm_gas + sdk_gas else 0) + gas_of s.contract_ops id
unfolding create_contract_op_info
create_contract_op_info-gas_of s tx_id a t vm_gas sdk_gas id room v =
    let i = add64 s.contract_op_last_id 1 in
    let new : ContractOperationInfo = record {
      id = i;
      tx_id = tx_id;
      contract_address = a;
      operation_type = t;
      vm_gas = vm_gas;
      sdk_gas = sdk_gas;
    } in
    let unused : get s.contract_ops i ≡ none = elim (Option-cases (get s.contract_ops i)) [
      | inl absent ↦ absent
      | inr (op, here) ↦
          absurd (omega (arith, v.ops.bounded i op here, add64_one s.contract_op_last_id room))
    ] in
    total-set_new
      (λ k (op : ContractOperationInfo). if op.tx_id == id then op.vm_gas + op.sdk_gas else 0)
      s.contract_ops i new unused

module _ (sdk : Sdk) (wasm : Wasm) where
  -- The gas of records, in the units of the register.
  pub records_gas : List ContractGasRecord → ℕ
  records_gas [] = 0
  records_gas (r ∷ rs) = wasm.from_wasm_vm_gas r.vm_gas + r.sdk_gas + records_gas rs

  -- Every record is an operation of the last transaction.
  ingest_gas_record-gas_of :
      (s : State) (rs : List ContractGasRecord) (id : ℕ) {s' : State}
      → s.contract_op_last_id + length rs < 2 ^ 64
      → IsTracked s
      → ingest_gas_record sdk wasm s rs ≡ ok s'
      → (gas_of s'.contract_ops id
          ≡ (if s.tx_info_last_id == id then records_gas rs else 0) + gas_of s.contract_ops id)
        × (s'.tx_infos ≡ s.tx_infos)
        × (s'.tx_info_last_id ≡ s.tx_info_last_id)
        × (s'.contract_op_last_id ≡ s.contract_op_last_id + length rs)
  unfolding ingest_gas_record track_new_contract_operation get_current_tx_id create_contract_op_info
      records_gas
  ingest_gas_record-gas_of s [] id {s'} room v ran =
      let same : s ≡ s' = ground (arith, ran) in
      subst
        (λ (x : State).
          (gas_of x.contract_ops id
            ≡ (if s.tx_info_last_id == id then 0 else 0) + gas_of s.contract_ops id)
          × (x.tx_infos ≡ s.tx_infos)
          × (x.tx_info_last_id ≡ s.tx_info_last_id)
          × (x.contract_op_last_id ≡ s.contract_op_last_id + 0))
        same (ground arith, refl, refl, omega arith)
  ingest_gas_record-gas_of s (r ∷ rs) id {s'} room v ran =
      elim (Option-cases (sdk.from_bech32 r.contract_address)) [
        | inl bad ↦ ground (arith, ran)
        | inr (a, parsed) ↦
            let gas = wasm.from_wasm_vm_gas r.vm_gas in
            let t =
              create_contract_op_info s s.tx_info_last_id (sdk.to_bech32 a)
                (operation_of sdk wasm r.operation_id) gas r.sdk_gas in
            let (valid, next) =
              create_contract_op_info-IsTracked s s.tx_info_last_id (sdk.to_bech32 a)
                (operation_of sdk wasm r.operation_id) gas r.sdk_gas (omega (arith, room)) v in
            let one =
              create_contract_op_info-gas_of s s.tx_info_last_id (sdk.to_bech32 a)
                (operation_of sdk wasm r.operation_id) gas r.sdk_gas id (omega (arith, room)) v in
            let (sum, infos, last, ops) =
              ingest_gas_record-gas_of t rs id {s' = s'} (omega (arith, room, next)) valid
                (ground (arith, ran, parsed)) in
            (ground (arith, sum, one), infos, last, omega (arith, ops, next))
      ]

  -- A transaction that starts at a height, and the gas records of its contract calls, where indexes and
  -- stores agree and identifiers are left in 64 bits: the transaction is stored at the height under the
  -- next identifier, with no gas yet, and every other one stays as it is. The gas of its stored
  -- operations grows by that of the records, in the units of the register; that of any other transaction
  -- stays the same.
  pub ingest_gas_record-records :
      (s : State) (height : ℤ) (rs : List ContractGasRecord) {s' : State}
      → IsTracked s
      → s.tx_info_last_id + 1 < 2 ^ 64
      → s.contract_op_last_id + length rs < 2 ^ 64
      → ingest_gas_record sdk wasm (create_empty_tx_info height s) rs ≡ ok s'
      → ((id : ℕ)
          → get s'.tx_infos id ≡ (
              if s.tx_info_last_id + 1 == id
              then some (record { id = id; height = height; total_gas = 0 })
              else get s.tx_infos id))
        × ((id : ℕ)
            → gas_of s'.contract_ops id
              ≡ (if s.tx_info_last_id + 1 == id then records_gas rs else 0)
                + gas_of s.contract_ops id)
  unfolding create_empty_tx_info
  ingest_gas_record-records s height rs {s'} v room_tx room ran =
      let t = create_empty_tx_info height s in
      let w = create_empty_tx_info-IsTracked height s room_tx v in
      let i = add64 s.tx_info_last_id 1 in
      let next = add64_one s.tx_info_last_id room_tx in
      let new : TxInfo = record { id = i; height = height; total_gas = 0 } in
      (
        λ id.
            let (_, infos, _, _) = ingest_gas_record-gas_of t rs id {s' = s'} room w ran in
            rw infos (ground (arith, get-set s.tx_infos i new id, next, nat_key.eq_iff i id)),
        λ id.
            let (sum, _, _, _) = ingest_gas_record-gas_of t rs id {s' = s'} room w ran in
            ground (arith, sum, next),
      )
