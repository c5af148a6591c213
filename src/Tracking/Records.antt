-- ===== src/Tracking/Records.antt =====
-- The gas that contracts use in transactions (x/tracking/keeper): the infos of transactions and of
-- contract operations, each with its index.
use archway.Common.{ℕ, ◌+◌, ◌%◌, ◌^◌, List, [], ◌∷◌, map, select, Result, ok, ◌>>=◌, or_panic}
use archway.Common.Key.{Key, Text, ◌==◌, nat_key, pair_key}
use archway.Common.Store.{Store, get, set, remove}
use archway.Common.Int.{ℤ, uint64}

pub record TxInfo : Type 0 where
  pub id : ℕ
  pub height : ℤ
  pub total_gas : ℕ

pub data ContractOperation : Type 0 where
  unspecified instantiation execution query migrate ibc sudo reply : ContractOperation

pub record ContractOperationInfo : Type 0 where
  pub id : ℕ
  pub tx_id : ℕ
  pub contract_address : Text
  pub operation_type : ContractOperation
  pub vm_gas : ℕ
  pub sdk_gas : ℕ

instance abbrev pub index_key : Key (ℕ × ℕ)
index_key = pair_key nat_key nat_key

-- The two stores, each with its index and the last identifier; block heights are keys as uint64.
pub record State : Type 0 where
  pub tx_info_last_id : ℕ
  pub tx_infos : Store ℕ TxInfo
  pub block_index : Store (ℕ × ℕ) (Unit {0})
  pub contract_op_last_id : ℕ
  pub contract_ops : Store ℕ ContractOperationInfo
  pub tx_index : Store (ℕ × ℕ) (Unit {0})

-- An address that does not parse.
pub data Error : Type 0 where
  invalid_address : Error

-- Addition of two uint64.
abbrev pub add64 : ℕ → ℕ → ℕ
add64 a b = (a + b) % 2 ^ 64

unfoldable pub create_empty_tx_info : ℤ → State → State
create_empty_tx_info height s =
    let id = add64 s.tx_info_last_id 1 in
    record s {
      tx_infos = set s.tx_infos id (record { id = id; height = height; total_gas = 0 });
      block_index = set s.block_index (uint64 height, id) tt;
      tx_info_last_id = id;
    }

unfoldable pub get_current_tx_id : State → ℕ
get_current_tx_id s = s.tx_info_last_id

unfoldable pub create_contract_op_info : State → ℕ → Text → ContractOperation → ℕ → ℕ → State
create_contract_op_info s tx_id contract_address op_type vm_gas sdk_gas =
    let id = add64 s.contract_op_last_id 1 in
    record s {
      contract_ops = set s.contract_ops id (record {
        id = id;
        tx_id = tx_id;
        contract_address = contract_address;
        operation_type = op_type;
        vm_gas = vm_gas;
        sdk_gas = sdk_gas;
      });
      tx_index = set s.tx_index (tx_id, id) tt;
      contract_op_last_id = id;
    }

unfoldable pub track_new_contract_operation : State → Text → ContractOperation → ℕ → ℕ → State
unfolding get_current_tx_id create_contract_op_info
track_new_contract_operation s contract_address op_type vm_gas sdk_gas =
    create_contract_op_info s (get_current_tx_id s) contract_address op_type vm_gas sdk_gas

-- The identifiers that an index holds under a key, in order.
abbrev pub ids_of : Store (ℕ × ℕ) (Unit {0}) → ℕ → List ℕ
ids_of index key =
    map (λ (x : (ℕ × ℕ) × Unit {0}). x.0.1)
      (select (λ (x : (ℕ × ℕ) × Unit {0}). x.0.0 == key) index)

-- The objects of identifiers; an identifier without one is a panic.
unfoldable pub find_all : {A : Type 0} → Store ℕ A → List ℕ → Result Error (List A)
find_all objs [] = ok []
find_all objs (id ∷ ids) = or_panic (get objs id) >>= λ o. find_all objs ids >>= λ os. ok (o ∷ os)

unfoldable pub get_tx_infos_by_block : State → ℤ → Result Error (List TxInfo)
unfolding find_all
get_tx_infos_by_block s height = find_all s.tx_infos (ids_of s.block_index (uint64 height))

unfoldable pub get_contract_op_info_by_tx_id : State → ℕ → Result Error (List ContractOperationInfo)
unfolding find_all
get_contract_op_info_by_tx_id s tx_id = find_all s.contract_ops (ids_of s.tx_index tx_id)

-- The gas of the operations, added to a total.
unfoldable pub add_gas : ℕ → List ContractOperationInfo → ℕ
add_gas total [] = total
add_gas total (op ∷ ops) = add_gas (add64 total (add64 op.vm_gas op.sdk_gas)) ops

unfoldable pub finalize_each : State → List TxInfo → Result Error State
unfolding get_contract_op_info_by_tx_id add_gas
finalize_each s [] = ok s
finalize_each s (info ∷ infos) = get_contract_op_info_by_tx_id s info.id >>= λ ops.
    finalize_each
      (record s {
        tx_infos = set s.tx_infos info.id (record info { total_gas = add_gas info.total_gas ops });
      })
      infos

-- FinalizeBlockTxTracking, at the end of a block.
unfoldable pub finalize_block_tx_tracking : State → ℤ → Result Error State
unfolding get_tx_infos_by_block finalize_each
finalize_block_tx_tracking s height = get_tx_infos_by_block s height >>= finalize_each s

-- The infos of the transactions of a block, each with its operations.
unfoldable pub with_operations :
    State → List TxInfo → Result Error (List (TxInfo × List ContractOperationInfo))
unfolding get_contract_op_info_by_tx_id
with_operations s [] = ok []
with_operations s (info ∷ infos) = get_contract_op_info_by_tx_id s info.id >>= λ ops.
    with_operations s infos >>= λ rest. ok ((info, ops) ∷ rest)

unfoldable pub get_block_tracking_info :
    State → ℤ → Result Error (List (TxInfo × List ContractOperationInfo))
unfolding get_tx_infos_by_block with_operations
get_block_tracking_info s height = get_tx_infos_by_block s height >>= with_operations s

abbrev pub remove_objects : {A : Type 0} → Store ℕ A → List ℕ → Store ℕ A
remove_objects objs [] = objs
remove_objects objs (id ∷ ids) = remove_objects (remove objs id) ids

abbrev pub remove_entries : Store (ℕ × ℕ) (Unit {0}) → ℕ → List ℕ → Store (ℕ × ℕ) (Unit {0})
remove_entries index key [] = index
remove_entries index key (id ∷ ids) = remove_entries (remove index (key, id)) key ids

unfoldable pub delete_contract_ops_by_tx_id : State → ℕ → State
delete_contract_ops_by_tx_id s tx_id =
    let ids = ids_of s.tx_index tx_id in
    record s {
      contract_ops = remove_objects s.contract_ops ids;
      tx_index = remove_entries s.tx_index tx_id ids;
    }

unfoldable pub delete_each : State → List ℕ → State
unfolding delete_contract_ops_by_tx_id
delete_each s [] = s
delete_each s (tx_id ∷ tx_ids) = delete_each (delete_contract_ops_by_tx_id s tx_id) tx_ids

-- DeleteTxInfosCascade and DeleteTxInfosByBlock.
unfoldable pub delete_tx_infos_cascade : State → ℤ → State
unfolding delete_each
delete_tx_infos_cascade s height =
    let ids = ids_of s.block_index (uint64 height) in
    delete_each
      (record s {
        tx_infos = remove_objects s.tx_infos ids;
        block_index = remove_entries s.block_index (uint64 height) ids;
      })
      ids

-- GasUsed (x/tracking/types/tracking.go)
unfoldable pub gas_used : ContractOperationInfo → ℕ
gas_used op = add64 op.vm_gas op.sdk_gas
