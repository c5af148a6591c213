-- ===== src/Tracking/Genesis.antt =====
-- The genesis state of x/tracking (x/tracking/types/genesis.go, x/tracking/keeper/genesis.go).
use archway.Common.{
  ℕ, ltb, if◌then◌else◌, List, [], ◌∷◌, map, Result, ok, ◌>>=◌, ◌>>◌, or_fail, reject, require, ◌^◌,
  ◌-◌,
}
use archway.Common.Key.{◌==◌, nat_key}
use archway.Common.Store.{set}
use archway.Common.Int.{uint64}
use archway.Sdk.{Sdk}
use archway.Tracking.Records.{TxInfo, ContractOperationInfo, State, index_key, add64}
use archway.Tracking.Cascade.{contains}

pub record GenesisState : Type 0 where
  pub tx_info_last_id : ℕ
  pub tx_infos : List TxInfo
  pub contract_op_info_last_id : ℕ
  pub contract_op_infos : List ContractOperationInfo

-- What Validate reports.
pub data GenesisError : Type 0 where
  zero_id duplicated_id zero_tx_id bad_address tx_not_found last_id_too_low : GenesisError

-- The loop over the transactions, with the greatest identifier and the set of identifiers.
unfoldable pub validate_tx_infos : List TxInfo → ℕ → List ℕ → Result GenesisError (ℕ × List ℕ)
unfolding contains
validate_tx_infos [] id_max id_set = ok (id_max, id_set)
validate_tx_infos (t ∷ ts) id_max id_set = reject (t.id == 0) zero_id >>= λ _.
    reject (contains id_set t.id) duplicated_id >>= λ _.
    validate_tx_infos ts (if ltb id_max t.id then t.id else id_max) (t.id ∷ id_set)

module _ (sdk : Sdk) where
  -- The loop over the operations. The type of an operation is one of the enumeration.
  unfoldable pub validate_op_infos :
      List ℕ → List ContractOperationInfo → ℕ → List ℕ → Result GenesisError ℕ
  unfolding contains
  validate_op_infos tx_ids [] id_max id_set = ok id_max
  validate_op_infos tx_ids (op ∷ ops) id_max id_set = reject (op.id == 0) zero_id >>= λ _.
      reject (op.tx_id == 0) zero_tx_id >>= λ _.
      or_fail (sdk.from_bech32 op.contract_address) bad_address >>= λ _.
      reject (contains id_set op.id) duplicated_id >>= λ _.
      require (contains tx_ids op.tx_id) tx_not_found >>= λ _.
      validate_op_infos tx_ids ops (if ltb id_max op.id then op.id else id_max) (op.id ∷ id_set)

  -- Validate
  unfoldable pub validate_genesis : GenesisState → Result GenesisError (Unit {0})
  unfolding validate_tx_infos validate_op_infos
  validate_genesis g = do
    (tx_id_max, tx_id_set) ← validate_tx_infos g.tx_infos 0 []
    reject (ltb g.tx_info_last_id tx_id_max) last_id_too_low
    op_id_max ← validate_op_infos tx_id_set g.contract_op_infos 0 []
    reject (ltb g.contract_op_info_last_id op_id_max) last_id_too_low

unfoldable pub import_tx_infos : State → List TxInfo → State
import_tx_infos s [] = s
import_tx_infos s (t ∷ ts) =
    import_tx_infos
      (record s {
        tx_infos = set s.tx_infos t.id t;
        block_index = set s.block_index (uint64 t.height, t.id) tt;
      })
      ts

unfoldable pub import_op_infos : State → List ContractOperationInfo → State
import_op_infos s [] = s
import_op_infos s (op ∷ ops) =
    import_op_infos
      (record s {
        contract_ops = set s.contract_ops op.id op;
        tx_index = set s.tx_index (op.tx_id, op.id) tt;
      })
      ops

-- InitGenesis
unfoldable pub init_genesis : State → GenesisState → State
unfolding import_tx_infos import_op_infos
init_genesis s g =
    let txs = record (import_tx_infos s g.tx_infos) { tx_info_last_id = g.tx_info_last_id } in
    record (import_op_infos txs g.contract_op_infos) {
      contract_op_last_id = g.contract_op_info_last_id;
    }

-- ExportGenesis: the identifier before the next one is the last.
unfoldable pub export_genesis : State → GenesisState
export_genesis s = record {
  tx_info_last_id = add64 (add64 s.tx_info_last_id 1) (2 ^ 64 - 1);
  tx_infos = map (λ (x : ℕ × TxInfo). x.1) s.tx_infos;
  contract_op_info_last_id = add64 (add64 s.contract_op_last_id 1) (2 ^ 64 - 1);
  contract_op_infos = map (λ (x : ℕ × ContractOperationInfo). x.1) s.contract_ops;
}
