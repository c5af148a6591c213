-- ===== src/Tracking/Start.antt =====
-- The start of x/tracking from a genesis state.
use archway.Common.{
  ℕ, ◌≡◌, refl, sym, subst, none, some, Result-cases, inl, inr, ok, arith, [], All,
}
use archway.Common.Key.{nat_key}
use archway.Common.Store.{get}
use archway.Sdk.{Sdk}
use archway.Tracking.Records.{TxInfo, ContractOperationInfo, State, index_key}
use archway.Tracking.Homed.{IsHomed}
use archway.Tracking.Tracked.{IsTracked, tx_home, op_home}
use archway.Tracking.Genesis.{
  GenesisState, validate_tx_infos, validate_op_infos, validate_genesis, import_tx_infos,
  init_genesis,
}
use archway.Tracking.Imported.{empty, imported_txs, imported_ops}

empty-IsHomed : {A : Type 0} (home : A → ℕ) (last : ℕ) → IsHomed home last [] []
unfolding get
empty-IsHomed home last = record {
  keyed = tt;
  found = λ key id there. ground (arith, there);
  stored_once = tt;
  listed = λ id o found. ground (arith, found);
  bounded = λ id o found. ground (arith, found);
}

pub empty-IsTracked : IsTracked empty
unfolding get
empty-IsTracked = record {
  txs = empty-IsHomed tx_home 0;
  ops = empty-IsHomed op_home 0;
  own_ids = λ id t found. ground (arith, found);
}

-- A genesis state that passes its validation makes, of empty stores, a state in which indexes and stores
-- agree in both directions: every entry leads to an object of its block or transaction, and every object
-- has its entry. Every transaction and every operation of it is found there by its identifier.
pub init_genesis-IsTracked :
    (sdk : Sdk) (g : GenesisState)
    → validate_genesis sdk g ≡ ok tt
    → IsTracked (init_genesis empty g)
      × All (λ (t : TxInfo). get (init_genesis empty g).tx_infos t.id ≡ some t) g.tx_infos
      × All
          (λ (op : ContractOperationInfo). get (init_genesis empty g).contract_ops op.id ≡ some op)
          g.contract_op_infos
unfolding validate_genesis init_genesis get
init_genesis-IsTracked sdk g ran = elim (Result-cases (validate_tx_infos g.tx_infos 0 [])) [
  | inr bad ↦ ground (arith, ran)
  | inl ((m, tx_ids), txs_ok) ↦
      elim (Result-cases (validate_op_infos sdk tx_ids g.contract_op_infos 0 [])) [
        | inr bad ↦ ground (arith, ran, txs_ok)
        | inl (k, ops_ok) ↦
            let (v, own, no_ops, no_index, _, txs) =
              imported_txs g.tx_info_last_id empty g.tx_infos 0 [] txs_ok
                (ground (arith, ran, txs_ok, ops_ok)) (λ i out. refl)
                (empty-IsHomed tx_home g.tx_info_last_id) empty-IsTracked.own_ids in
            let u : State = record (import_tx_infos empty g.tx_infos) {
              tx_info_last_id = g.tx_info_last_id;
            } in
            let (w, infos, index, last, _, ops) =
              imported_ops sdk g.contract_op_info_last_id u tx_ids g.contract_op_infos 0 [] ops_ok
                (ground (arith, ran, txs_ok, ops_ok))
                (λ i out. subst (λ z. get z i ≡ none) (sym no_ops) refl)
                (subst (λ z. IsHomed op_home g.contract_op_info_last_id z u.contract_ops)
                  (sym no_index)
                  (subst (λ z. IsHomed op_home g.contract_op_info_last_id [] z) (sym no_ops)
                    (empty-IsHomed op_home g.contract_op_info_last_id))) in
            (
              record { txs = rw (infos, index, last) v; ops = w; own_ids = rw infos own },
              rw infos txs,
              ops,
            )
      ]
]
