-- ===== src/Tracking/Removal.antt =====
-- The removal of a block (x/tracking/keeper/state.go).
use archway.Common.{
  false, Bool, if◌then◌else◌, ℕ, ◌≡◌, refl, none, some, List, Bool-cases, Option-cases, inl, inr,
  ok, arith, [], ◌∷◌,
}
use archway.Common.Key.{◌==◌, nat_key}
use archway.Common.Store.{get}
use archway.Common.Int.{ℤ, uint64}
use archway.Tracking.Records.{
  State, index_key, ids_of, find_all, get_tx_infos_by_block, delete_contract_ops_by_tx_id,
  delete_each, delete_tx_infos_cascade, remove_entries, remove_objects,
}
use archway.Tracking.Tracked.{IsTracked, tx_home, op_home, delete_tx_infos_cascade-IsTracked}
use archway.Tracking.Listing.{get-ids_of, contains-ids_of, contains-ids_of-none}
use archway.Tracking.Homed.{Index, IsHomed}
use archway.Tracking.Cascade.{
  cascade-IsHomed, contains, gone, get-remove_entries, get-remove_objects,
}

-- Without an entry of a key nothing is listed.
ids_of-none :
    (index : Index) (key : ℕ) → ((id : ℕ) → get index (key, id) ≡ none) → ids_of index key ≡ []
unfolding get
ids_of-none [] key h = refl
ids_of-none (((k, i), u) ∷ index) key h = elim (Bool-cases (k == key)) [
  | inl same ↦ ground (arith, h i, index_key.eq_iff (key, i) (k, i), nat_key.eq_iff k key)
  | inr other ↦
      let rest = ids_of-none index key (λ id. ground (arith, h id)) in ground (arith, rest)
]

remove_entries-none :
    (index : Index) (key id : ℕ)
    → get (remove_entries index key (ids_of index key)) (key, id) ≡ none
remove_entries-none index key id =
    let ids = ids_of index key in
    elim (Option-cases (get (remove_entries index key ids) (key, id))) [
      | inl absent ↦ absent
      | inr (tt, there) ↦
          gone index key ids id
            (get-ids_of index key id (get-remove_entries index key ids key id there))
    ]

-- The removal of operations leaves the transactions.
delete_each_kept :
    (s : State) (tx_ids : List ℕ)
    → ((delete_each s tx_ids).tx_infos ≡ s.tx_infos)
      × ((delete_each s tx_ids).block_index ≡ s.block_index)
unfolding delete_each delete_contract_ops_by_tx_id
delete_each_kept s [] = (refl, refl)
delete_each_kept s (tx_id ∷ tx_ids) = delete_each_kept (delete_contract_ops_by_tx_id s tx_id) tx_ids

-- The operations that are left are those of other transactions.
get-delete_each :
    (s : State) (tx_ids : List ℕ) (id : ℕ)
    → IsHomed op_home s.contract_op_last_id s.tx_index s.contract_ops
    → get (delete_each s tx_ids).contract_ops id ≡ (elim (get s.contract_ops id) [
      | none ↦ none
      | some op ↦ if contains tx_ids op.tx_id then none else some op
    ])
unfolding delete_each delete_contract_ops_by_tx_id contains
get-delete_each s [] id v = elim (Option-cases (get s.contract_ops id)) [
  | inl absent ↦ ground (arith, absent)
  | inr (op, here) ↦ ground (arith, here)
]
get-delete_each s (i ∷ tx_ids) id v =
    let u = delete_contract_ops_by_tx_id s i in
    let w = cascade-IsHomed op_home s.contract_op_last_id s.tx_index s.contract_ops i v in
    let rest = get-delete_each u tx_ids id w in
    let one = get-remove_objects s.contract_ops (ids_of s.tx_index i) id in
    elim (Option-cases (get s.contract_ops id)) [
      | inl absent ↦ ground (arith, rest, one, absent)
      | inr (op, here) ↦ ground (
        arith,
        rest,
        one,
        here,
        contains-ids_of op_home s.contract_op_last_id s.tx_index s.contract_ops i id op v here,
        nat_key.eq_iff op.tx_id i,
        nat_key.eq_iff i op.tx_id,
      )
    ]

-- There is a transaction of an identifier at a height.
abbrev pub is_at : ℤ → State → ℕ → Bool
is_at height s tx_id = elim (get s.tx_infos tx_id) [
  | none ↦ false
  | some t ↦ uint64 t.height == uint64 height
]

contains-is_at :
    (height : ℤ) (s : State) (tx_id : ℕ)
    → IsTracked s
    → contains (ids_of s.block_index (uint64 height)) tx_id ≡ is_at height s tx_id
contains-is_at height s tx_id v =
    let key = uint64 height in
    elim (Option-cases (get s.tx_infos tx_id)) [
      | inl absent ↦ ground (
        arith,
        absent,
        contains-ids_of-none tx_home s.tx_info_last_id s.block_index s.tx_infos key tx_id v.txs
            absent,
      )
      | inr (t, here) ↦ ground (
        arith,
        here,
        contains-ids_of tx_home s.tx_info_last_id s.block_index s.tx_infos key tx_id t v.txs here,
      )
    ]

-- After the removal of a block, where indexes and stores agree, no transaction is found at its height,
-- and indexes and stores still agree. The stored transactions at the height are removed, with all stored
-- operations of them; every other transaction and every other operation stays as it is.
pub delete_tx_infos_cascade-removes :
    (s : State) (height : ℤ)
    → IsTracked s
    → (get_tx_infos_by_block (delete_tx_infos_cascade s height) height ≡ ok [])
      × IsTracked (delete_tx_infos_cascade s height)
      × ((id : ℕ)
          → get (delete_tx_infos_cascade s height).tx_infos id
            ≡ (if is_at height s id then none else get s.tx_infos id))
      × ((id : ℕ)
          → get (delete_tx_infos_cascade s height).contract_ops id ≡ (elim (get s.contract_ops id) [
            | none ↦ none
            | some op ↦ if is_at height s op.tx_id then none else some op
          ]))
unfolding delete_tx_infos_cascade get_tx_infos_by_block find_all
delete_tx_infos_cascade-removes s height v =
    let key = uint64 height in
    let ids = ids_of s.block_index key in
    let t : State = record s {
      tx_infos = remove_objects s.tx_infos ids;
      block_index = remove_entries s.block_index key ids;
    } in
    let (same_infos, same_index) = delete_each_kept t ids in
    (
      rw
          (
            same_index,
            ids_of-none (remove_entries s.block_index key ids) key
                (remove_entries-none s.block_index key),
          )
          refl,
      delete_tx_infos_cascade-IsTracked s height v,
      λ id.
          rw same_infos
            (ground (arith, get-remove_objects s.tx_infos ids id, contains-is_at height s id v)),
      λ id. elim (Option-cases (get s.contract_ops id)) [
        | inl absent ↦ ground (arith, absent, get-delete_each t ids id v.ops)
        | inr (op, here) ↦
            ground (arith, here, get-delete_each t ids id v.ops, contains-is_at height s op.tx_id v)
      ],
    )
