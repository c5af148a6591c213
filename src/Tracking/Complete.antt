-- ===== src/Tracking/Complete.antt =====
-- The end of a block, in terms of the transactions and operations that are stored.
use archway.Common.{
  ℕ, ◌+◌, ◌%◌, ◌^◌, ◌≡◌, ◌≢◌, refl, sym, subst, ◌∙◌, false, some, Bool-cases, Option-cases,
  Result-cases, inl, inr, ◌⊎◌, ok, arith, List, [], ◌∷◌, All, if◌then◌else◌,
}
use archway.Common.Key.{◌==◌, nat_key}
use archway.Common.Store.{Store, get, total}
use archway.Common.Int.{ℤ, uint64}
use archway.Tracking.Records.{
  TxInfo, ContractOperationInfo, State, index_key, ids_of, find_all, remove_objects,
  get_tx_infos_by_block, get_contract_op_info_by_tx_id, finalize_block_tx_tracking,
}
use archway.Tracking.Finalize.{
  AreFound, IsFinalized, sum_gas, by_index, finalize_block_tx_tracking_lem,
}
use archway.Tracking.Homed.{Index, IsHomed}
use archway.Tracking.Cascade.{contains, get-remove_objects, remove_objects-Keyed}
use archway.Tracking.Listing.{
  contains-ids_of, AreHome, All-found, ids_of-Distinct, sum_of, total-found, total_zero,
}
use archway.Tracking.Tracked.{
  IsTracked, IsTracked-IsIndexed, tx_home, op_home, find_all-IsStored, finalize_each-IsTracked,
}

-- The gas of all stored operations of a transaction.
abbrev pub gas_of : Store ℕ ContractOperationInfo → ℕ → ℕ
gas_of ops tx_id = total (λ k op. if op.tx_id == tx_id then op.vm_gas + op.sdk_gas else 0) ops

-- After the end of a block: a transaction at another height is as before, and one of the block has got
-- the gas of all its stored operations, in 64 bits.
abbrev pub IsFinalizedAt : ℤ → State → State → ℕ → Type 0
IsFinalizedAt height s s' id =
    (((t : TxInfo) → get s.tx_infos id ≡ some t → uint64 t.height ≢ uint64 height)
      × (get s'.tx_infos id ≡ get s.tx_infos id))
    ⊎ ((t : TxInfo) × (t' : TxInfo) × (get s.tx_infos id ≡ some t)
        × (uint64 t.height ≡ uint64 height)
        × (get s'.tx_infos id ≡ some t')
        × (t'.height ≡ t.height)
        × (t'.total_gas % 2 ^ 64 ≡ (t.total_gas + gas_of s.contract_ops id) % 2 ^ 64))

sum_of-sum_gas :
    (tx_id : ℕ) (objs : Store ℕ ContractOperationInfo) (os : List ContractOperationInfo)
    → All
        (λ (op : ContractOperationInfo). (op.tx_id ≡ tx_id) × ((i : ℕ) × (get objs i ≡ some op)))
        os
    → sum_of (λ op. if op.tx_id == tx_id then op.vm_gas + op.sdk_gas else 0) os ≡ sum_gas os
unfolding sum_of sum_gas
sum_of-sum_gas tx_id objs [] h = refl
sum_of-sum_gas tx_id objs (op ∷ os) ((own, at), h) =
    ground (arith, own, nat_key.eq_iff op.tx_id tx_id, sum_of-sum_gas tx_id objs os h)

-- What the index finds of a transaction is all that is stored of it.
gas_of-sum_gas :
    (last : ℕ) (index : Index) (objs : Store ℕ ContractOperationInfo) (tx_id : ℕ)
    (os : List ContractOperationInfo)
    → IsHomed op_home last index objs
    → AreFound objs (ids_of index tx_id) os
    → gas_of objs tx_id ≡ sum_gas os
gas_of-sum_gas last index objs tx_id os v found =
    let g : ContractOperationInfo → ℕ =
      λ op. if op.tx_id == tx_id then op.vm_gas + op.sdk_gas else 0 in
    let ids = ids_of index tx_id in
    let parts =
      total-found g objs ids os v.stored_once (ids_of-Distinct index tx_id v.keyed) found in
    let rest =
      total_zero g (remove_objects objs ids) (remove_objects-Keyed objs ids v.stored_once)
        (λ k op at.
          let here : get objs k ≡ some op = ground (arith, at, get-remove_objects objs ids k) in
          let out : contains ids k ≡ false = ground (arith, at, get-remove_objects objs ids k) in
          ground (arith, contains-ids_of op_home last index objs tx_id k op v here, out)) in
    let sum = sum_of-sum_gas tx_id objs os (AreHome op_home last index objs tx_id os v found) in
    omega (arith, parts, rest, sum)

gas_of_ops :
    (s : State) (tx_id : ℕ) {ops : List ContractOperationInfo}
    → IsTracked s
    → get_contract_op_info_by_tx_id s tx_id ≡ ok ops
    → gas_of s.contract_ops tx_id ≡ sum_gas ops
unfolding get_contract_op_info_by_tx_id
gas_of_ops s tx_id {ops} v listed =
    let (os, ran, found) =
      by_index s.tx_index s.contract_ops tx_id v.ops.keyed (IsTracked-IsIndexed s v).txs in
    let same : os ≡ ops = ground (arith, listed, ran) in
    subst (λ xs. gas_of s.contract_ops tx_id ≡ sum_gas xs) same
      (gas_of-sum_gas s.contract_op_last_id s.tx_index s.contract_ops tx_id os v.ops found)

pub finalize_block_tx_tracking-IsTracked :
    (s : State) (height : ℤ) {s' : State}
    → IsTracked s
    → finalize_block_tx_tracking s height ≡ ok s'
    → IsTracked s'
unfolding finalize_block_tx_tracking get_tx_infos_by_block
finalize_block_tx_tracking-IsTracked s height {s'} v ran =
    elim (Result-cases (find_all s.tx_infos (ids_of s.block_index (uint64 height)))) [
      | inr bad ↦ ground (arith, ran)
      | inl (ts, listed) ↦
          finalize_each-IsTracked s ts {s' = s'} (ground (arith, ran, listed))
            (find_all-IsStored s (ids_of s.block_index (uint64 height)) listed v.own_ids) v
    ]

-- Of another identifier than that of a transaction that is not at the height.
differs :
    (s : State) (height : ℤ) (id : ℕ) (ts : List TxInfo)
    → IsTracked s
    → ((t : TxInfo) → get s.tx_infos id ≡ some t → uint64 t.height ≢ uint64 height)
    → All
        (λ (t : TxInfo).
          (uint64 t.height ≡ uint64 height) × ((i : ℕ) × (get s.tx_infos i ≡ some t)))
        ts
    → All (λ (t : TxInfo). t.id ≢ id) ts
differs s height id [] v away h = tt
differs s height id (t ∷ ts) v away ((at, (i, here)), h) = (
  λ e.
      let own : t.id ≡ i = v.own_ids i t here in
      away t (subst (λ j. get s.tx_infos j ≡ some t) (sym own ∙ e) here) at,
  differs s height id ts v away h,
)

at_id :
    (height : ℤ) (s s' : State) (ts : List TxInfo) (id : ℕ)
    → IsTracked s
    → AreFound s.tx_infos (ids_of s.block_index (uint64 height)) ts
    → All (IsFinalized s s') ts
    → (All (λ (x : TxInfo). x.id ≢ id) ts → get s'.tx_infos id ≡ get s.tx_infos id)
    → IsFinalizedAt height s s' id
at_id height s s' ts id v found done kept =
    let key = uint64 height in
    let all = AreHome tx_home s.tx_info_last_id s.block_index s.tx_infos key ts v.txs found in
    elim (Option-cases (get s.tx_infos id)) [
      | inl absent ↦
          let away : (t : TxInfo) → get s.tx_infos id ≡ some t → uint64 t.height ≢ key =
            λ t here e. ground (arith, absent, here) in
          inl (away, kept (differs s height id ts v away all))
      | inr (t, here) ↦ elim (Bool-cases (uint64 t.height == key)) [
        | inl same ↦
            let inside =
              contains-ids_of tx_home s.tx_info_last_id s.block_index s.tx_infos key id t v.txs here
              ∙ same in
            let (ops, t', listed, stored, at, gas) =
              All-found (IsFinalized s s') s.tx_infos (ids_of s.block_index key) ts id t found
                inside here done in
            let own : t.id ≡ id = v.own_ids id t here in
            inr (
              t,
              t',
              here,
              (nat_key.eq_iff (uint64 t.height) key).0 same,
              subst (λ i. get s'.tx_infos i ≡ some t') own stored,
              at,
              rw
                  (subst (λ i. gas_of s.contract_ops i ≡ sum_gas ops) own
                    (gas_of_ops s t.id v listed))
                  gas,
            )
        | inr other ↦
            let away : (x : TxInfo) → get s.tx_infos id ≡ some x → uint64 x.height ≢ key =
              λ x again e.
                ground (arith, here, again, e, other, nat_key.eq_iff (uint64 t.height) key) in
            inl (away, kept (differs s height id ts v away all))
      ]
    ]

-- When indexes and stores agree in both directions, the end of a block never panics, and they still
-- agree. Every stored transaction at the height gets the gas of all stored operations of it added, in
-- 64 bits, and keeps its height; no other transaction changes, and none is added.
pub finalize_block_tx_tracking-IsFinalized :
    (s : State) (height : ℤ)
    → IsTracked s
    → (s' : State) × (finalize_block_tx_tracking s height ≡ ok s')
      × IsTracked s'
      × ((id : ℕ) → IsFinalizedAt height s s' id)
unfolding get_tx_infos_by_block
finalize_block_tx_tracking-IsFinalized s height v =
    let (ts, s', listed, ran, _, done, kept) =
      finalize_block_tx_tracking_lem s height (IsTracked-IsIndexed s v) in
    let (xs, again, found) =
      by_index s.block_index s.tx_infos (uint64 height) v.txs.keyed
        (IsTracked-IsIndexed s v).blocks in
    let same : xs ≡ ts = ground (arith, listed, again) in
    (
      s',
      ran,
      finalize_block_tx_tracking-IsTracked s height v ran,
      λ id.
          at_id height s s' ts id v
            (subst (AreFound s.tx_infos (ids_of s.block_index (uint64 height))) same found) done
            (kept id),
    )
