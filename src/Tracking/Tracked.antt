-- ===== src/Tracking/Tracked.antt =====
-- The invariant of x/tracking: every entry of an index leads to an object of its block or of its
-- transaction, and every object has its entry.
use archway.Common.{
  ℕ, ◌+◌, ◌<◌, ◌^◌, ◌≡◌, refl, sym, subst, some, Option-cases, Bool-cases, Result-cases, inl, inr,
  ok, arith, List, [], ◌∷◌, All,
}
use archway.Common.Key.{◌==◌, nat_key}
use archway.Common.Store.{get, set, get-set}
use archway.Common.Int.{ℤ, uint64}
use archway.Tracking.Records.{
  TxInfo, ContractOperationInfo, State, index_key, ids_of, find_all, add64, add_gas,
  create_empty_tx_info, create_contract_op_info, get_contract_op_info_by_tx_id, finalize_each,
  delete_tx_infos_cascade, delete_each, delete_contract_ops_by_tx_id, remove_objects,
  remove_entries, ContractOperation,
}
use archway.Common.Key.{Text}
use archway.Tracking.Finalize.{IsIndexed}
use archway.Tracking.Homed.{IsHomed, add-IsHomed, update-IsHomed}
use archway.Tracking.Cascade.{cascade-IsHomed, get-remove_objects}

abbrev pub tx_home : TxInfo → ℕ
tx_home t = uint64 t.height

abbrev pub op_home : ContractOperationInfo → ℕ
op_home op = op.tx_id

pub record IsTracked (s : State) : Type 0 where
  pub txs : IsHomed tx_home s.tx_info_last_id s.block_index s.tx_infos
  pub ops : IsHomed op_home s.contract_op_last_id s.tx_index s.contract_ops
  pub own_ids : (id : ℕ) (t : TxInfo) → get s.tx_infos id ≡ some t → t.id ≡ id

pub IsTracked-IsIndexed : (s : State) → IsTracked s → IsIndexed s
IsTracked-IsIndexed s v = record {
  block_keyed = v.txs.keyed;
  tx_keyed = v.ops.keyed;
  blocks = λ key id there. let (t, found, _) = v.txs.found key id there in (t, found);
  own_ids = v.own_ids;
  txs = λ key id there. let (op, found, _) = v.ops.found key id there in (op, found);
}

-- An identifier that is not the last of 64 bits.
pub add64_one : (n : ℕ) → n + 1 < 2 ^ 64 → add64 n 1 ≡ n + 1
add64_one n room = omega (arith, room)

pub create_empty_tx_info-IsTracked :
    (height : ℤ) (s : State)
    → s.tx_info_last_id + 1 < 2 ^ 64
    → IsTracked s
    → IsTracked (create_empty_tx_info height s)
unfolding create_empty_tx_info
create_empty_tx_info-IsTracked height s room v =
    let new : ℕ → TxInfo = λ i. record { id = i; height = height; total_gas = 0 } in
    let e = sym (add64_one s.tx_info_last_id room) in
    let i = add64 s.tx_info_last_id 1 in
    record {
      txs =
          subst
            (λ j.
              IsHomed tx_home j (set s.block_index (uint64 height, j) tt)
                (set s.tx_infos j (new i)))
            e (add-IsHomed tx_home s.tx_info_last_id s.block_index s.tx_infos (new i) v.txs);
      ops = v.ops;
      own_ids = λ id t found.
          ground (arith, get-set s.tx_infos i (new i) id, nat_key.eq_iff i id, v.own_ids id t);
    }

pub create_contract_op_info-IsTracked :
    (s : State) (tx_id : ℕ) (a : Text) (t : ContractOperation) (vm sdk_gas : ℕ)
    → s.contract_op_last_id + 1 < 2 ^ 64
    → IsTracked s
    → IsTracked (create_contract_op_info s tx_id a t vm sdk_gas)
      × (create_contract_op_info s tx_id a t vm sdk_gas).contract_op_last_id
        ≡ s.contract_op_last_id + 1
unfolding create_contract_op_info
create_contract_op_info-IsTracked s tx_id a t vm sdk_gas room v =
    let i = add64 s.contract_op_last_id 1 in
    let new : ContractOperationInfo = record {
      id = i;
      tx_id = tx_id;
      contract_address = a;
      operation_type = t;
      vm_gas = vm;
      sdk_gas = sdk_gas;
    } in
    (
      record {
        txs = v.txs;
        ops =
            subst (λ j. IsHomed op_home j (set s.tx_index (tx_id, j) tt) (set s.contract_ops j new))
              (sym (add64_one s.contract_op_last_id room))
              (add-IsHomed op_home s.contract_op_last_id s.tx_index s.contract_ops new v.ops);
        own_ids = v.own_ids;
      },
      add64_one s.contract_op_last_id room,
    )

-- The infos at hand have those in the store for their identifier, with the same height.
abbrev IsStored : State → TxInfo → Type 0
IsStored s t = (o : TxInfo) × (get s.tx_infos t.id ≡ some o) × (t.height ≡ o.height)

pub find_all-IsStored :
    (s : State) (ids : List ℕ) {ts : List TxInfo}
    → find_all s.tx_infos ids ≡ ok ts
    → ((id : ℕ) (t : TxInfo) → get s.tx_infos id ≡ some t → t.id ≡ id)
    → All (IsStored s) ts
unfolding find_all
find_all-IsStored s [] {ts} h own =
    let same : [] ≡ ts = ground (arith, h) in subst (All (IsStored s)) same tt
find_all-IsStored s (id ∷ ids) {ts} h own = elim (Option-cases (get s.tx_infos id)) [
  | inl absent ↦ ground (arith, h)
  | inr (t, found) ↦ elim (Result-cases (find_all s.tx_infos ids)) [
    | inr bad ↦ ground (arith, h)
    | inl (os, rest) ↦
        let same : t ∷ os ≡ ts = ground (arith, h, found, rest) in
        subst (All (IsStored s)) same (
          (t, subst (λ i. get s.tx_infos i ≡ some t) (sym (own id t found)) found, refl),
          find_all-IsStored s ids rest own,
        )
  ]
]

set-IsStored :
    (s : State) (t n : TxInfo) (ts : List TxInfo)
    → IsStored s t
    → n.height ≡ t.height
    → All (IsStored s) ts
    → All (IsStored (record s { tx_infos = set s.tx_infos t.id n })) ts
set-IsStored s t n [] h e a = tt
set-IsStored s t n (x ∷ ts) (o, there, at) e ((p, here, same), a) = (
  elim (Bool-cases (t.id == x.id)) [
    | inl self ↦ (
      n,
      ground (arith, get-set s.tx_infos t.id n x.id),
      ground (arith, nat_key.eq_iff t.id x.id, there, here, at, same, e),
    )
    | inr other ↦ (p, ground (arith, get-set s.tx_infos t.id n x.id, here), same)
  ],
  set-IsStored s t n ts (o, there, at) e a,
)

pub finalize_each-IsTracked :
    (s : State) (ts : List TxInfo) {s' : State}
    → finalize_each s ts ≡ ok s'
    → All (IsStored s) ts
    → IsTracked s
    → IsTracked s'
unfolding finalize_each
finalize_each-IsTracked s [] ran stored v = subst IsTracked (ground (arith, ran)) v
finalize_each-IsTracked s (t ∷ ts) {s'} ran ((o, there, at), stored) v =
    elim (Result-cases (get_contract_op_info_by_tx_id s t.id)) [
      | inr bad ↦ ground (arith, ran)
      | inl (ops, listed) ↦
          let n : TxInfo = record t { total_gas = add_gas t.total_gas ops } in
          finalize_each-IsTracked (record s { tx_infos = set s.tx_infos t.id n }) ts {s' = s'}
            (ground (arith, ran, listed)) (set-IsStored s t n ts (o, there, at) refl stored)
            (record {
              txs =
                  update-IsHomed tx_home s.tx_info_last_id s.block_index s.tx_infos t.id o n there
                    (ground (arith, at)) v.txs;
              ops = v.ops;
              own_ids = λ id x found.
                  ground
                    (arith, get-set s.tx_infos t.id n id, nat_key.eq_iff t.id id, v.own_ids id x);
            })
    ]

delete_each-IsTracked :
    (s : State) (tx_ids : List ℕ) → IsTracked s → IsTracked (delete_each s tx_ids)
unfolding delete_each delete_contract_ops_by_tx_id
delete_each-IsTracked s [] v = v
delete_each-IsTracked s (tx_id ∷ tx_ids) v =
    delete_each-IsTracked (delete_contract_ops_by_tx_id s tx_id) tx_ids (record {
      txs = v.txs;
      ops = cascade-IsHomed op_home s.contract_op_last_id s.tx_index s.contract_ops tx_id v.ops;
      own_ids = v.own_ids;
    })

pub delete_tx_infos_cascade-IsTracked :
    (s : State) (height : ℤ) → IsTracked s → IsTracked (delete_tx_infos_cascade s height)
unfolding delete_tx_infos_cascade
delete_tx_infos_cascade-IsTracked s height v =
    let key = uint64 height in
    let ids = ids_of s.block_index key in
    delete_each-IsTracked
      (record s {
        tx_infos = remove_objects s.tx_infos ids;
        block_index = remove_entries s.block_index key ids;
      })
      ids
      (record {
        txs = cascade-IsHomed tx_home s.tx_info_last_id s.block_index s.tx_infos key v.txs;
        ops = v.ops;
        own_ids = λ id t found.
            v.own_ids id t (ground (arith, get-remove_objects s.tx_infos ids id, found));
      })
