-- ===== src/Tracking/Finalize.antt =====
-- The end of a block finds all its transactions, and sums their gas.
use archway.Common.{
  ℕ, ◌+◌, ◌≡◌, ◌≢◌, ◌%◌, ◌^◌, refl, sym, subst, ◌∙◌, true, none, some, Bool-cases, inl, inr, ok,
  arith, List, [], ◌∷◌, map, select, All,
}
use archway.Common.Key.{◌==◌, nat_key}
use archway.Common.Store.{
  Store, Keyed, get, set, get-set, get-set_self, select-Keyed, select-All-keys, select-IsPartOf,
}
use archway.Common.Int.{ℤ, uint64}
use archway.Tracking.Records.{
  TxInfo, ContractOperationInfo, State, index_key, ids_of, find_all, get_tx_infos_by_block,
  get_contract_op_info_by_tx_id, add_gas, finalize_each, finalize_block_tx_tracking,
}

-- Every entry of an index is the identifier of an object.
abbrev pub Finds : {A : Type 0} → Store (ℕ × ℕ) (Unit {0}) → Store ℕ A → Type 0
Finds {A} index objs =
    (key id : ℕ) → get index (key, id) ≡ some tt → (o : A) × (get objs id ≡ some o)

pub record IsIndexed (s : State) : Type 0 where
  pub block_keyed : Keyed s.block_index
  pub tx_keyed : Keyed s.tx_index
  pub blocks : Finds s.block_index s.tx_infos
  pub own_ids : (id : ℕ) (t : TxInfo) → get s.tx_infos id ≡ some t → t.id ≡ id
  pub txs : Finds s.tx_index s.contract_ops

-- What is found for identifiers.
abbrev pub AreFound : {A : Type 0} → Store ℕ A → List ℕ → List A → Type 0
AreFound objs [] [] = Unit
AreFound objs (id ∷ ids) (o ∷ os) = (get objs id ≡ some o) × AreFound objs ids os
AreFound objs _ _ = ⊥

find_all-AreFound :
    {A : Type 0} (objs : Store ℕ A) (ids : List ℕ)
    → All (λ id. (o : A) × (get objs id ≡ some o)) ids
    → (os : List A) × (find_all objs ids ≡ ok os) × AreFound objs ids os
unfolding find_all
find_all-AreFound objs [] h = ([], refl, tt)
find_all-AreFound objs (id ∷ ids) ((o, found), h) =
    let (os, ran, rest) = find_all-AreFound objs ids h in
    (o ∷ os, rw (found, ran) refl, (found, rest))

listed :
    {A : Type 0} (index : Store (ℕ × ℕ) (Unit {0})) (objs : Store ℕ A)
    (part : Store (ℕ × ℕ) (Unit {0}))
    → Finds index objs
    → All (λ (x : (ℕ × ℕ) × Unit {0}). get index x.0 ≡ some x.1) part
    → All (λ id. (o : A) × (get objs id ≡ some o)) (map (λ (x : (ℕ × ℕ) × Unit {0}). x.0.1) part)
listed index objs [] f h = tt
listed index objs (((k, id), u) ∷ part) f (there, h) = (f k id there, listed index objs part f h)

-- A walk over an index that is not broken finds an object for every entry.
pub by_index :
    {A : Type 0} (index : Store (ℕ × ℕ) (Unit {0})) (objs : Store ℕ A) (key : ℕ)
    → Keyed index
    → Finds index objs
    → (os : List A) × (find_all objs (ids_of index key) ≡ ok os)
      × AreFound objs (ids_of index key) os
by_index index objs key keyed f = find_all-AreFound objs (ids_of index key) (
    listed index objs (select (λ (x : (ℕ × ℕ) × Unit {0}). x.0.0 == key) index) f
      (select-IsPartOf (λ (k : ℕ × ℕ). k.0 == key) index keyed))

-- No two transactions of one identifier.
abbrev Apart : List TxInfo → Type 0
Apart [] = Unit
Apart (t ∷ ts) = All (λ (x : TxInfo). x.id ≢ t.id) ts × Apart ts

others :
    (s : State) (key id : ℕ) (part : Store (ℕ × ℕ) (Unit {0})) (ts : List TxInfo)
    → IsIndexed s
    → All (λ (x : (ℕ × ℕ) × Unit {0}). (x.0.0 == key) ≡ true) part
    → get part (key, id) ≡ none
    → AreFound s.tx_infos (map (λ (x : (ℕ × ℕ) × Unit {0}). x.0.1) part) ts
    → All (λ (x : TxInfo). x.id ≢ id) ts
unfolding get
others s key id [] [] v same absent found = tt
others s key id [] (t ∷ ts) v same absent found = absurd found
others s key id (x ∷ part) [] v same absent found = absurd found
others s key id (((k, i), u) ∷ part) (t ∷ ts) v (at, same) absent (here, found) = (
  λ e.
      ground (
        arith,
        v.own_ids i t here,
        nat_key.eq_iff id i,
        nat_key.eq_iff key k,
        nat_key.eq_iff k key,
      ),
  others s key id part ts v same (ground arith) found,
)

apart :
    (s : State) (key : ℕ) (part : Store (ℕ × ℕ) (Unit {0})) (ts : List TxInfo)
    → IsIndexed s
    → Keyed part
    → All (λ (x : (ℕ × ℕ) × Unit {0}). (x.0.0 == key) ≡ true) part
    → AreFound s.tx_infos (map (λ (x : (ℕ × ℕ) × Unit {0}). x.0.1) part) ts
    → Apart ts
apart s key [] [] v keyed same found = tt
apart s key [] (t ∷ ts) v keyed same found = absurd found
apart s key (x ∷ part) [] v keyed same found = absurd found
apart s key (((k, i), u) ∷ part) (t ∷ ts) v (absent, keyed) (at, same) (here, found) =
    let own : i ≡ t.id = sym (v.own_ids i t here) in
    let e : k ≡ key = (nat_key.eq_iff k key).0 at in
    (
      subst (λ j. All (λ (x : TxInfo). x.id ≢ j) ts) own
          (others s key i part ts v same (subst (λ j. get part (j, i) ≡ none) e absent) found),
      apart s key part ts v keyed same found,
    )

unfoldable pub sum_gas : List ContractOperationInfo → ℕ
sum_gas [] = 0
sum_gas (op ∷ ops) = op.vm_gas + op.sdk_gas + sum_gas ops

-- The sum of the gas, in 64 bits.
add_gas-sum_gas :
    (total : ℕ) (ops : List ContractOperationInfo)
    → add_gas total ops % 2 ^ 64 ≡ (total + sum_gas ops) % 2 ^ 64
unfolding add_gas sum_gas
add_gas-sum_gas total [] = omega arith
add_gas-sum_gas total (op ∷ ops) =
    omega (arith, add_gas-sum_gas ((total + ((op.vm_gas + op.sdk_gas) % 2 ^ 64)) % 2 ^ 64) ops)

-- A transaction that has got the gas of its operations.
abbrev pub IsFinalized : State → State → TxInfo → Type 0
IsFinalized s s' t =
    (ops : List ContractOperationInfo) × (t' : TxInfo) × (get_contract_op_info_by_tx_id s t.id
      ≡ ok ops)
    × (get s'.tx_infos t.id ≡ some t')
    × (t'.height ≡ t.height)
    × (t'.total_gas % 2 ^ 64 ≡ (t.total_gas + sum_gas ops) % 2 ^ 64)

with_total-IsIndexed :
    (s : State) (t : TxInfo) (gas : ℕ)
    → IsIndexed s
    → IsIndexed (record s { tx_infos = set s.tx_infos t.id (record t { total_gas = gas }) })
with_total-IsIndexed s t gas v = record {
  block_keyed = v.block_keyed;
  tx_keyed = v.tx_keyed;
  blocks = λ key id there. elim (Bool-cases (t.id == id)) [
    | inl same ↦ (
      record t { total_gas = gas },
      ground (arith, get-set s.tx_infos t.id (record t { total_gas = gas }) id),
    )
    | inr other ↦
        let (o, found) = v.blocks key id there in
        (o, ground (arith, get-set s.tx_infos t.id (record t { total_gas = gas }) id))
  ];
  own_ids = λ id x found. ground (
    arith,
    get-set s.tx_infos t.id (record t { total_gas = gas }) id,
    nat_key.eq_iff t.id id,
    v.own_ids id x,
  );
  txs = v.txs;
}

finalize_each-IsIndexed :
    (s : State) (ts : List TxInfo)
    → IsIndexed s
    → Apart ts
    → (s' : State) × (finalize_each s ts ≡ ok s')
      × IsIndexed s'
      × All (IsFinalized s s') ts
      × ((id : ℕ) → All (λ (x : TxInfo). x.id ≢ id) ts → get s'.tx_infos id ≡ get s.tx_infos id)
unfolding finalize_each get_contract_op_info_by_tx_id
finalize_each-IsIndexed s [] v a = (s, refl, v, tt, λ id h. refl)
finalize_each-IsIndexed s (t ∷ ts) v (differs, a) =
    let (ops, ran, _) = by_index s.tx_index s.contract_ops t.id v.tx_keyed v.txs in
    let new : TxInfo = record t { total_gas = add_gas t.total_gas ops } in
    let u : State = record s { tx_infos = set s.tx_infos t.id new } in
    let (s', rest, valid, done, kept) =
      finalize_each-IsIndexed u ts (with_total-IsIndexed s t (add_gas t.total_gas ops) v) a in
    (
      s',
      rw ran rest,
      valid,
      (
        (
          ops,
          new,
          ran,
          kept t.id differs ∙ get-set_self s.tx_infos t.id new,
          refl,
          add_gas-sum_gas t.total_gas ops,
        ),
        done,
      ),
      λ id h.
          ground (arith, kept id h.1, get-set s.tx_infos t.id new id, nat_key.eq_iff t.id id, h.0),
    )

-- The end of a block, where every entry of the indexes leads to its object, in terms of the walks.
pub finalize_block_tx_tracking_lem :
    (s : State) (height : ℤ)
    → IsIndexed s
    → (ts : List TxInfo) × (s' : State) × (get_tx_infos_by_block s height ≡ ok ts)
      × (finalize_block_tx_tracking s height ≡ ok s')
      × IsIndexed s'
      × All (IsFinalized s s') ts
      × ((id : ℕ) → All (λ (x : TxInfo). x.id ≢ id) ts → get s'.tx_infos id ≡ get s.tx_infos id)
unfolding finalize_block_tx_tracking get_tx_infos_by_block
finalize_block_tx_tracking_lem s height v =
    let key = uint64 height in
    let p = λ (k : ℕ × ℕ). k.0 == key in
    let (ts, ran, found) = by_index s.block_index s.tx_infos key v.block_keyed v.blocks in
    let (s', done, valid, all_done, kept) = finalize_each-IsIndexed s ts v (
      apart s key (select (λ (x : (ℕ × ℕ) × Unit {0}). p x.0) s.block_index) ts v
        (select-Keyed p s.block_index v.block_keyed) (select-All-keys p s.block_index) found) in
    (ts, s', ran, rw ran done, valid, all_done, kept)
