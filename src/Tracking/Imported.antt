-- ===== src/Tracking/Imported.antt =====
-- A genesis state that is accepted makes a state in which indexes and stores agree.
use archway.Common.{
  ℕ, ltb, ◌≤◌, ◌≡◌, refl, true, false, none, some, ok, arith, List, [], ◌∷◌, All, if◌then◌else◌,
}
use archway.Common.Key.{nat_key}
use archway.Common.Store.{Store, get, set, get-set}
use archway.Common.Int.{uint64}
use archway.Sdk.{Sdk}
use archway.Tracking.Records.{TxInfo, ContractOperationInfo, State, index_key}
use archway.Tracking.Homed.{IsHomed, insert-IsHomed}
use archway.Tracking.Cascade.{contains}
use archway.Tracking.Tracked.{tx_home, op_home}
use archway.Tracking.Genesis.{
  validate_tx_infos, validate_op_infos, import_tx_infos, import_op_infos,
}

-- The state of a chain that starts.
abbrev pub empty : State
empty = record {
  tx_info_last_id = 0;
  tx_infos = [];
  block_index = [];
  contract_op_last_id = 0;
  contract_ops = [];
  tx_index = [];
}

-- The objects at hand have identifiers of the set.
abbrev AreIn : {A : Type 0} → Store ℕ A → List ℕ → Type 0
AreIn objs ids = (i : ℕ) → contains ids i ≡ false → get objs i ≡ none

set-AreIn :
    {A : Type 0} (objs : Store ℕ A) (ids : List ℕ) (i : ℕ) (o : A)
    → AreIn objs ids
    → AreIn (set objs i o) (i ∷ ids)
unfolding contains
set-AreIn objs ids i o h j out = ground (arith, get-set objs i o j, h j, out)

validate_tx_infos-max :
    (ts : List TxInfo) (id_max : ℕ) (ids : List ℕ) {m : ℕ} {out : List ℕ}
    → validate_tx_infos ts id_max ids ≡ ok (m, out)
    → id_max ≤ m
unfolding validate_tx_infos
validate_tx_infos-max [] id_max ids h = ground (arith, h)
validate_tx_infos-max (t ∷ ts) id_max ids {m} {out} h =
    let rest =
      validate_tx_infos-max ts (if ltb id_max t.id then t.id else id_max) (t.id ∷ ids) {m = m}
        {out = out} in
    ground (arith, h, rest)

-- What an accepted transaction adds.
validate_tx_infos-cons :
    (t : TxInfo) (ts : List TxInfo) (id_max : ℕ) (ids : List ℕ) {m : ℕ} {out : List ℕ}
    → validate_tx_infos (t ∷ ts) id_max ids ≡ ok (m, out)
    → (contains ids t.id ≡ false)
      × (t.id ≤ m)
      × (validate_tx_infos ts (if ltb id_max t.id then t.id else id_max) (t.id ∷ ids) ≡ ok (m, out))
unfolding validate_tx_infos
validate_tx_infos-cons t ts id_max ids {m} {out} h =
    let rest : validate_tx_infos ts (if ltb id_max t.id then t.id else id_max) (t.id ∷ ids)
        ≡ ok (m, out) =
      ground (arith, h) in
    let le =
      validate_tx_infos-max ts (if ltb id_max t.id then t.id else id_max) (t.id ∷ ids) rest in
    (ground (arith, h), ground (arith, le), rest)

abbrev HasOwnIds : State → Type 0
HasOwnIds s = (id : ℕ) (t : TxInfo) → get s.tx_infos id ≡ some t → t.id ≡ id

-- Objects with identifiers of the set stay as they are.
abbrev Keeps : {A : Type 0} → Store ℕ A → Store ℕ A → List ℕ → Type 0
Keeps objs objs' ids = (i : ℕ) → contains ids i ≡ true → get objs' i ≡ get objs i

Keeps-set :
    {A : Type 0} (objs objs' : Store ℕ A) (ids : List ℕ) (i : ℕ) (o : A)
    → contains ids i ≡ false
    → Keeps (set objs i o) objs' (i ∷ ids)
    → Keeps objs objs' ids × (get objs' i ≡ some o)
unfolding contains
Keeps-set objs objs' ids i o new h = (
  λ j inside. ground (arith, h j, get-set objs i o j, nat_key.eq_iff i j, inside, new),
  ground (arith, h i, get-set objs i o i, nat_key.eq_iff i i),
)

pub imported_txs :
    (last : ℕ) (s : State) (ts : List TxInfo) (id_max : ℕ) (ids : List ℕ) {m : ℕ} {out : List ℕ}
    → validate_tx_infos ts id_max ids ≡ ok (m, out)
    → m ≤ last
    → AreIn s.tx_infos ids
    → IsHomed tx_home last s.block_index s.tx_infos
    → HasOwnIds s
    → IsHomed tx_home last (import_tx_infos s ts).block_index (import_tx_infos s ts).tx_infos
      × HasOwnIds (import_tx_infos s ts)
      × ((import_tx_infos s ts).contract_ops ≡ s.contract_ops)
      × ((import_tx_infos s ts).tx_index ≡ s.tx_index)
      × Keeps s.tx_infos (import_tx_infos s ts).tx_infos ids
      × All (λ (t : TxInfo). get (import_tx_infos s ts).tx_infos t.id ≡ some t) ts
unfolding import_tx_infos
imported_txs last s [] id_max ids ran le fresh v own = (v, own, refl, refl, λ i inside. refl, tt)
imported_txs last s (t ∷ ts) id_max ids ran le fresh v own =
    let (new, within, rest) = validate_tx_infos-cons t ts id_max ids ran in
    let u : State = record s {
      tx_infos = set s.tx_infos t.id t;
      block_index = set s.block_index (uint64 t.height, t.id) tt;
    } in
    let (v', own', ops, index, kept, all) =
      imported_txs last u ts (if ltb id_max t.id then t.id else id_max) (t.id ∷ ids) rest le
        (set-AreIn s.tx_infos ids t.id t fresh)
        (insert-IsHomed tx_home last s.block_index s.tx_infos t.id t (fresh t.id new)
          (omega (arith, within, le)) v)
        (λ id x found.
          ground (arith, get-set s.tx_infos t.id t id, nat_key.eq_iff t.id id, own id x)) in
    let (kept', here) = Keeps-set s.tx_infos (import_tx_infos u ts).tx_infos ids t.id t new kept in
    (v', own', ops, index, kept', (here, all))

module _ (sdk : Sdk) where
  validate_op_infos-max :
      (tx_ids : List ℕ) (ops : List ContractOperationInfo) (id_max : ℕ) (ids : List ℕ) {m : ℕ}
      → validate_op_infos sdk tx_ids ops id_max ids ≡ ok m
      → id_max ≤ m
  unfolding validate_op_infos
  validate_op_infos-max tx_ids [] id_max ids h = ground (arith, h)
  validate_op_infos-max tx_ids (op ∷ ops) id_max ids {m} h =
      let rest =
        validate_op_infos-max tx_ids ops (if ltb id_max op.id then op.id else id_max) (op.id ∷ ids)
          {m = m} in
      ground (arith, h, rest)

  -- What an accepted operation adds.
  validate_op_infos-cons :
      (tx_ids : List ℕ) (op : ContractOperationInfo) (ops : List ContractOperationInfo) (id_max : ℕ)
      (ids : List ℕ) {m : ℕ}
      → validate_op_infos sdk tx_ids (op ∷ ops) id_max ids ≡ ok m
      → (contains ids op.id ≡ false)
        × (op.id ≤ m)
        × (validate_op_infos sdk tx_ids ops
              (if ltb id_max op.id then op.id else id_max)
              (op.id ∷ ids)
            ≡ ok m)
  unfolding validate_op_infos
  validate_op_infos-cons tx_ids op ops id_max ids {m} h =
      let next = if ltb id_max op.id then op.id else id_max in
      let rest : validate_op_infos sdk tx_ids ops next (op.id ∷ ids) ≡ ok m = ground (arith, h) in
      let le = validate_op_infos-max tx_ids ops next (op.id ∷ ids) rest in
      (ground (arith, h), ground (arith, le), rest)

  pub imported_ops :
      (last : ℕ) (s : State) (tx_ids : List ℕ) (ops : List ContractOperationInfo) (id_max : ℕ)
      (ids : List ℕ) {m : ℕ}
      → validate_op_infos sdk tx_ids ops id_max ids ≡ ok m
      → m ≤ last
      → AreIn s.contract_ops ids
      → IsHomed op_home last s.tx_index s.contract_ops
      → IsHomed op_home last (import_op_infos s ops).tx_index (import_op_infos s ops).contract_ops
        × ((import_op_infos s ops).tx_infos ≡ s.tx_infos)
        × ((import_op_infos s ops).block_index ≡ s.block_index)
        × ((import_op_infos s ops).tx_info_last_id ≡ s.tx_info_last_id)
        × Keeps s.contract_ops (import_op_infos s ops).contract_ops ids
        × All
            (λ (op : ContractOperationInfo).
              get (import_op_infos s ops).contract_ops op.id ≡ some op)
            ops
  unfolding import_op_infos
  imported_ops last s tx_ids [] id_max ids ran le fresh v =
      (v, refl, refl, refl, λ i inside. refl, tt)
  imported_ops last s tx_ids (op ∷ ops) id_max ids ran le fresh v =
      let (new, within, rest) = validate_op_infos-cons tx_ids op ops id_max ids ran in
      let u : State = record s {
        contract_ops = set s.contract_ops op.id op;
        tx_index = set s.tx_index (op.tx_id, op.id) tt;
      } in
      let (v', infos, index, same, kept, all) =
        imported_ops last u tx_ids ops (if ltb id_max op.id then op.id else id_max) (op.id ∷ ids)
          rest le (set-AreIn s.contract_ops ids op.id op fresh)
          (insert-IsHomed op_home last s.tx_index s.contract_ops op.id op (fresh op.id new)
            (omega (arith, within, le)) v) in
      let (kept', here) =
        Keeps-set s.contract_ops (import_op_infos u ops).contract_ops ids op.id op new kept in
      (v', infos, index, same, kept', (here, all))
