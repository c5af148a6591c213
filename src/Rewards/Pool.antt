-- ===== src/Rewards/Pool.antt =====
-- The rewards pool backs the records that can be withdrawn from it.
use archway.Common.{
  ℕ, ◌+◌, ◌≡◌, ◌≢◌, ◌≤◌, refl, ap, sym, ◌∙◌, true, Option, none, some, ok, arith, List, [], ◌∷◌,
  All,
}
use archway.Common.Key.{Text, Bytes, ◌==◌, bytes_key, nat_key, bytes_eq_iff}
use archway.Common.Store.{Store, Keyed, get, remove, total, get-remove, remove-Keyed, total-remove}
use archway.Sdk.{Sdk}
use archway.Rewards.State.{RewardsRecord, State, address_key, contract_reward_collector}
use archway.Rewards.Records.{total_rewards, fast_remove_records}

module _ (sdk : Sdk) where
  open sdk use {
    Coins, amount_of, no_coins, add_coins, is_zero, from_bech32, balance, module_address,
    blocked_addr, module_to_account,
  }

  -- What all records of a store hold of a denomination.
  abbrev pub owed : Store ℕ (RewardsRecord Coins) → Text → ℕ
  owed records d = total (λ k r. amount_of r.rewards d) records

  abbrev pub pool : State sdk → Text → ℕ
  pool s d = balance s.bank (module_address contract_reward_collector) d

  -- Every entry of the index is a record under its own identifier with that address, and no record and
  -- no entry is stored twice.
  pub record IsIndexed (s : State sdk) : Type 0 where
    pub keyed : Keyed s.rewards_records
    pub index_keyed : Keyed s.records_by_address
    pub indexed :
        (a : Bytes) (id : ℕ)
        → get s.records_by_address (a, id) ≡ some tt
        → (r : RewardsRecord Coins) × (get s.rewards_records id ≡ some r)
          × (r.id ≡ id)
          × (from_bech32 r.rewards_address ≡ some a)

  -- The pool holds at least what the records promise.
  abbrev pub IsBacked : State sdk → Type 0
  IsBacked s = (d : Text) → owed s.rewards_records d ≤ pool s d

  -- Records of an address, no two of one identifier, that are in a store with their entries.
  abbrev pub AreDue : Bytes → State sdk → List (RewardsRecord Coins) → Type 0
  AreDue a s [] = Unit
  AreDue a s (r ∷ rs) =
      (get s.rewards_records r.id ≡ some r)
      × (from_bech32 r.rewards_address ≡ some a)
      × (get s.records_by_address (a, r.id) ≡ some tt)
      × All (λ (x : RewardsRecord Coins). x.id ≢ r.id) rs
      × AreDue a s rs

  pub sum_of : List (RewardsRecord Coins) → Text → ℕ
  sum_of [] d = 0
  sum_of (r ∷ rs) d = amount_of r.rewards d + sum_of rs d

  pub amount_of-total_rewards :
      (rs : List (RewardsRecord Coins)) (t : Coins) (d : Text)
      → amount_of (total_rewards sdk rs t) d ≡ amount_of t d + sum_of rs d
  unfolding total_rewards sum_of
  amount_of-total_rewards [] t d = omega arith
  amount_of-total_rewards (r ∷ rs) t d = omega (
    arith,
    amount_of-total_rewards rs (add_coins t r.rewards) d,
    sdk.amount_of-add_coins t r.rewards d,
  )

  abbrev without : State sdk → RewardsRecord Coins → Bytes → State sdk
  without s r a = record s {
    rewards_records = remove s.rewards_records r.id;
    records_by_address = remove s.records_by_address (a, r.id);
  }

  without-IsIndexed :
      (s : State sdk) (r : RewardsRecord Coins) (a : Bytes)
      → IsIndexed s
      → get s.rewards_records r.id ≡ some r
      → from_bech32 r.rewards_address ≡ some a
      → IsIndexed (without s r a)
  without-IsIndexed s r a v found parsed = record {
    keyed = remove-Keyed s.rewards_records r.id v.keyed;
    index_keyed = remove-Keyed s.records_by_address (a, r.id) v.index_keyed;
    indexed = λ b id there.
        let (x, at, own, address) = v.indexed b id (before b id there) in
        (
          x,
          ground (arith, at, get-remove s.rewards_records r.id id, differs b id x there at address),
          own,
          address,
        );
  }
    where
      address_in : Option (RewardsRecord Coins) → Option Bytes
      address_in none = none
      address_in (some x) = from_bech32 x.rewards_address

      differs :
          (b : Bytes) (id : ℕ) (x : RewardsRecord Coins)
          → get (remove s.records_by_address (a, r.id)) (b, id) ≡ some tt
          → get s.rewards_records id ≡ some x
          → from_bech32 x.rewards_address ≡ some b
          → (r.id == id) ≡ true
          → ⊥
      differs b id x there at address same =
          let e : r.id ≡ id = (nat_key.eq_iff r.id id).0 same in
          let f : some r ≡ some x = sym found ∙ ap (get s.rewards_records) e ∙ at in
          let g : some a ≡ some b =
            sym parsed ∙ ap (λ (o : Option (RewardsRecord Coins)). address_in o) f ∙ address in
          ground (arith, get-remove s.records_by_address (a, r.id) (b, id), bytes_eq_iff a b, g)

      before :
          (b : Bytes) (id : ℕ)
          → get (remove s.records_by_address (a, r.id)) (b, id) ≡ some tt
          → get s.records_by_address (b, id) ≡ some tt
      before b id there = ground (arith, get-remove s.records_by_address (a, r.id) (b, id))

  AreDue-without :
      (s : State sdk) (r : RewardsRecord Coins) (a : Bytes) (rs : List (RewardsRecord Coins))
      → All (λ (x : RewardsRecord Coins). x.id ≢ r.id) rs
      → AreDue a s rs
      → AreDue a (without s r a) rs
  AreDue-without s r a [] other due = tt
  AreDue-without s r a (x ∷ rs) (differs, other) (found, parsed, listed, apart, due) = (
    ground (arith, get-remove s.rewards_records r.id x.id, nat_key.eq_iff r.id x.id, differs),
    parsed,
    ground (
      arith,
      get-remove s.records_by_address (a, r.id) (a, x.id),
      nat_key.eq_iff r.id x.id,
      differs,
    ),
    apart,
    AreDue-without s r a rs other due,
  )

  pub fast_remove_records-IsIndexed :
      (a : Bytes) (rs : List (RewardsRecord Coins)) (s : State sdk)
      → IsIndexed s
      → AreDue a s rs
      → (s' : State sdk) × (fast_remove_records sdk s rs ≡ ok s')
        × IsIndexed s'
        × (s'.bank ≡ s.bank)
        × ((d : Text) → owed s'.rewards_records d + sum_of rs d ≡ owed s.rewards_records d)
        × All (λ (r : RewardsRecord Coins). get s'.rewards_records r.id ≡ none) rs
        × ((id : ℕ)
            → All (λ (r : RewardsRecord Coins). r.id ≢ id) rs
            → get s'.rewards_records id ≡ get s.rewards_records id)
  unfolding fast_remove_records sum_of
  fast_remove_records-IsIndexed a [] s v due =
      (s, refl, v, refl, λ d. omega arith, tt, λ id h. refl)
  fast_remove_records-IsIndexed a (r ∷ rs) s v (found, parsed, listed, apart, due) =
      let t : State sdk = without s r a in
      let (s', ran, valid, bank, sums, gone, kept) =
        fast_remove_records-IsIndexed a rs t (without-IsIndexed s r a v found parsed)
          (AreDue-without s r a rs apart due) in
      (
        s',
        rw (parsed) ran,
        valid,
        bank,
        λ d. omega (
          arith,
          sums d,
          total-remove (λ k (x : RewardsRecord Coins). amount_of x.rewards d) s.rewards_records r.id
              r v.keyed found,
        ),
        (
          ground (
            arith,
            kept r.id apart,
            get-remove s.rewards_records r.id r.id,
            nat_key.eq_iff r.id r.id,
          ),
          gone,
        ),
        λ id h.
            ground (
              arith,
              kept id h.1,
              get-remove s.rewards_records r.id id,
              nat_key.eq_iff r.id id,
              h.0,
            ),
      )

  pub AreDue-sum :
      (a : Bytes) (rs : List (RewardsRecord Coins)) (s : State sdk) (d : Text)
      → IsIndexed s
      → AreDue a s rs
      → sum_of rs d ≤ owed s.rewards_records d
  AreDue-sum a rs s d v due =
      let (s', _, _, _, sums, _, _) = fast_remove_records-IsIndexed a rs s v due in
      omega (arith, sums d)
