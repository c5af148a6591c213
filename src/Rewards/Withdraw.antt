-- ===== src/Rewards/Withdraw.antt =====
-- A withdrawal of the oldest records of an address.
use archway.Common.{
  ℕ, zero, suc, ◌≡◌, ◌≢◌, ◌≤◌, ◌<◌, refl, ap, subst, sym, ◌∙◌, true, false, none, some, ok, arith,
  if◌then◌else◌, List, [], ◌∷◌, select, map, take, All, length, ltb, ◌==◌ as nat_eq,
}
use archway.Common.Key.{Bytes, ◌==◌, bytes_key, nat_key, bytes_eq_iff}
use archway.Common.Store.{Store, Keyed, get, select-Keyed, select-All-keys, select-IsPartOf}
use archway.Sdk.{Sdk}
use archway.Rewards.State.{RewardsRecord, State, address_key, contract_reward_collector}
use archway.Rewards.Records.{
  collect, get_rewards_records_by_withdraw_address_paginated, withdraw_rewards_by_records_limit,
}
use archway.Rewards.Pool.{IsIndexed, IsBacked, AreDue}
use archway.Rewards.Payment.{IsPaid, withdraw_rewards_by_records-IsPaid}

abbrev pub Index : Type 0
Index = Store (Bytes × ℕ) (Unit {0})

get-take : (n : ℕ) (m : Index) (k : Bytes × ℕ) → get m k ≡ none → get (take n m) k ≡ none
unfolding get
get-take zero m k h = refl
get-take (suc n) [] k h = refl
get-take (suc n) ((j, v) ∷ m) k h = ground (arith, get-take n m k)

take-Keyed : (n : ℕ) (m : Index) → Keyed m → Keyed (take n m)
take-Keyed zero m h = tt
take-Keyed (suc n) [] h = tt
take-Keyed (suc n) ((j, v) ∷ m) (absent, h) = (get-take n m j absent, take-Keyed n m h)

take-All : (P : (Bytes × ℕ) × Unit {0} → Type 0) (n : ℕ) (m : Index) → All P m → All P (take n m)
take-All P zero m h = tt
take-All P (suc n) [] h = tt
take-All P (suc n) (x ∷ m) (p, h) = (p, take-All P n m h)

-- How many records a withdrawal asks for: the limit, or what the parameters allow in place of 0.
abbrev pub asked_for : ℕ → ℕ → ℕ
asked_for max_records limit = if nat_eq limit 0 then max_records else limit

-- The identifiers that the index holds for an address, in its order.
abbrev pub ids_of_address : Index → Bytes → List ℕ
ids_of_address index a =
    map (λ (x : (Bytes × ℕ) × Unit {0}). x.0.1)
      (select (λ (x : (Bytes × ℕ) × Unit {0}). x.0.0 == a) index)

take-map :
    (n : ℕ) (m : Index)
    → map (λ (x : (Bytes × ℕ) × Unit {0}). x.0.1) (take n m)
      ≡ take n (map (λ (x : (Bytes × ℕ) × Unit {0}). x.0.1) m)
take-map zero m = refl
take-map (suc n) [] = refl
take-map (suc n) (x ∷ m) = ap (λ l. x.0.1 ∷ l) (take-map n m)

module _ (sdk : Sdk) where
  open sdk use {Coins, from_bech32, module_address, blocked_addr}

  -- The entries of an address in the index.
  abbrev Listed : Bytes → State sdk → (Bytes × ℕ) × Unit {0} → Type 0
  Listed a s (key, u) = (key.0 ≡ a) × (get s.records_by_address key ≡ some tt)

  collect-AreDue :
      (a : Bytes) (s : State sdk) (part : Index)
      → IsIndexed sdk s
      → Keyed part
      → All (Listed a s) part
      → (rs : List (RewardsRecord Coins)) × (collect sdk s.rewards_records part ≡ ok rs)
        × AreDue sdk a s rs
        × (map (λ (r : RewardsRecord Coins). r.id) rs
            ≡ map (λ (x : (Bytes × ℕ) × Unit {0}). x.0.1) part)
        × ((id : ℕ) → get part (a, id) ≡ none → All (λ (x : RewardsRecord Coins). x.id ≢ id) rs)
  unfolding collect get
  collect-AreDue a s [] v keyed listed = ([], refl, tt, refl, λ id h. tt)
  collect-AreDue a s (((b, id), u) ∷ part) v (absent, keyed) ((same, there), listed) =
      let (r, found, own, parsed) = v.indexed b id there in
      let (rs, rest, due, len, other) = collect-AreDue a s part v keyed listed in
      (
        r ∷ rs,
        rw (found, rest) refl,
        (
          ap (get s.rewards_records) own ∙ found,
          parsed ∙ ap some same,
          ap (λ i. get s.records_by_address (a, i)) own ∙ rw (← same) there,
          subst (λ i. All (λ (x : RewardsRecord Coins). x.id ≢ i) rs) (sym own)
              (other id (rw (← same) absent)),
          due,
        ),
        ground (arith, own, len),
        λ i h. (
          λ e. ground (arith, h, own, e, same, bytes_eq_iff a b, nat_key.eq_iff i id),
          other i (ground (arith, h)),
        ),
      )

  -- The first records that the index holds for an address, as many as are asked for: they are found
  -- under their identifiers and are the address's, no two are the same, and none of them is left.
  abbrev pub AreWithdrawn : State sdk → Bytes → ℕ → List (RewardsRecord Coins) → State sdk → Type 0
  AreWithdrawn s a limit rs s' =
      (map (λ (r : RewardsRecord Coins). r.id) rs
        ≡ take (asked_for s.params.max_withdraw_records limit)
            (ids_of_address s.records_by_address a))
      × AreDue sdk a s rs
      × All (λ (r : RewardsRecord Coins). get s'.rewards_records r.id ≡ none) rs

  -- A withdrawal of at most as many records as the parameters allow, which is not 0, always goes
  -- through, when every index entry has its record, the pool backs the records, and the address is
  -- neither blocked nor the pool. The records that are withdrawn are the first of the address in
  -- the index, as many as the limit says, or as the parameters allow where it is 0, or all when
  -- there are fewer. Their number is returned and they are removed; the address gets what they
  -- hold, out of the pool, and the pool backs those left.
  pub withdraw_rewards_by_records_limit-IsPaid :
      (s : State sdk) (a : Bytes) (limit : ℕ)
      → IsIndexed sdk s
      → IsBacked sdk s
      → blocked_addr a ≡ false
      → a ≢ module_address contract_reward_collector
      → 0 < s.params.max_withdraw_records
      → limit ≤ s.params.max_withdraw_records
      → (rs : List (RewardsRecord Coins)) × (t : Coins) × (s' : State sdk)
        × (withdraw_rewards_by_records_limit sdk s a limit ≡ ok (t, (length rs, s')))
        × IsPaid sdk a s t s'
        × AreWithdrawn s a limit rs s'
  unfolding withdraw_rewards_by_records_limit get_rewards_records_by_withdraw_address_paginated
  withdraw_rewards_by_records_limit-IsPaid s a limit v backed free apart some_limit fits =
      let asked : ℕ = if nat_eq limit 0 then s.params.max_withdraw_records else limit in
      let p = λ (k : Bytes × ℕ). k.0 == a in
      let of_address = select (λ (x : (Bytes × ℕ) × Unit {0}). p x.0) s.records_by_address in
      let page : ℕ = if nat_eq asked 0 then 100 else asked in
      let (rs, found, due, ids, _) =
        collect-AreDue a s (take page of_address) v
          (take-Keyed page of_address (select-Keyed p s.records_by_address v.index_keyed))
          (take-All (Listed a s) page of_address (
            listed of_address (select-All-keys p s.records_by_address)
              (select-IsPartOf p s.records_by_address v.index_keyed))) in
      let (t, s', ran, paid, gone) =
        withdraw_rewards_by_records-IsPaid sdk s a rs v backed due free apart in
      let below : ltb s.params.max_withdraw_records asked ≡ false = ground arith in
      let size : page ≡ asked_for s.params.max_withdraw_records limit = ground arith in
      let first : map (λ (r : RewardsRecord Coins). r.id) rs
          ≡ take (asked_for s.params.max_withdraw_records limit)
              (ids_of_address s.records_by_address a) =
        subst
          (λ n.
            map (λ (r : RewardsRecord Coins). r.id) rs
            ≡ take n (ids_of_address s.records_by_address a))
          size (ids ∙ take-map page of_address) in
      (rs, t, s', rw (below, found, ran) refl, paid, (first, due, gone))
    where
      listed :
          (part : Index)
          → All (λ (x : (Bytes × ℕ) × Unit {0}). (x.0.0 == a) ≡ true) part
          → All (λ (x : (Bytes × ℕ) × Unit {0}). get s.records_by_address x.0 ≡ some x.1) part
          → All (Listed a s) part
      listed [] q r = tt
      listed (x ∷ part) q r = (((bytes_eq_iff x.0.0 a).0 q.0, r.0), listed part q.1 r.1)
