-- ===== src/Rewards/Creation.antt =====
-- A new rewards record: its identifier is fresh, and the index and what is owed grow by it.
use archway.Common.{
  ℕ, suc, ◌+◌, ◌%◌, ◌^◌, ◌<◌, ◌≡◌, refl, ap, false, none, some, ok, arith, Bool-cases, inl, inr,
}
use archway.Common.Key.{Text, Bytes, ◌==◌, bytes_key, nat_key, bytes_eq_iff}
use archway.Common.Store.{get, set, get-set, set-Keyed, total-set_new}
use archway.Common.Int.{ℤ}
use archway.Sdk.{Sdk}
use archway.Rewards.State.{RewardsRecord, State, address_key}
use archway.Rewards.Records.{create_rewards_record}
use archway.Rewards.Pool.{IsIndexed, owed}

module _ (sdk : Sdk) where
  open sdk use {Coins, amount_of, from_bech32, to_bech32}

  -- No identifier above the last one is in use, and so many more do not wrap around.
  abbrev pub HasRoom : State sdk → ℕ → Type 0
  HasRoom s n =
      (s.rewards_record_id + n < 2 ^ 64)
      × ((id : ℕ) → s.rewards_record_id < id → get s.rewards_records id ≡ none)

  abbrev new_record : State sdk → Bytes → Coins → ℤ → ℕ → RewardsRecord Coins
  new_record s addr rewards height time = record {
    id = s.rewards_record_id + 1;
    rewards_address = to_bech32 addr;
    rewards = rewards;
    calculated_height = height;
    calculated_time = time;
  }

  abbrev with_record : State sdk → Bytes → Coins → ℤ → ℕ → State sdk
  with_record s addr rewards height time = record s {
    rewards_record_id = s.rewards_record_id + 1;
    rewards_records =
        set s.rewards_records (s.rewards_record_id + 1) (new_record s addr rewards height time);
    records_by_address = set s.records_by_address (addr, s.rewards_record_id + 1) tt;
  }

  with_record-IsIndexed :
      (s : State sdk) (addr : Bytes) (rewards : Coins) (height : ℤ) (time : ℕ) (n : ℕ)
      → from_bech32 (to_bech32 addr) ≡ some addr
      → IsIndexed sdk s
      → HasRoom s (suc n)
      → IsIndexed sdk (with_record s addr rewards height time)
  with_record-IsIndexed s addr rewards height time n parsed v (room, free) = record {
    keyed =
        set-Keyed s.rewards_records (s.rewards_record_id + 1)
          (new_record s addr rewards height time) v.keyed;
    index_keyed = set-Keyed s.records_by_address (addr, (s.rewards_record_id + 1)) tt v.index_keyed;
    indexed = λ b id there. elim (Bool-cases ((s.rewards_record_id + 1) == id)) [
      | inl same ↦ (
        new_record s addr rewards height time,
        ground (
          arith,
          get-set s.rewards_records (s.rewards_record_id + 1)
              (new_record s addr rewards height time) id,
        ),
        ground (arith, nat_key.eq_iff (s.rewards_record_id + 1) id),
        rw (parsed) (
            ap (λ (x : Bytes). some x)
              (owner b id there ((nat_key.eq_iff (s.rewards_record_id + 1) id).0 same))),
      )
      | inr other ↦
          let (x, at, own, address) = v.indexed b id (before b id there other) in
          (
            x,
            ground (
              arith,
              at,
              other,
              get-set s.rewards_records (s.rewards_record_id + 1)
                  (new_record s addr rewards height time) id,
            ),
            own,
            address,
          )
    ];
  }
    where
      before :
          (b : Bytes) (id : ℕ)
          → get (set s.records_by_address (addr, (s.rewards_record_id + 1)) tt) (b, id) ≡ some tt
          → ((s.rewards_record_id + 1) == id) ≡ false
          → get s.records_by_address (b, id) ≡ some tt
      before b id there other =
          ground (arith, get-set s.records_by_address (addr, (s.rewards_record_id + 1)) tt (b, id))

      owner :
          (b : Bytes) (id : ℕ)
          → get (set s.records_by_address (addr, (s.rewards_record_id + 1)) tt) (b, id) ≡ some tt
          → (s.rewards_record_id + 1) ≡ id
          → addr ≡ b
      owner b id there same = elim (Bool-cases (addr == b)) [
        | inl equal ↦ (bytes_eq_iff addr b).0 equal
        | inr differs ↦
            let (x, at, _, _) = v.indexed b id (
              ground (
                arith,
                get-set s.records_by_address (addr, (s.rewards_record_id + 1)) tt (b, id),
              )) in
            absurd (ground (arith, at, free id (omega arith)))
      ]

  -- With room for its identifier a record is made for an address that parses.
  pub create_rewards_record-IsIndexed :
      (s : State sdk) (addr : Bytes) (rewards : Coins) (height : ℤ) (time : ℕ) (n : ℕ)
      → from_bech32 (to_bech32 addr) ≡ some addr
      → IsIndexed sdk s
      → HasRoom s (suc n)
      → (r : RewardsRecord Coins) × (s' : State sdk) × (create_rewards_record sdk s addr rewards
            height time
          ≡ ok (r, s'))
        × IsIndexed sdk s'
        × HasRoom s' n
        × (s'.bank ≡ s.bank)
        × (s'.flat_fees ≡ s.flat_fees)
        × (s'.params ≡ s.params)
        × ((d : Text)
            → owed sdk s'.rewards_records d ≡ owed sdk s.rewards_records d + amount_of rewards d)
  unfolding create_rewards_record
  create_rewards_record-IsIndexed s addr rewards height time n parsed v (room, free) =
      let small : (s.rewards_record_id + 1) % 2 ^ 64 ≡ s.rewards_record_id + 1 = omega arith in
      let r = new_record s addr rewards height time in
      (
        r,
        with_record s addr rewards height time,
        rw (small, parsed) refl,
        with_record-IsIndexed s addr rewards height time n parsed v (room, free),
        (omega arith, λ id above. ground (arith, free id, get-set s.rewards_records r.id r id)),
        refl,
        refl,
        refl,
        λ d. omega (
          arith,
          total-set_new (λ k (x : RewardsRecord Coins). amount_of x.rewards d) s.rewards_records
              r.id r (free r.id (omega arith)),
        ),
      )
