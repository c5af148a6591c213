-- ===== src/Rewards/Payment.antt =====
-- What a withdrawal of given records pays.
use archway.Common.{
  ◌+◌, ◌≡◌, ◌≢◌, ◌≤◌, refl, ap, false, none, Option-cases, inl, inr, Bool-cases, ok, arith, List,
  [], ◌∷◌, All,
}
use archway.Common.Key.{Text, Bytes, bytes_key, nat_key, bytes_eq_iff}
use archway.Common.Store.{get}
use archway.Sdk.{Sdk}
use archway.Rewards.State.{RewardsRecord, State, address_key, contract_reward_collector}
use archway.Rewards.Records.{total_rewards, send_rewards, withdraw_rewards_by_records}
use archway.Rewards.Pool.{
  IsIndexed, IsBacked, AreDue, owed, pool, sum_of, amount_of-total_rewards,
  fast_remove_records-IsIndexed, AreDue-sum,
}

module _ (sdk : Sdk) where
  open sdk use {
    Coins, amount_of, no_coins, is_zero, from_bech32, balance, module_address, blocked_addr,
    module_to_account,
  }

  -- The transfer of the sum of the records.
  sent :
      (s : State sdk) (a : Bytes) (t : Coins)
      → blocked_addr a ≡ false
      → ((d : Text) → amount_of t d ≤ pool sdk s d)
      → a ≢ module_address contract_reward_collector
      → (s' : State sdk) × (send_rewards sdk s a t ≡ ok s')
        × (s'.rewards_records ≡ s.rewards_records)
        × (s'.records_by_address ≡ s.records_by_address)
        × ((d : Text) → pool sdk s' d + amount_of t d ≡ pool sdk s d)
        × ((d : Text) → balance s'.bank a d ≡ balance s.bank a d + amount_of t d)
  unfolding send_rewards
  sent s a t free enough apart = elim (Bool-cases (is_zero t)) [
    | inl none' ↦ (
      s,
      ground arith,
      refl,
      refl,
      λ d. omega (arith, (sdk.is_zero_iff t).0 none' d),
      λ d. omega (arith, (sdk.is_zero_iff t).0 none' d),
    )
    | inr some' ↦ elim (Option-cases (module_to_account s.bank contract_reward_collector a t)) [
      | inl failed ↦
          absurd
            (sdk.module_to_account_funded s.bank contract_reward_collector a t free enough failed)
      | inr (b, done) ↦ (
        record s { bank = b },
        ground arith,
        refl,
        refl,
        λ d. ground (
          arith,
          sdk.module_to_account_moves s.bank contract_reward_collector a t
              (module_address contract_reward_collector) d done,
          bytes_eq_iff a (module_address contract_reward_collector),
          bytes_eq_iff (module_address contract_reward_collector)
              (module_address contract_reward_collector),
        ),
        λ d. ground (
          arith,
          sdk.module_to_account_moves s.bank contract_reward_collector a t a d done,
          bytes_eq_iff (module_address contract_reward_collector) a,
          bytes_eq_iff a a,
        ),
      )
    ]
  ]

  AreDue-moved :
      (a : Bytes) (rs : List (RewardsRecord Coins)) (s t : State sdk)
      → t.rewards_records ≡ s.rewards_records
      → t.records_by_address ≡ s.records_by_address
      → AreDue sdk a s rs
      → AreDue sdk a t rs
  AreDue-moved a [] s t e f due = tt
  AreDue-moved a (r ∷ rs) s t e f (found, parsed, listed, apart, due) =
      (rw e found, parsed, rw f listed, apart, AreDue-moved a rs s t e f due)

  -- What a withdrawal of records has done: the address has got what they hold, out of the pool sdk.
  abbrev pub IsPaid : Bytes → State sdk → Coins → State sdk → Type 0
  IsPaid a s t s' =
      IsIndexed sdk s'
      × IsBacked sdk s'
      × ((d : Text)
          → (balance s'.bank a d ≡ balance s.bank a d + amount_of t d)
            × (pool sdk s' d + amount_of t d ≡ pool sdk s d)
            × (owed sdk s'.rewards_records d + amount_of t d ≡ owed sdk s.rewards_records d))

  pub withdraw_rewards_by_records-IsPaid :
      (s : State sdk) (a : Bytes) (rs : List (RewardsRecord Coins))
      → IsIndexed sdk s
      → IsBacked sdk s
      → AreDue sdk a s rs
      → blocked_addr a ≡ false
      → a ≢ module_address contract_reward_collector
      → (t : Coins) × (s' : State sdk) × (withdraw_rewards_by_records sdk s a rs ≡ ok (t, s'))
        × IsPaid a s t s'
        × All (λ (r : RewardsRecord Coins). get s'.rewards_records r.id ≡ none) rs
  unfolding withdraw_rewards_by_records
  withdraw_rewards_by_records-IsPaid s a rs v backed due free apart =
      let t = total_rewards sdk rs no_coins in
      let is_sum : (d : Text) → amount_of t d ≡ sum_of sdk rs d =
        λ d. omega (arith, amount_of-total_rewards sdk rs no_coins d, sdk.amount_of-no_coins d) in
      let (u, ran, e, f, pool_paid, paid) =
        sent s a t free (λ d. omega (arith, is_sum d, AreDue-sum sdk a rs s d v due, backed d))
          apart in
      let w : IsIndexed sdk u = record {
        keyed = rw e v.keyed;
        index_keyed = rw f v.index_keyed;
        indexed = rw (e, f) v.indexed;
      } in
      let (s', removed, valid, bank, sums, gone, kept) =
        fast_remove_records-IsIndexed sdk a rs u w (AreDue-moved a rs s u e f due) in
      (
        t,
        s',
        rw (ran, removed) refl,
        (
          valid,
          λ d. omega (
            arith,
            sums d,
            is_sum d,
            pool_paid d,
            backed d,
            ap (λ b. balance b (module_address contract_reward_collector) d) bank,
            ap (λ m. owed sdk m d) e,
          ),
          λ d. (
            omega (arith, paid d, ap (λ b. balance b a d) bank),
            omega (
              arith,
              pool_paid d,
              ap (λ b. balance b (module_address contract_reward_collector) d) bank,
            ),
            omega (arith, sums d, is_sum d, ap (λ m. owed sdk m d) e),
          ),
        ),
        gone,
      )
