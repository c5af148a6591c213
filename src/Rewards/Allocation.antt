-- ===== src/Rewards/Allocation.antt =====
-- The rewards of a block leave the pool for wallets and the treasury, or are owed to records.
use archway.Common.{
  ℕ, suc, ◌+◌, ◌≤◌, ◌≡◌, refl, ap, true, false, some, List, [], ◌∷◌, length, All, ok, arith,
  Bool-cases, Option-cases, inl, inr,
}
use archway.Common.Key.{Text, Bytes, ◌==◌, bytes_key, bytes_eq_iff}
use archway.Common.Int.{ℤ}
use archway.Sdk.{Sdk}
use archway.Rewards.State.{ContractMetadata, State, contract_reward_collector, treasury_collector}
use archway.Rewards.Pool.{IsIndexed, owed, pool}
use archway.Rewards.Creation.{HasRoom, create_rewards_record-IsIndexed}
use archway.Rewards.Distribution.{
  BlockShares, Share, rewards_of, distribute_to, distribute_each, cleanup_rewards_pool,
}

module _ (sdk : Sdk) where
  open sdk use {
    Coins, amount_of, no_coins, add_coins, sub_coins, is_empty, from_bech32, to_bech32,
    module_address, blocked_addr, module_to_account, module_to_module,
  }

  -- The module accounts: the collector takes no transfers from others, and the treasury is another.
  pub record AreApart : Type 0 where
    pub collector_blocked : blocked_addr (module_address contract_reward_collector) ≡ true
    pub treasury_apart :
        (module_address treasury_collector == module_address contract_reward_collector) ≡ false

  -- A share whose contract has metadata with an address that can be paid.
  abbrev pub CanBePaid : Text × Share sdk → Type 0
  CanBePaid e =
      (m : ContractMetadata) × (a : Bytes) × (e.1.metadata ≡ some m)
      × (from_bech32 m.rewards_address ≡ some a)
      × (blocked_addr a ≡ false)

  -- What the shares grant of a denomination.
  unfoldable pub granted : List (Text × Share sdk) → Text → ℕ
  granted [] d = 0
  granted (e ∷ es) d = amount_of (rewards_of sdk e.1) d + granted es d

  -- The pool and what is owed, before and after coins of some amounts are given out.
  abbrev pub GivesOut : State sdk → State sdk → (Text → ℕ) → Type 0
  GivesOut s s' amount =
      (d : Text)
      → (pool sdk s' d + owed sdk s.rewards_records d + amount d
          ≡ pool sdk s d + owed sdk s'.rewards_records d)
        × (owed sdk s.rewards_records d ≤ owed sdk s'.rewards_records d)

  module _ (apart : AreApart) where
    not_collector :
        (a : Bytes)
        → blocked_addr a ≡ false
        → (a == module_address contract_reward_collector) ≡ false
    not_collector a fine = elim (Bool-cases (a == module_address contract_reward_collector)) [
      | inl same ↦
          let e : blocked_addr a ≡ true =
            rw ((bytes_eq_iff a (module_address contract_reward_collector)).0 same)
              apart.collector_blocked in
          absurd (ground (arith, e))
      | inr other ↦ other
    ]

    to_wallet :
        (s : State sdk) (m : ContractMetadata) (a : Bytes) (rewards : Coins) (height : ℤ)
        (time n : ℕ)
        → m.withdraw_to_wallet ≡ true
        → blocked_addr a ≡ false
        → IsIndexed sdk s
        → HasRoom sdk s (suc n)
        → ((d : Text) → amount_of rewards d ≤ pool sdk s d)
        → (s' : State sdk) × (distribute_to sdk s m a rewards height time ≡ ok s')
          × IsIndexed sdk s'
          × HasRoom sdk s' n
          × GivesOut s s' (amount_of rewards)
    unfolding distribute_to
    to_wallet s m a rewards height time n wallet fine v (room, free) funded =
        elim (Option-cases (module_to_account s.bank contract_reward_collector a rewards)) [
          | inl bad ↦ absurd (
              sdk.module_to_account_funded s.bank contract_reward_collector a rewards fine funded
                bad)
          | inr (b, paid) ↦ (
            record s { bank = b },
            rw (wallet, paid) refl,
            record { keyed = v.keyed; index_keyed = v.index_keyed; indexed = v.indexed },
            (omega arith, free),
            λ d. ground (
              arith,
              not_collector a fine,
              bytes_eq_iff (module_address contract_reward_collector)
                  (module_address contract_reward_collector),
              sdk.module_to_account_moves s.bank contract_reward_collector a rewards
                  (module_address contract_reward_collector) d paid,
            ),
          )
        ]

    distribute_to-GivesOut :
        (s : State sdk) (m : ContractMetadata) (a : Bytes) (rewards : Coins) (height : ℤ)
        (time n : ℕ)
        → from_bech32 m.rewards_address ≡ some a
        → blocked_addr a ≡ false
        → IsIndexed sdk s
        → HasRoom sdk s (suc n)
        → ((d : Text) → amount_of rewards d ≤ pool sdk s d)
        → (s' : State sdk) × (distribute_to sdk s m a rewards height time ≡ ok s')
          × IsIndexed sdk s'
          × HasRoom sdk s' n
          × GivesOut s s' (amount_of rewards)
    unfolding distribute_to
    distribute_to-GivesOut s m a rewards height time n parsed fine v room funded =
        elim (Bool-cases m.withdraw_to_wallet) [
          | inl wallet ↦ to_wallet s m a rewards height time n wallet fine v room funded
          | inr record_kept ↦
              let (r, s', made, valid, more, bank, _, _, sums) =
                create_rewards_record-IsIndexed sdk s a rewards height time n
                  (sdk.from_bech32-to_bech32 m.rewards_address parsed) v room in
              (
                s',
                rw (record_kept, made) refl,
                valid,
                more,
                λ d.
                    let same : pool sdk s' d ≡ pool sdk s d =
                      ap (λ b. sdk.balance b (module_address contract_reward_collector) d) bank in
                    (omega (arith, sums d, same), omega (arith, sums d)),
              )
        ]

    pub distribute_each-GivesOut :
        (es : List (Text × Share sdk)) (s : State sdk) (height : ℤ) (time : ℕ) (t : Coins)
        → All CanBePaid es
        → IsIndexed sdk s
        → HasRoom sdk s (length es)
        → ((d : Text) → granted es d ≤ pool sdk s d)
        → (s' : State sdk) × (t' : Coins) × (distribute_each sdk s es height time t ≡ ok (s', t'))
          × IsIndexed sdk s'
          × GivesOut s s' (granted es)
          × ((d : Text) → amount_of t' d ≡ amount_of t d + granted es d)
    unfolding distribute_each granted
    distribute_each-GivesOut [] s height time t can v room funded =
        (s, t, refl, v, λ d. (omega arith, omega arith), λ d. omega arith)
    distribute_each-GivesOut ((key, c) ∷ es) s height time t ((m, a, there, parsed, fine), can) v
          room funded =
        let rewards = rewards_of sdk c in
        let (s', ran, valid, more, out) =
          distribute_to-GivesOut s m a rewards height time (length es) parsed fine v room
            (λ d. omega (arith, funded d)) in
        let (last, t', ran_all, valid_all, out_all, sums) =
          distribute_each-GivesOut es s' height time (add_coins t rewards) can valid more
            (λ d. omega (arith, funded d, (out d).0, (out d).1)) in
        (
          last,
          t',
          rw (there, parsed, ran) ran_all,
          valid_all,
          λ d. (omega (arith, (out d).0, (out_all d).0), omega (arith, (out d).1, (out_all d).1)),
          λ d. omega (arith, sums d, sdk.amount_of-add_coins t rewards d),
        )

    -- What was not distributed goes to the treasury.
    pub cleanup_rewards_pool-moves :
        (s : State sdk) (b : BlockShares Coins)
        → ((d : Text) → amount_of b.rewards_distributed d ≤ amount_of b.rewards_total d)
        → ((d : Text)
            → amount_of b.rewards_total d ≤ pool sdk s d + amount_of b.rewards_distributed d)
        → (bank : sdk.Bank) × (cleanup_rewards_pool sdk s b ≡ ok (record s { bank = bank }))
          × ((d : Text)
              → pool sdk (record s { bank = bank }) d + amount_of b.rewards_total d
                ≡ pool sdk s d + amount_of b.rewards_distributed d)
    unfolding cleanup_rewards_pool
    cleanup_rewards_pool-moves s b within funded =
        elim (Option-cases (sub_coins b.rewards_total b.rewards_distributed)) [
          | inl bad ↦
              let (d, less) = sdk.sub_coins_none b.rewards_total b.rewards_distributed bad in
              absurd (omega (arith, less, within d))
          | inr (left, e) ↦
              let sum : (d : Text)
                  → amount_of left d + amount_of b.rewards_distributed d
                    ≡ amount_of b.rewards_total d =
                λ d. sdk.amount_of-sub_coins b.rewards_total b.rewards_distributed d e in
              elim (Bool-cases (is_empty left)) [
                | inl empty ↦ (
                  s.bank,
                  rw (e, empty) refl,
                  λ d. omega (arith, sum d, (sdk.is_empty_iff left).0 empty d),
                )
                | inr some_left ↦
                    elim (Option-cases
                      (module_to_module s.bank contract_reward_collector treasury_collector left)) [
                        | inl bad ↦ absurd (
                            sdk.module_to_module_funded s.bank contract_reward_collector
                              treasury_collector left (λ d. omega (arith, sum d, funded d)) bad)
                        | inr (bank, paid) ↦ (
                          bank,
                          rw (e, some_left, paid) refl,
                          λ d. ground (
                            arith,
                            sum d,
                            apart.treasury_apart,
                            bytes_eq_iff (module_address contract_reward_collector)
                                (module_address contract_reward_collector),
                            sdk.module_to_module_moves s.bank contract_reward_collector
                                treasury_collector left (module_address contract_reward_collector) d
                                paid,
                          ),
                        )
                      ]
              ]
        ]
