-- ===== src/Rewards/EndOfBlock.antt =====
-- The end of a block: all rewards of the block leave the pool, or are owed to records.
use archway.Common.{
  ℕ, ◌+◌, ◌≤◌, ◌≡◌, refl, ap, sym, ◌∙◌, true, Option, List, [], ◌∷◌, length, select,
  length-select-le, All, ok, arith, Bool-cases, Option-cases, inl, inr,
}
use archway.Common.Key.{Text, Bytes}
use archway.Common.Int.{ℤ, pos, ◌-ℤ◌, leb_ℤ}
use archway.Sdk.{Sdk}
use archway.Tracking.Records as Tracking
use archway.Rewards.State.{State, contract_reward_collector}
use archway.Rewards.Ownership.{ArePayable}
use archway.Rewards.Pool.{IsIndexed, owed, pool}
use archway.Rewards.Creation.{HasRoom}
use archway.Rewards.Distribution.{
  BlockShares, Share, is_rewarded, create_rewards_records, cleanup_tracking,
  delete_block_rewards_cascade, estimate_block_gas_usage, estimate_block_rewards,
  allocate_block_rewards,
}
use archway.Rewards.Estimation.{IsStored, estimate_block_rewards-IsEstimate}
use archway.Rewards.Allocation.{
  AreApart, CanBePaid, granted, distribute_each-GivesOut, cleanup_rewards_pool-moves,
}

module _ (sdk : Sdk) (contract_admin : Bytes → Option Text) where
  open sdk use {Coins, amount_of, no_coins}

  -- What the contracts that get something are granted of a denomination.
  abbrev pub granted_to : BlockShares Coins → Text → ℕ
  granted_to b d = granted sdk (select (is_rewarded sdk) b.contracts) d

  share-CanBePaid :
      (s : State sdk) (e : Text × Share sdk)
      → ArePayable sdk contract_admin s
      → IsStored sdk s e
      → is_rewarded sdk e ≡ true
      → CanBePaid sdk e
  unfolding is_rewarded
  share-CanBePaid s (key, c) payable stored h = elim (Option-cases c.metadata) [
    | inl missing ↦ ground arith
    | inr (m, there) ↦
        let (a, parsed, fine) = payable c.contract_address m (sym stored ∙ there) (ground arith) in
        (m, a, there, parsed, fine)
  ]

  shares-CanBePaid :
      (s : State sdk) (es : List (Text × Share sdk))
      → ArePayable sdk contract_admin s
      → All (IsStored sdk s) es
      → All (CanBePaid sdk) (select (is_rewarded sdk) es)
  shares-CanBePaid s [] payable stored = tt
  shares-CanBePaid s (e ∷ es) payable stored = elim (Bool-cases (is_rewarded sdk e)) [
    | inl paid ↦
        rw paid (share-CanBePaid s e payable stored.0 paid, shares-CanBePaid s es payable stored.1)
    | inr skipped ↦ rw skipped (shares-CanBePaid s es payable stored.1)
  ]

  -- The removal of old data leaves the records and the balances.
  cleanup_tracking-keeps :
      (t : Tracking.State) (s : State sdk) (height : ℤ)
      → IsIndexed sdk s
      → (t' : Tracking.State) × (s' : State sdk) × (cleanup_tracking sdk t s height ≡ (t', s'))
        × IsIndexed sdk s'
        × (s'.rewards_records ≡ s.rewards_records)
        × (s'.bank ≡ s.bank)
  unfolding cleanup_tracking delete_block_rewards_cascade
  cleanup_tracking-keeps t s height v =
      let old = height -ℤ pos 10 in
      elim (Bool-cases (leb_ℤ old (pos 0))) [
        | inl young ↦ (t, s, rw young refl, v, refl, refl)
        | inr pruned ↦ (
          Tracking.delete_tx_infos_cascade t old,
          delete_block_rewards_cascade sdk s old,
          rw pruned refl,
          record { keyed = v.keyed; index_keyed = v.index_keyed; indexed = v.indexed },
          refl,
          refl,
        )
      ]

  -- The end of a block, given the estimate b of its rewards. The state is indexed, has room for the
  -- identifiers of a record for every contract, and its rewards addresses can be paid; the module
  -- accounts are apart; the pool holds what is owed and the block's total rewards; and the granted
  -- shares are within the total. Then the distribution returns without a panic, the index is kept, and
  -- for every denomination the pool gives out exactly the total, less what is newly owed to records.
  pub allocate_block_rewards-GivesOut :
      (t : Tracking.State) (s : State sdk) (height block_height : ℤ) (block_time : ℕ)
      {used b : BlockShares Coins}
      → AreApart sdk
      → estimate_block_gas_usage sdk t s height ≡ ok used
      → estimate_block_rewards sdk s used ≡ ok b
      → IsIndexed sdk s
      → HasRoom sdk s (length b.contracts)
      → ArePayable sdk contract_admin s
      → ((d : Text) → owed sdk s.rewards_records d + amount_of b.rewards_total d ≤ pool sdk s d)
      → ((d : Text) → granted_to b d ≤ amount_of b.rewards_total d)
      → (t' : Tracking.State) × (s' : State sdk) × (allocate_block_rewards sdk t s height
            block_height block_time
          ≡ ok (t', s'))
        × IsIndexed sdk s'
        × ((d : Text)
            → pool sdk s' d + owed sdk s.rewards_records d + amount_of b.rewards_total d
              ≡ pool sdk s d + owed sdk s'.rewards_records d)
  unfolding allocate_block_rewards create_rewards_records
  allocate_block_rewards-GivesOut t s height block_height block_time {used} {b} apart e f v
        (room, free) payable funded within =
      let (stored, nothing) = estimate_block_rewards-IsEstimate sdk s t height e f in
      let paid = select (is_rewarded sdk) b.contracts in
      let (s1, t1, ran, valid, out, sums) =
        distribute_each-GivesOut sdk apart paid s block_height block_time b.rewards_distributed
          (shares-CanBePaid s b.contracts payable stored) v
          (omega (arith, room, length-select-le (is_rewarded sdk) b.contracts), free)
          (λ d. omega (arith, funded d, within d)) in
      let spent : (d : Text) → amount_of t1 d ≡ granted_to b d =
        λ d. omega (arith, sums d, ap (λ c. amount_of c d) nothing, sdk.amount_of-no_coins d) in
      let b1 : BlockShares Coins = record b { rewards_distributed = t1 } in
      let (bank, cleaned, moved) =
        cleanup_rewards_pool-moves sdk apart s1 b1 (λ d. omega (arith, spent d, within d))
          (λ d. omega (arith, spent d, funded d, (out d).0, (out d).1)) in
      let s2 : State sdk = record s1 { bank = bank } in
      let (t3, s3, pruned, kept, records, banks) = cleanup_tracking-keeps t s2 height (record {
        keyed = valid.keyed;
        index_keyed = valid.index_keyed;
        indexed = valid.indexed;
      }) in
      (
        t3,
        s3,
        rw (e, f, ran, cleaned, pruned) refl,
        kept,
        λ d.
            let same : owed sdk s3.rewards_records d ≡ owed sdk s1.rewards_records d =
              ap (λ r. owed sdk r d) records in
            let held : pool sdk s3 d ≡ pool sdk s2 d =
              ap (λ x. sdk.balance x (sdk.module_address contract_reward_collector) d) banks in
            omega (arith, same, held, moved d, spent d, (out d).0),
      )
