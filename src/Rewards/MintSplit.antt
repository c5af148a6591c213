-- ===== src/Rewards/MintSplit.antt =====
-- Minted coins: what is tracked as the inflation rewards of the block is what the pool receives.
use archway.Common.{
  ℕ, ◌+◌, ◌<◌, ◌≤◌, ◌≡◌, refl, sym, ap, ◌∙◌, true, false, Option, some, [], ◌∷◌, ok, arith,
  Bool-cases, Option-cases, inl, inr, if◌then◌else◌, ◌==◌ as nat_eq,
}
use archway.Common.Key.{Text, Bytes, ◌==◌, bytes_key, nat_key, bytes_eq_iff}
use archway.Common.Store.{get, get-set_self}
use archway.Common.Int.{ℤ, pos, uint64, eqb_ℤ}
use archway.Sdk.{Sdk, Coin, DecCoin, coin_amount, sum_amounts, precision}
use archway.Pkg.Split.{split_coins, split_coins-amount_of}
use archway.Rewards.State.{Error, State, contract_reward_collector}
use archway.Rewards.Pool.{pool}
use archway.Rewards.MinFee.{no_limit, track_inflation_rewards, update_min_consensus_fee}
use archway.Rewards.ConsensusFee.{update_min_consensus_fee-IsNearest}
use archway.Rewards.Mint.{
  fee_collector, transfer, transfer_some, track_one, send_coins_from_module_to_module,
}

module _ (sdk : Sdk) where
  open sdk use {
    Coins, Dec18, atto, amount_of, to_list, is_empty, Bank, balance, module_address,
    module_to_module,
  }

  -- The accounts of the sender, of the fee collector and of the rewards are three.
  pub record AreThree (sender : Text) : Type 0 where
    pub sender_apart : (module_address sender == module_address fee_collector) ≡ false
    pub sender_aside : (module_address sender == module_address contract_reward_collector) ≡ false
    pub collectors_apart :
        (module_address fee_collector == module_address contract_reward_collector) ≡ false

  transfer_some-moves :
      (s : State sdk) (sender recipient : Text) (amt : Coins)
      → ((d : Text) → amount_of amt d ≤ balance s.bank (module_address sender) d)
      → (b : Bank) × (transfer_some sdk s sender recipient amt ≡ ok (record s { bank = b }))
        × ((x : Bytes) (d : Text)
            → balance b x d + (if module_address sender == x then amount_of amt d else 0)
              ≡ balance s.bank x d + (if module_address recipient == x then amount_of amt d else 0))
  unfolding transfer_some transfer
  transfer_some-moves s sender recipient amt funded = elim (Bool-cases (is_empty amt)) [
    | inl empty ↦ (s.bank, rw empty refl, λ x d. ground (arith, (sdk.is_empty_iff amt).0 empty d))
    | inr coins ↦ elim (Option-cases (module_to_module s.bank sender recipient amt)) [
      | inl bad ↦ absurd (sdk.module_to_module_funded s.bank sender recipient amt funded bad)
      | inr (b, paid) ↦ (
        b,
        rw (coins, paid) refl,
        λ x d. sdk.module_to_module_moves s.bank sender recipient amt x d paid,
      )
    ]
  ]

  -- With a rebate ratio below one and a gas limit that is not zero, an update changes the fee at most.
  update_min_consensus_fee-keeps :
      (s : State sdk) (c : Coin) (limit r : ℕ)
      → atto s.params.tx_fee_rebate_ratio ≡ pos r
      → r < precision
      → 0 < limit
      → limit ≤ no_limit
      → (fee : Option (DecCoin Dec18)) × (update_min_consensus_fee sdk s c limit
          ≡ ok (record s { min_cons_fee = fee }))
  unfolding update_min_consensus_fee
  update_min_consensus_fee-keeps s c limit r is_ratio below some_gas limited =
      elim (Bool-cases (nat_eq c.amount 0)) [
        | inl nothing ↦ (s.min_cons_fee, rw nothing refl)
        | inr coins ↦ elim (Bool-cases (nat_eq limit no_limit)) [
          | inl unlimited ↦ (s.min_cons_fee, rw (coins, unlimited) refl)
          | inr finite ↦
              let (fee, f, value, near, e) =
                update_min_consensus_fee-IsNearest sdk s c limit is_ratio below (ground arith)
                  some_gas (ground arith) in
              elim (Bool-cases (nat_eq f 0)) [
                | inl zero_fee ↦ (s.min_cons_fee, ground (arith, e))
                | inr some_fee ↦
                    (some (record { denom = c.denom; amount = fee }), ground (arith, e))
              ]
        ]
      ]

  track_one-tracks :
      (s : State sdk) (c : Coin) (height : ℤ) (limit r : ℕ)
      → atto s.params.tx_fee_rebate_ratio ≡ pos r
      → r < precision
      → 0 < limit
      → limit ≤ no_limit
      → (s' : State sdk) × (track_one sdk s (c ∷ []) height limit ≡ ok s')
        × (s'.bank ≡ s.bank)
        × (get s'.block_rewards (uint64 height)
            ≡ some (record {
              height = height;
              inflation_rewards = c;
              max_gas = if nat_eq limit no_limit then 0 else limit;
            }))
  unfolding track_one track_inflation_rewards
  track_one-tracks s c height limit r is_ratio below some_gas limited =
      let t = track_inflation_rewards sdk s height limit c in
      let (fee, e) = update_min_consensus_fee-keeps t c limit r is_ratio below some_gas limited in
      (
        record t { min_cons_fee = fee },
        e,
        refl,
        get-set_self s.block_rewards (uint64 height) (record {
          height = height;
          inflation_rewards = c;
          max_gas = if nat_eq limit no_limit then 0 else limit;
        }),
      )

  -- What two transfers of one sender to two others do to the three accounts.
  abbrev pub Divides : State sdk → State sdk → Text → Coins → Coins → Type 0
  Divides s s' sender dapp staking =
      (d : Text)
      → (pool sdk s' d ≡ pool sdk s d + amount_of dapp d)
        × (balance s'.bank (module_address fee_collector) d
            ≡ balance s.bank (module_address fee_collector) d + amount_of staking d)
        × (balance s'.bank (module_address sender) d + amount_of dapp d + amount_of staking d
            ≡ balance s.bank (module_address sender) d)

  -- A transfer from one account to another.
  abbrev Moves : Bank → Bank → Bytes → Bytes → Coins → Type 0
  Moves b b' from to cs =
      (x : Bytes) (d : Text)
      → balance b' x d + (if from == x then amount_of cs d else 0)
        ≡ balance b x d + (if to == x then amount_of cs d else 0)

  two_transfers :
      (b b1 b2 : Bank) (x y z : Bytes) (cs ds : Coins) (d : Text)
      → (x == y) ≡ false
      → (x == z) ≡ false
      → (y == z) ≡ false
      → Moves b b1 x y cs
      → Moves b1 b2 x z ds
      → (balance b2 z d ≡ balance b z d + amount_of ds d)
        × (balance b2 y d ≡ balance b y d + amount_of cs d)
        × (balance b2 x d + amount_of ds d + amount_of cs d ≡ balance b x d)
  two_transfers b b1 b2 x y z cs ds d xy xz yz first second = (
    ground (arith, xz, yz, same z, first z d, second z d),
    ground (arith, xy, yz, same y, bytes_eq_iff z y, bytes_eq_iff y z, first y d, second y d),
    ground (
      arith,
      xy,
      xz,
      same x,
      bytes_eq_iff y x,
      bytes_eq_iff x y,
      bytes_eq_iff z x,
      bytes_eq_iff x z,
      first x d,
      second x d,
    ),
  )
    where
      same : (a : Bytes) → (a == a) ≡ true
      same a = (bytes_eq_iff a a).1 refl

  split_sums :
      (amt dapp staking : Coins) (ratio : Dec18) {q : ℕ}
      → atto ratio ≡ pos q
      → q ≤ precision
      → split_coins sdk {E = Error} amt ratio ≡ ok (dapp, staking)
      → (d : Text) → amount_of dapp d + amount_of staking d ≡ amount_of amt d
  split_sums amt dapp staking ratio is_ratio at_most_one e d =
      let (stacks, f, sums, _) =
        split_coins-amount_of sdk {E = Error} ratio is_ratio at_most_one amt in
      let same : stacks ≡ (dapp, staking) = ground (arith, e, f) in
      sym (ap (λ (x : Coins × Coins). amount_of x.0 d + amount_of x.1 d) same) ∙ sums d

  not_zero :
      {ratio : Dec18} (q : ℕ) → 0 < q → atto ratio ≡ pos q → eqb_ℤ (atto ratio) (pos 0) ≡ false
  not_zero q h e = rw e (ground arith)

  -- Coins that the mint module sends to the fee collector, under an inflation ratio q above zero and at
  -- most one, are split; where the contracts' part is one coin c, the sender has the coins, the three
  -- accounts differ, the rebate ratio r is below one and the block's gas limit is not zero, the call
  -- returns without an error or a panic. The rewards pool gets the contracts' part, the fee collector the
  -- rest, the sender loses both, and c, which is all that the pool got, is stored as the rewards of the
  -- block with its gas limit.
  pub send_coins_from_module_to_module-tracks :
      (s : State sdk) (height : ℤ) (limit : ℕ) (sender : Text) (amt dapp staking : Coins) (c : Coin)
      {q r : ℕ}
      → AreThree sender
      → atto s.params.inflation_rewards_ratio ≡ pos q
      → 0 < q
      → q ≤ precision
      → atto s.params.tx_fee_rebate_ratio ≡ pos r
      → r < precision
      → 0 < limit
      → limit ≤ no_limit
      → split_coins sdk {E = Error} amt s.params.inflation_rewards_ratio ≡ ok (dapp, staking)
      → to_list dapp ≡ c ∷ []
      → ((d : Text) → amount_of amt d ≤ balance s.bank (module_address sender) d)
      → (s' : State sdk) × (send_coins_from_module_to_module sdk s height limit sender fee_collector
            amt
          ≡ ok s')
        × Divides s s' sender dapp staking
        × ((d : Text) → pool sdk s' d ≡ pool sdk s d + coin_amount c d)
        × (get s'.block_rewards (uint64 height)
            ≡ some (record {
              height = height;
              inflation_rewards = c;
              max_gas = if nat_eq limit no_limit then 0 else limit;
            }))
  unfolding send_coins_from_module_to_module
  send_coins_from_module_to_module-tracks s height limit sender amt dapp staking c {q} {r} three
        is_ratio some_ratio at_most_one is_rebate below some_gas limited split one funded =
      let sum =
        split_sums amt dapp staking s.params.inflation_rewards_ratio is_ratio at_most_one split in
      let (b1, sent1, moved1) =
        transfer_some-moves s sender fee_collector staking (λ d. omega (arith, sum d, funded d)) in
      let s1 : State sdk = record s { bank = b1 } in
      let left : (d : Text)
          → balance b1 (module_address sender) d + amount_of staking d
            ≡ balance s.bank (module_address sender) d =
        λ d. ground (
          arith,
          moved1 (module_address sender) d,
          three.sender_apart,
          bytes_eq_iff (module_address sender) (module_address sender),
          bytes_eq_iff (module_address fee_collector) (module_address sender),
        ) in
      let (b2, sent2, moved2) =
        transfer_some-moves s1 sender contract_reward_collector dapp
          (λ d. omega (arith, sum d, funded d, left d)) in
      let (s', tracked, banks, stored) =
        track_one-tracks (record s { bank = b2 }) c height limit r is_rebate below some_gas
          limited in
      let same : (x : Bytes) (d : Text) → balance s'.bank x d ≡ balance b2 x d =
        λ x d. ap (λ b. balance b x d) banks in
      let divided : Divides s s' sender dapp staking = λ d.
        let (pooled, collected, lost) =
          two_transfers s.bank b1 b2 (module_address sender) (module_address fee_collector)
            (module_address contract_reward_collector) staking dapp d three.sender_apart
            three.sender_aside three.collectors_apart moved1 moved2 in
        (
          same (module_address contract_reward_collector) d ∙ pooled,
          same (module_address fee_collector) d ∙ collected,
          omega (arith, same (module_address sender) d, lost),
        ) in
      (
        s',
        rw
            (
              (bytes_eq_iff fee_collector fee_collector).1 refl,
              not_zero q some_ratio is_ratio,
              split,
              sent1,
              sent2,
              one,
            )
            tracked,
        divided,
        λ d.
            omega
              (arith, (divided d).0, sdk.amount_of-to_list dapp d, ap (λ cs. sum_amounts cs d) one),
        stored,
      )
