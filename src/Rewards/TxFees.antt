-- ===== src/Rewards/TxFees.antt =====
-- Fees that back records, and fees of x/authz executions that do not.
use archway.Common.{
  ℕ, ◌+◌, ◌≡◌, ◌⊎◌, sym, ap, ◌∙◌, Bool, true, false, not, ◌||◌, Option, some, ok, arith,
  Result-cases, Bool-cases, inl, inr,
}
use archway.Common.Key.{Text, Bytes, bytes_key, nat_key}
use archway.Common.Store.{get}
use archway.Common.Int.{ℤ, pos, eqb_ℤ}
use archway.Sdk.{Sdk, Coin}
use archway.Pkg.Split.{split_coins}
use archway.Rewards.State.{Error, State}
use archway.Rewards.Pool.{IsIndexed, owed, pool}
use archway.Rewards.MinFee.{track_fee_rebates_rewards}
use archway.Rewards.Ante.{
  Msgs, FeeTx, flat_fees_of, gas_fee, expect_all, check_min_fee, deduct_fees, pay_flat_fees,
  pay_auth_fees, pay_rewards_fees,
}
use archway.Rewards.Deduction.{
  IsAside, Pays, nothing, collect_from-aside, pay_flat_fees-pool, pay_auth_fees-pool,
  pay_rewards_fees-pool,
}

module _ (sdk : Sdk) (contract_admin : Bytes → Option Text) where
  open sdk use {
    Coins, Dec18, atto, amount_of, no_coins, of_coin, add_coins, is_zero, is_all_gte, Bank,
  }

  -- Rewards are enabled, and a message is of x/wasm.
  abbrev pub is_shared : State sdk → Bool → Bool
  is_shared s has_wasm = not (eqb_ℤ (atto s.params.tx_fee_rebate_ratio) (pos 0) || not has_wasm)

  module _ (is_valid : Coins → Bool) (acc : Bytes) (aside : IsAside sdk contract_admin acc) where
    pub deduct_fees-unshared :
        (s : State sdk) (msgs : Msgs) (fees flat : Coins) (b : Bool) (tx_id : ℕ) (height : ℤ)
        {s' : State sdk}
        → flat_fees_of sdk contract_admin s msgs no_coins false ≡ ok (flat, b)
        → is_shared s b ≡ false
        → deduct_fees sdk contract_admin is_valid s acc msgs fees tx_id height ≡ ok s'
        → Pays sdk contract_admin s s' (nothing sdk contract_admin)
    unfolding deduct_fees
    deduct_fees-unshared s msgs fees flat b tx_id height found off h =
        elim (Bool-cases (is_valid fees)) [
          | inl valid ↦
              collect_from-aside sdk contract_admin acc aside s fees
                (ground (arith, h, valid, found, off))
          | inr bad ↦ ground (arith, h, bad)
        ]

    pub deduct_fees-shared :
        (s : State sdk) (msgs : Msgs) (fees flat : Coins) (b : Bool) (tx_id : ℕ) (height : ℤ)
        {s' : State sdk}
        → flat_fees_of sdk contract_admin s msgs no_coins false ≡ ok (flat, b)
        → is_shared s b ≡ true
        → deduct_fees sdk contract_admin is_valid s acc msgs fees tx_id height ≡ ok s'
        → (bank : Bank) × (rewards : Coins) × (s'
            ≡ track_fee_rebates_rewards sdk (record s { bank = bank }) tx_id height rewards)
          × ((d : Text)
              → pool sdk (record s { bank = bank }) d
                ≡ pool sdk s d + amount_of flat d + amount_of rewards d)
    unfolding deduct_fees
    deduct_fees-shared s msgs fees flat b tx_id height {s'} found on h =
        elim (Bool-cases (is_valid fees)) [
          | inl valid ↦ elim (Result-cases (pay_flat_fees sdk contract_admin s acc flat fees)) [
            | inl ((s1, rest), e1) ↦
                elim (Result-cases
                  (split_coins sdk {E = Error} rest s.params.tx_fee_rebate_ratio)) [
                    | inl ((rewards, auth), e2) ↦
                        elim (Result-cases (pay_auth_fees sdk contract_admin s1 acc auth)) [
                          | inl (s2, e3) ↦
                              elim (Result-cases
                                (pay_rewards_fees sdk contract_admin s2 acc rewards)) [
                                  | inl (s3, e4) ↦
                                      let (b1, c1, g1) =
                                        pay_flat_fees-pool sdk contract_admin acc aside s flat fees
                                          e1 in
                                      let (b2, c2, g2) =
                                        pay_auth_fees-pool sdk contract_admin acc aside s1 auth
                                          e3 in
                                      let (b3, c3, g3) =
                                        pay_rewards_fees-pool sdk contract_admin acc aside s2
                                          rewards e4 in
                                      let total : s3 ≡ record s { bank = b3 } =
                                        c3
                                        ∙ ap (λ (x : State sdk). record x { bank = b3 })
                                            (c2
                                              ∙ ap (λ (x : State sdk). record x { bank = b2 })
                                                  c1) in
                                      let last : track_fee_rebates_rewards sdk s3 tx_id height
                                            rewards
                                          ≡ s' =
                                        ground (arith, h, valid, found, on, e1, e2, e3, e4) in
                                      (
                                        b3,
                                        rewards,
                                        sym last
                                            ∙ ap
                                                (λ (x : State sdk).
                                                  track_fee_rebates_rewards sdk x tx_id height
                                                    rewards)
                                                total,
                                        λ d. omega (
                                          arith,
                                          g1 d,
                                          g2 d,
                                          g3 d,
                                          ap (λ (x : State sdk). pool sdk x d) total,
                                        ),
                                      )
                                  | inr bad ↦ ground (arith, h, valid, found, on, e1, e2, e3, bad)
                                ]
                          | inr bad ↦ ground (arith, h, valid, found, on, e1, e2, bad)
                        ]
                    | inr bad ↦ ground (arith, h, valid, found, on, e1, bad)
                  ]
            | inr bad ↦ ground (arith, h, valid, found, on, bad)
          ]
          | inr bad ↦ ground (arith, h, bad)
        ]

  -- The first pass over the messages of a transaction that meets its minimum fee.
  pub check_min_fee-expects :
      (s : State sdk) (tx : FeeTx Coins) (simulate : Bool) (height : ℤ) (time : ℕ) {s' : State sdk}
      → check_min_fee sdk contract_admin s tx simulate height time ≡ ok s'
      → (base : Coin) × (expected : Coins) × (gas_fee sdk contract_admin s tx.gas ≡ ok base)
        × (expect_all sdk contract_admin s tx.msgs (add_coins no_coins (of_coin base)) height time
            ≡ ok (s', expected))
        × ((simulate || is_zero expected || is_all_gte tx.fee expected) ≡ true)
  unfolding check_min_fee
  check_min_fee-expects s tx simulate height time {s'} h =
      elim (Result-cases (gas_fee sdk contract_admin s tx.gas)) [
        | inl (base, e) ↦
            elim (Result-cases (
              expect_all sdk contract_admin s tx.msgs (add_coins no_coins (of_coin base)) height
                time)) [
                  | inl ((s1, expected), f) ↦
                      elim (Bool-cases
                        (simulate || is_zero expected || is_all_gte tx.fee expected)) [
                          | inl met ↦
                              let same : s1 ≡ s' = ground (arith, h, e, f, met) in
                              (
                                base,
                                expected,
                                e,
                                f ∙ ap (λ (x : State sdk). ok (x, expected)) same,
                                met,
                              )
                          | inr short ↦ ground (arith, h, e, f, short)
                        ]
                  | inr bad ↦ ground (arith, h, e, bad)
                ]
        | inr bad ↦ ground (arith, h, bad)
      ]

  -- What the two decorators do, given the flat fees that the second finds.
  pub record Charges (s s1 s2 : State sdk) (msgs : Msgs) (tx_id : ℕ) (height : ℤ) : Type 0 where
    pub flat : Coins
    pub has_wasm : Bool
    pub found : flat_fees_of sdk contract_admin s1 msgs no_coins false ≡ ok (flat, has_wasm)
    pub indexed : IsIndexed sdk s2
    pub recorded :
        (d : Text) → owed sdk s2.rewards_records d ≡ owed sdk s.rewards_records d + amount_of flat d
    pub pooled :
        ((is_shared s has_wasm ≡ true)
          × (rewards : Coins) × (get s2.tx_rewards tx_id
              ≡ some (record { tx_id = tx_id; height = height; fee_rewards = rewards }))
          × ((d : Text) → pool sdk s2 d ≡ pool sdk s d + amount_of flat d + amount_of rewards d))
        ⊎ ((is_shared s has_wasm ≡ false) × ((d : Text) → pool sdk s2 d ≡ pool sdk s d))
