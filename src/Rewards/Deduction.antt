-- ===== src/Rewards/Deduction.antt =====
-- The fees of a transaction, across the check of the minimum and the deduction: what is recorded for
-- contracts, and what the pool receives.
use archway.Common.{
  ℕ, ◌+◌, ◌≡◌, refl, sym, ap, subst, false, Option, ok, arith, Option-cases, Result-cases,
  Bool-cases, inl, inr,
}
use archway.Common.Key.{Text, Bytes, ◌==◌, bytes_key, nat_key, bytes_eq_iff}
use archway.Sdk.{Sdk}
use archway.Rewards.State.{State, contract_reward_collector}
use archway.Rewards.Pool.{pool}
use archway.Rewards.Mint.{fee_collector}
use archway.Rewards.Ante.{pay_flat_fees, pay_auth_fees, pay_rewards_fees, collect_from}

module _ (sdk : Sdk) (contract_admin : Bytes → Option Text) where
  open sdk use {
    Coins, Dec18, atto, amount_of, no_coins, is_empty, sub_coins, Bank, balance, module_address,
    account_to_module, burn_coins,
  }

  -- The payer and the fee collector are not the account of the rewards.
  pub record IsAside (acc : Bytes) : Type 0 where
    pub payer : (acc == module_address contract_reward_collector) ≡ false
    pub collector :
        (module_address fee_collector == module_address contract_reward_collector) ≡ false

  -- A state after a payment: only the balances differ, and the pool grew by an amount.
  abbrev pub Pays : State sdk → State sdk → (Text → ℕ) → Type 0
  Pays s s' amount =
      (b : Bank) × (s' ≡ record s { bank = b })
      × ((d : Text) → pool sdk s' d ≡ pool sdk s d + amount d)

  abbrev pub nothing : Text → ℕ
  nothing d = 0

  module _ (acc : Bytes) (aside : IsAside acc) where
    collect_from-pool :
        (s : State sdk) (coins : Coins) {s' : State sdk}
        → collect_from sdk contract_admin s acc contract_reward_collector coins ≡ ok s'
        → Pays s s' (amount_of coins)
    unfolding collect_from
    collect_from-pool s coins {s'} h =
        elim (Option-cases (account_to_module s.bank acc contract_reward_collector coins)) [
          | inl bad ↦ ground arith
          | inr (b, paid) ↦
              let e : record s { bank = b } ≡ s' = ground arith in
              (
                b,
                sym e,
                λ d.
                    subst (λ (x : State sdk). pool sdk x d ≡ pool sdk s d + amount_of coins d) e
                      (ground (
                        arith,
                        aside.payer,
                        bytes_eq_iff (module_address contract_reward_collector)
                            (module_address contract_reward_collector),
                        sdk.account_to_module_moves s.bank acc contract_reward_collector coins
                            (module_address contract_reward_collector) d paid,
                      )),
              )
        ]

    pub collect_from-aside :
        (s : State sdk) (coins : Coins) {s' : State sdk}
        → collect_from sdk contract_admin s acc fee_collector coins ≡ ok s'
        → Pays s s' nothing
    unfolding collect_from
    collect_from-aside s coins {s'} h =
        elim (Option-cases (account_to_module s.bank acc fee_collector coins)) [
          | inl bad ↦ ground arith
          | inr (b, paid) ↦
              let e : record s { bank = b } ≡ s' = ground arith in
              (
                b,
                sym e,
                λ d.
                    subst (λ (x : State sdk). pool sdk x d ≡ pool sdk s d + 0) e
                      (ground (
                        arith,
                        aside.payer,
                        aside.collector,
                        sdk.account_to_module_moves s.bank acc fee_collector coins
                            (module_address contract_reward_collector) d paid,
                      )),
              )
        ]

    pub pay_flat_fees-pool :
        (s : State sdk) (flat fees : Coins) {s' : State sdk} {rest : Coins}
        → pay_flat_fees sdk contract_admin s acc flat fees ≡ ok (s', rest)
        → Pays s s' (amount_of flat)
    unfolding pay_flat_fees
    pay_flat_fees-pool s flat fees {s'} h = elim (Bool-cases (is_empty flat)) [
      | inl empty ↦
          let e : s ≡ s' = ground arith in
          subst (λ (x : State sdk). Pays s x (amount_of flat)) e
            (s.bank, refl, λ d. omega (arith, (sdk.is_empty_iff flat).0 empty d))
      | inr coins ↦
          elim (Result-cases
            (collect_from sdk contract_admin s acc contract_reward_collector flat)) [
              | inl (s1, e) ↦ elim (Option-cases (sub_coins fees flat)) [
                | inl bad ↦ ground arith
                | inr (left, f) ↦
                    let g : s1 ≡ s' = ground arith in
                    subst (λ (x : State sdk). Pays s x (amount_of flat)) g
                      (collect_from-pool s flat e)
              ]
              | inr bad ↦ ground arith
            ]
    ]

    pub pay_rewards_fees-pool :
        (s : State sdk) (fees : Coins) {s' : State sdk}
        → pay_rewards_fees sdk contract_admin s acc fees ≡ ok s'
        → Pays s s' (amount_of fees)
    unfolding pay_rewards_fees
    pay_rewards_fees-pool s fees {s'} h = elim (Bool-cases (is_empty fees)) [
      | inl empty ↦
          let e : s ≡ s' = ground arith in
          subst (λ (x : State sdk). Pays s x (amount_of fees)) e
            (s.bank, refl, λ d. omega (arith, (sdk.is_empty_iff fees).0 empty d))
      | inr coins ↦ collect_from-pool s fees (ground arith)
    ]

    pub pay_auth_fees-pool :
        (s : State sdk) (fees : Coins) {s' : State sdk}
        → pay_auth_fees sdk contract_admin s acc fees ≡ ok s'
        → Pays s s' nothing
    unfolding pay_auth_fees
    pay_auth_fees-pool s fees {s'} h = elim (Bool-cases (is_empty fees)) [
      | inl empty ↦
          let e : s ≡ s' = ground arith in
          subst (λ (x : State sdk). Pays s x nothing) e (s.bank, refl, λ d. omega arith)
      | inr coins ↦ elim (Result-cases (collect_from sdk contract_admin s acc fee_collector fees)) [
        | inl (s1, e) ↦ elim (Option-cases (burn_coins s1.bank fee_collector fees)) [
          | inl bad ↦ ground arith
          | inr (b, burnt) ↦
              let g : record s1 { bank = b } ≡ s' = ground arith in
              let (b1, changed, grown) = collect_from-aside s fees e in
              subst (λ (x : State sdk). Pays s x nothing) g
                (
                  b,
                  ap (λ (x : State sdk). record x { bank = b }) changed,
                  λ d. ground (
                    arith,
                    grown d,
                    aside.collector,
                    sdk.burn_coins_moves s1.bank fee_collector fees
                        (module_address contract_reward_collector) d burnt,
                  ),
                )
        ]
        | inr bad ↦ ground arith
      ]
    ]
