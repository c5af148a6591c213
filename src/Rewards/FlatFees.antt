-- ===== src/Rewards/FlatFees.antt =====
-- The flat fees of a transaction's messages: what is recorded for the contracts.
use archway.Common.{
  ℕ, suc, ◌+◌, ◌≡◌, refl, subst, ◌∙◌, Option, List, [], ◌∷◌, ◌++◌, length, ok, arith, Option-cases,
  Result-cases, inl, inr,
}
use archway.Common.Key.{Text, Bytes, bytes_key}
use archway.Common.Store.{get}
use archway.Common.Int.{ℤ}
use archway.Sdk.{Sdk}
use archway.Rewards.State.{State}
use archway.Rewards.Metadata.{create_flat_fee_rewards_records}
use archway.Rewards.Pool.{IsIndexed, owed}
use archway.Rewards.Creation.{HasRoom, create_rewards_record-IsIndexed}
use archway.Rewards.Ante.{Msg, Msgs, no_msgs, more_msgs, authz_exec, ContractFlatFee, expect_fees}

-- The messages that are not executions of x/authz, at any depth.
unfoldable mutual
  pub leaves : Msg → ℕ
  leaves (authz_exec ms) = leaves_of_all ms
  leaves _ = 1

  pub leaves_of_all : Msgs → ℕ
  leaves_of_all no_msgs = 0
  leaves_of_all (more_msgs m ms) = leaves m + leaves_of_all ms

module _ (sdk : Sdk) (contract_admin : Bytes → Option Text) where
  open sdk use {Coins, amount_of, add_coins, from_bech32}

  -- A state after records were made: the index is kept, and what is owed has grown.
  pub record Records (s s' : State sdk) (n : ℕ) (amount : Text → ℕ) : Type 0 where
    pub indexed : IsIndexed sdk s'
    pub room : HasRoom sdk s' n
    pub same_bank : s'.bank ≡ s.bank
    pub same_fees : s'.flat_fees ≡ s.flat_fees
    pub same_params : s'.params ≡ s.params
    pub grown : (d : Text) → owed sdk s'.rewards_records d ≡ owed sdk s.rewards_records d + amount d

  pub create_flat_fee-Records :
      (s : State sdk) (contract : Bytes) (fees : Coins) (height : ℤ) (time n : ℕ) {s' : State sdk}
      → IsIndexed sdk s
      → HasRoom sdk s (suc n)
      → create_flat_fee_rewards_records sdk contract_admin s contract fees height time ≡ ok s'
      → Records s s' n (amount_of fees)
  unfolding create_flat_fee_rewards_records
  create_flat_fee-Records s contract fees height time n {s'} v room h =
      elim (Option-cases (get s.contract_metadata contract)) [
        | inl bad ↦ ground arith
        | inr (m, there) ↦ elim (Option-cases (from_bech32 m.rewards_address)) [
          | inl bad ↦ ground arith
          | inr (a, parsed) ↦
              let (r, s1, made, valid, more, bank, flat, params, sums) =
                create_rewards_record-IsIndexed sdk s a fees height time n
                  (sdk.from_bech32-to_bech32 m.rewards_address parsed) v room in
              let same : s1 ≡ s' = ground (arith, h, made) in
              subst (λ (x : State sdk). Records s x n (amount_of fees)) same
                (record {
                  indexed = valid;
                  room = more;
                  same_bank = bank;
                  same_fees = flat;
                  same_params = params;
                  grown = sums;
                })
        ]
      ]

  -- What fees hold of a denomination.
  unfoldable pub fees_amount : List (ContractFlatFee Coins) → Text → ℕ
  fees_amount [] d = 0
  fees_amount (cff ∷ cffs) d = amount_of cff.flat_fees d + fees_amount cffs d

  pub fees_amount-append :
      (a b : List (ContractFlatFee Coins)) (d : Text)
      → fees_amount (a ++ b) d ≡ fees_amount a d + fees_amount b d
  unfolding fees_amount
  fees_amount-append [] b d = omega arith
  fees_amount-append (x ∷ a) b d = omega (arith, fees_amount-append a b d)

  -- One step of records after others.
  pub Records-trans :
      {s s1 s2 : State sdk} {m n : ℕ} {f g h : Text → ℕ}
      → Records s s1 m f
      → Records s1 s2 n g
      → ((d : Text) → h d ≡ f d + g d)
      → Records s s2 n h
  Records-trans a b e = record {
    indexed = b.indexed;
    room = b.room;
    same_bank = b.same_bank ∙ a.same_bank;
    same_fees = b.same_fees ∙ a.same_fees;
    same_params = b.same_params ∙ a.same_params;
    grown = λ d. omega (arith, a.grown d, b.grown d, e d);
  }

  pub expect_fees-Records :
      (cffs : List (ContractFlatFee Coins)) (s : State sdk) (expected : Coins) (height : ℤ)
      (time n : ℕ) {s' : State sdk} {expected' : Coins}
      → IsIndexed sdk s
      → HasRoom sdk s (length cffs + n)
      → expect_fees sdk contract_admin s cffs expected height time ≡ ok (s', expected')
      → Records s s' n (fees_amount cffs)
  unfolding expect_fees fees_amount
  expect_fees-Records [] s expected height time n {s'} v room h =
      let same : s ≡ s' = ground arith in
      subst (λ (x : State sdk). Records s x n (fees_amount [])) same
        (record {
          indexed = v;
          room = (omega (arith, room.0), room.1);
          same_bank = refl;
          same_fees = refl;
          same_params = refl;
          grown = λ d. omega arith;
        })
  expect_fees-Records (c ∷ cs) s expected height time n {s'} {expected'} v room h =
      elim (Result-cases (
        create_flat_fee_rewards_records sdk contract_admin s c.contract_address c.flat_fees height
          time)) [
            | inl (s1, e) ↦
                let first =
                  create_flat_fee-Records s c.contract_address c.flat_fees height time
                    (length cs + n) v (omega (arith, room.0), room.1) e in
                Records-trans first
                  (expect_fees-Records cs s1 (add_coins expected c.flat_fees) height time n
                    {expected' = expected'} first.indexed first.room (ground (arith, h, e)))
                  (λ d. refl)
            | inr bad ↦ ground (arith, h, bad)
          ]
