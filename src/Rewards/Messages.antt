-- ===== src/Rewards/Messages.antt =====
-- The two passes over the messages of a transaction: the check of the minimum records flat fees, and
-- the deduction finds the same fees.
use archway.Common.{
  ℕ, ◌+◌, ◌≤◌, ◌≡◌, refl, sym, ap, subst, ◌∙◌, Bool, true, Option, List, [], ◌∷◌, ◌++◌, length,
  length-append, ok, arith, Option-cases, Result-cases, inl, inr, if◌then◌else◌,
}
use archway.Common.Key.{Text, Bytes, bytes_key}
use archway.Common.Store.{get}
use archway.Common.Int.{ℤ}
use archway.Sdk.{Sdk}
use archway.Rewards.State.{State}
use archway.Rewards.Metadata.{get_flat_fee, create_flat_fee_rewards_records}
use archway.Rewards.Pool.{IsIndexed}
use archway.Rewards.Creation.{HasRoom}
use archway.Rewards.Ante.{
  Msg, Msgs, no_msgs, more_msgs, migrate_contract, execute_contract, authz_exec, authz_undecodable,
  other_msg, ContractFlatFee, Fees, flat_fee_of, get_contract_flat_fees, wrapped_flat_fees,
  expect_fees, expect_all, sum_fees, flat_fees_of,
}
use archway.Rewards.FlatFees.{
  leaves, leaves_of_all, Records, fees_amount, fees_amount-append, Records-trans,
  expect_fees-Records,
}

module _ (sdk : Sdk) (contract_admin : Bytes → Option Text) where
  open sdk use {Coins, amount_of, add_coins, of_coin, from_bech32}

  flat_fee_of-same :
      (s t : State sdk) (ca : Bytes)
      → t.flat_fees ≡ s.flat_fees
      → flat_fee_of sdk contract_admin t ca ≡ flat_fee_of sdk contract_admin s ca
  unfolding flat_fee_of get_flat_fee
  flat_fee_of-same s t ca e = ground (arith, ap (λ f. get f ca) e)

  -- What a message asks for depends on the flat fees alone.
  mutual
    unfolding get_contract_flat_fees

    fees-same :
        (s t : State sdk) (m : Msg)
        → t.flat_fees ≡ s.flat_fees
        → get_contract_flat_fees sdk contract_admin t m
          ≡ get_contract_flat_fees sdk contract_admin s m
    fees-same s t migrate_contract e = refl
    fees-same s t (execute_contract c) e = elim (Option-cases (from_bech32 c)) [
      | inl bad ↦ rw bad refl
      | inr (ca, parsed) ↦ rw (parsed, flat_fee_of-same s t ca e) refl
    ]
    fees-same s t (authz_exec ms) e = rw (wrapped-same s t ms e) refl
    fees-same s t authz_undecodable e = refl
    fees-same s t other_msg e = refl

    wrapped-same :
        (s t : State sdk) (ms : Msgs)
        → t.flat_fees ≡ s.flat_fees
        → wrapped_flat_fees sdk contract_admin t ms ≡ wrapped_flat_fees sdk contract_admin s ms
    wrapped-same s t no_msgs e = refl
    wrapped-same s t (more_msgs m ms) e = rw (fees-same s t m e, wrapped-same s t ms e) refl

  flat_fee_of-length :
      (s : State sdk) (ca : Bytes) → length (flat_fee_of sdk contract_admin s ca) ≤ 1
  unfolding flat_fee_of
  flat_fee_of-length s ca = ground arith

  -- A fee at most for each message that is not an execution of x/authz.
  mutual
    unfolding get_contract_flat_fees leaves

    fees-length :
        (s : State sdk) (m : Msg) {fees : Fees sdk contract_admin} {b : Bool}
        → get_contract_flat_fees sdk contract_admin s m ≡ ok (fees, b)
        → length fees ≤ leaves m
    fees-length s migrate_contract h = ground arith
    fees-length s (execute_contract c) h = elim (Option-cases (from_bech32 c)) [
      | inl bad ↦ ground arith
      | inr (ca, parsed) ↦ ground (arith, flat_fee_of-length s ca)
    ]
    fees-length s (authz_exec ms) h =
        elim (Result-cases (wrapped_flat_fees sdk contract_admin s ms)) [
          | inl (fees, e) ↦ ground (arith, wrapped-length s ms e)
          | inr bad ↦ ground arith
        ]
    fees-length s authz_undecodable h = ground arith
    fees-length s other_msg h = ground arith

    wrapped-length :
        (s : State sdk) (ms : Msgs) {fees : Fees sdk contract_admin}
        → wrapped_flat_fees sdk contract_admin s ms ≡ ok fees
        → length fees ≤ leaves_of_all ms
    wrapped-length s no_msgs h = ground arith
    wrapped-length s (more_msgs m ms) {fees} h =
        elim (Result-cases (get_contract_flat_fees sdk contract_admin s m)) [
          | inl ((a, b), e) ↦ elim (Result-cases (wrapped_flat_fees sdk contract_admin s ms)) [
            | inl (as', f) ↦
                ground (arith, fees-length s m e, wrapped-length s ms f, length-append a as')
            | inr bad ↦ ground arith
          ]
          | inr bad ↦ ground arith
        ]

  pub sum_fees-amount :
      (cffs : List (ContractFlatFee Coins)) (t : Coins) (d : Text)
      → amount_of (sum_fees sdk contract_admin cffs t) d
        ≡ amount_of t d + fees_amount sdk contract_admin cffs d
  unfolding sum_fees fees_amount
  sum_fees-amount [] t d = omega arith
  sum_fees-amount (c ∷ cs) t d = omega (
    arith,
    sum_fees-amount cs (add_coins t c.flat_fees) d,
    sdk.amount_of-add_coins t c.flat_fees d,
  )

  expect_fees-amount :
      (cffs : List (ContractFlatFee Coins)) (s : State sdk) (expected : Coins) (height : ℤ)
      (time : ℕ) {s' : State sdk} {expected' : Coins}
      → expect_fees sdk contract_admin s cffs expected height time ≡ ok (s', expected')
      → expected' ≡ sum_fees sdk contract_admin cffs expected
  unfolding expect_fees sum_fees
  expect_fees-amount [] s expected height time h = ground arith
  expect_fees-amount (c ∷ cs) s expected height time {s'} {expected'} h =
      elim (Result-cases (
        create_flat_fee_rewards_records sdk contract_admin s c.contract_address c.flat_fees height
          time)) [
            | inl (s1, e) ↦
                expect_fees-amount cs s1 (add_coins expected c.flat_fees) height time {s' = s'}
                  {expected' = expected'} (ground (arith, h, e))
            | inr bad ↦ ground (arith, h, bad)
          ]

  -- Where the first pass over the messages returns, it has made records for some fees, and a second
  -- pass over a state with the same flat fees finds the same amounts.
  pub record Passes (s s' : State sdk) (expected expected' flat flat' : Coins) (n : ℕ)
      : Type 0 where
    pub fees : Fees sdk contract_admin
    pub recorded : Records sdk contract_admin s s' n (fees_amount sdk contract_admin fees)
    pub expected_more :
        (d : Text)
        → amount_of expected' d ≡ amount_of expected d + fees_amount sdk contract_admin fees d
    pub flat_more :
        (d : Text) → amount_of flat' d ≡ amount_of flat d + fees_amount sdk contract_admin fees d

  pub expect_all-Passes :
      (ms : Msgs) (s t : State sdk) (expected flat : Coins) (b : Bool) (height : ℤ) (time n : ℕ)
      {s' : State sdk} {expected' : Coins}
      → t.flat_fees ≡ s.flat_fees
      → IsIndexed sdk s
      → HasRoom sdk s (leaves_of_all ms + n)
      → expect_all sdk contract_admin s ms expected height time ≡ ok (s', expected')
      → (flat' : Coins) × (b' : Bool) × (flat_fees_of sdk contract_admin t ms flat b
          ≡ ok (flat', b'))
        × Passes s s' expected expected' flat flat' n
  unfolding expect_all flat_fees_of leaves fees_amount
  expect_all-Passes no_msgs s t expected flat b height time n {s'} {expected'} same v room h =
      let e : (s, expected) ≡ (s', expected') = ground (arith, h) in
      (
        flat,
        b,
        refl,
        subst (λ (x : State sdk × Coins). Passes s x.0 expected x.1 flat flat n) e
            (record {
              fees = [];
              recorded = record {
                indexed = v;
                room = (omega (arith, room.0), room.1);
                same_bank = refl;
                same_fees = refl;
                same_params = refl;
                grown = λ d. omega arith;
              };
              expected_more = λ d. omega arith;
              flat_more = λ d. omega arith;
            }),
      )
  expect_all-Passes (more_msgs m ms) s t expected flat b height time n {s'} {expected'} same v room
        h =
      elim (Result-cases (get_contract_flat_fees sdk contract_admin s m)) [
        | inl ((fees, wasm), e) ↦
            elim (Result-cases (expect_fees sdk contract_admin s fees expected height time)) [
              | inl ((s1, expected1), f) ↦
                  let few : length fees ≤ leaves m = fees-length s m e in
                  let first =
                    expect_fees-Records sdk contract_admin fees s expected height time
                      (leaves_of_all ms + n) {expected' = expected1} v
                      (omega (arith, room.0, few), room.1) f in
                  let (flat', b', second, rest) =
                    expect_all-Passes ms s1 t expected1 (sum_fees sdk contract_admin fees flat)
                      (if b then true else wasm) height time n {s' = s'} {expected' = expected'}
                      (same ∙ sym first.same_fees) first.indexed first.room
                      (ground (arith, h, e, f)) in
                  (
                    flat',
                    b',
                    rw (fees-same s t m same, e) second,
                    record {
                      fees = fees ++ rest.fees;
                      recorded =
                          Records-trans sdk contract_admin first rest.recorded
                            (λ d. fees_amount-append sdk contract_admin fees rest.fees d);
                      expected_more = λ d. omega (
                        arith,
                        rest.expected_more d,
                        ap (λ c. amount_of c d) (expect_fees-amount fees s expected height time f),
                        sum_fees-amount fees expected d,
                        fees_amount-append sdk contract_admin fees rest.fees d,
                      );
                      flat_more = λ d. omega (
                        arith,
                        rest.flat_more d,
                        sum_fees-amount fees flat d,
                        fees_amount-append sdk contract_admin fees rest.fees d,
                      );
                    },
                  )
              | inr bad ↦ ground (arith, h, e, bad)
            ]
        | inr bad ↦ ground (arith, h, bad)
      ]
