-- ===== src/Rewards/TxCharges.antt =====
-- The check of the minimum fee and the deduction of the fees, one after the other.
use archway.Common.{
  ℕ, ◌+◌, ◌≡◌, refl, sym, ap, subst, ◌∙◌, Bool, false, not, ◌||◌, Option, ok, arith, Bool-cases,
  inl, inr,
}
use archway.Common.Key.{Text, Bytes, nat_key}
use archway.Common.Store.{get-set_self}
use archway.Common.Int.{ℤ, pos, eqb_ℤ}
use archway.Sdk.{Sdk}
use archway.Rewards.State.{Params, State, contract_reward_collector}
use archway.Rewards.Pool.{IsIndexed, owed, pool}
use archway.Rewards.Creation.{HasRoom}
use archway.Rewards.MinFee.{track_fee_rebates_rewards}
use archway.Rewards.Ante.{
  Msgs, no_msgs, more_msgs, authz_exec, FeeTx, Fees, get_contract_flat_fees, wrapped_flat_fees,
  flat_fees_of, sum_fees, check_min_fee, deduct_fees,
}
use archway.Rewards.FlatFees.{leaves_of_all, Records, fees_amount}
use archway.Rewards.Messages.{expect_all-Passes, sum_fees-amount}
use archway.Rewards.Deduction.{IsAside}
use archway.Rewards.TxFees.{
  is_shared, Charges, deduct_fees-unshared, deduct_fees-shared, check_min_fee-expects,
}

module _ (sdk : Sdk) (contract_admin : Bytes → Option Text) (is_valid : sdk.Coins → Bool)
    (acc : Bytes) (aside : IsAside sdk contract_admin acc) where
  open sdk use {Coins, atto, amount_of, no_coins, of_coin, add_coins}

  gathered :
      (s s1 s2 : State sdk) (msgs : Msgs) (fees flat : Coins) (b : Bool) (tx_id : ℕ) (height : ℤ)
      → Records sdk contract_admin s s1 0 (amount_of flat)
      → flat_fees_of sdk contract_admin s1 msgs no_coins false ≡ ok (flat, b)
      → deduct_fees sdk contract_admin is_valid s1 acc msgs fees tx_id height ≡ ok s2
      → Charges sdk contract_admin s s1 s2 msgs tx_id height
  unfolding track_fee_rebates_rewards
  gathered s s1 s2 msgs fees flat b tx_id height made found h =
      let before : (d : Text) → pool sdk s1 d ≡ pool sdk s d = λ d.
        ap (λ x. sdk.balance x (sdk.module_address contract_reward_collector) d) made.same_bank in
      let alike : is_shared sdk contract_admin s1 b ≡ is_shared sdk contract_admin s b =
        ap (λ (p : Params sdk.Dec18). not (eqb_ℤ (atto p.tx_fee_rebate_ratio) (pos 0) || not b))
          made.same_params in
      elim (Bool-cases (is_shared sdk contract_admin s1 b)) [
        | inl on ↦
            let (bank, rewards, changed, grown) =
              deduct_fees-shared sdk contract_admin is_valid acc aside s1 msgs fees flat b tx_id
                height found on h in
            subst (λ (x : State sdk). Charges sdk contract_admin s s1 x msgs tx_id height)
              (sym changed)
              (record {
                flat = flat;
                has_wasm = b;
                found = found;
                indexed = record {
                  keyed = made.indexed.keyed;
                  index_keyed = made.indexed.index_keyed;
                  indexed = made.indexed.indexed;
                };
                recorded = made.grown;
                pooled = inl (
                  sym alike ∙ on,
                  rewards,
                  get-set_self s1.tx_rewards tx_id
                      (record { tx_id = tx_id; height = height; fee_rewards = rewards }),
                  λ d. omega (arith, grown d, before d),
                );
              })
        | inr off ↦
            let (bank, changed, grown) =
              deduct_fees-unshared sdk contract_admin is_valid acc aside s1 msgs fees flat b tx_id
                height found off h in
            let same : (d : Text) → pool sdk (record s1 { bank = bank }) d ≡ pool sdk s d =
              λ d. omega (arith, before d, grown d, ap (λ (x : State sdk). pool sdk x d) changed) in
            subst (λ (x : State sdk). Charges sdk contract_admin s s1 x msgs tx_id height)
              (sym changed)
              (record {
                flat = flat;
                has_wasm = b;
                found = found;
                indexed = record {
                  keyed = made.indexed.keyed;
                  index_keyed = made.indexed.index_keyed;
                  indexed = made.indexed.indexed;
                };
                recorded = made.grown;
                pooled = inr (sym alike ∙ off, same);
              })
      ]

  pub deduct_fees-Charges :
      (s s1 s2 : State sdk) (tx : FeeTx Coins) (simulate : Bool) (tx_id : ℕ) (height : ℤ) (time : ℕ)
      → IsIndexed sdk s
      → HasRoom sdk s (leaves_of_all tx.msgs + 0)
      → check_min_fee sdk contract_admin s tx simulate height time ≡ ok s1
      → deduct_fees sdk contract_admin is_valid s1 acc tx.msgs tx.fee tx_id height ≡ ok s2
      → Charges sdk contract_admin s s1 s2 tx.msgs tx_id height
  deduct_fees-Charges s s1 s2 tx simulate tx_id height time v room h k =
      let (base, expected, e, f, met) =
        check_min_fee-expects sdk contract_admin s tx simulate height time h in
      let start = add_coins no_coins (of_coin base) in
      let (_, _, _, pass) =
        expect_all-Passes sdk contract_admin tx.msgs s s start no_coins false height time 0
          {s' = s1} {expected' = expected} refl v room f in
      let (flat, b, found, again) =
        expect_all-Passes sdk contract_admin tx.msgs s s1 start no_coins false height time 0
          {s' = s1} {expected' = expected} pass.recorded.same_fees v room f in
      gathered s s1 s2 tx.msgs tx.fee flat b tx_id height
        (record {
          indexed = again.recorded.indexed;
          room = again.recorded.room;
          same_bank = again.recorded.same_bank;
          same_fees = again.recorded.same_fees;
          same_params = again.recorded.same_params;
          grown = λ d.
              omega (arith, again.recorded.grown d, again.flat_more d, sdk.amount_of-no_coins d);
        })
        found k

  authz_flat :
      (s1 : State sdk) (ms : Msgs) (cffs : Fees sdk contract_admin) {flat : Coins} {b : Bool}
      → wrapped_flat_fees sdk contract_admin s1 ms ≡ ok cffs
      → flat_fees_of sdk contract_admin s1 (more_msgs (authz_exec ms) no_msgs) no_coins false
        ≡ ok (flat, b)
      → (flat ≡ sum_fees sdk contract_admin cffs no_coins) × (b ≡ false)
  unfolding flat_fees_of get_contract_flat_fees
  authz_flat s1 ms cffs e h = (ground (arith, h, e), ground (arith, h, e))

  -- Under the same conditions, a transaction that is one execution of x/authz: the records grow by the
  -- flat fees of the contracts that it executes, and the pool, which the records are paid from, does not
  -- grow at all.
  pub authz_exec-unbacked :
      (s s1 s2 : State sdk) (ms : Msgs) (fee : Coins) (gas : ℕ) (simulate : Bool) (tx_id : ℕ)
      (height : ℤ) (time : ℕ) {cffs : Fees sdk contract_admin}
      → IsIndexed sdk s
      → HasRoom sdk s (leaves_of_all (more_msgs (authz_exec ms) no_msgs) + 0)
      → wrapped_flat_fees sdk contract_admin s1 ms ≡ ok cffs
      → check_min_fee sdk contract_admin s
          (record { msgs = more_msgs (authz_exec ms) no_msgs; fee = fee; gas = gas })
          simulate
          height
          time
        ≡ ok s1
      → deduct_fees sdk contract_admin is_valid s1 acc
          (more_msgs (authz_exec ms) no_msgs)
          fee
          tx_id
          height
        ≡ ok s2
      → (d : Text)
      → (owed sdk s2.rewards_records d
          ≡ owed sdk s.rewards_records d + fees_amount sdk contract_admin cffs d)
        × (pool sdk s2 d ≡ pool sdk s d)
  authz_exec-unbacked s s1 s2 ms fee gas simulate tx_id height time {cffs} v room wrapped h k d =
      let tx : FeeTx Coins = record {
        msgs = more_msgs (authz_exec ms) no_msgs;
        fee = fee;
        gas = gas;
      } in
      let charged = deduct_fees-Charges s s1 s2 tx simulate tx_id height time v room h k in
      let (sum, off) = authz_flat s1 ms cffs wrapped charged.found in
      (
        omega (
          arith,
          charged.recorded d,
          ap (λ c. amount_of c d) sum,
          sum_fees-amount sdk contract_admin cffs no_coins d,
          sdk.amount_of-no_coins d,
        ),
        elim charged.pooled [
          | inl (on, _, _, _) ↦ absurd (ground (arith, on, off))
          | inr (_, same) ↦ same d
        ],
      )
