-- ===== src/Rewards/FeeTests.antt =====
-- Minted coins and the fees of transactions at the small SDK.
use archway.Common.{
  ◌⊎◌, ℕ, ◌+◌, ◌*◌, ◌^◌, ◌≤◌, ◌≡◌, refl, Bool, true, false, none, some, Option, [], ◌∷◌, ok, arith,
  inr, value_or, if◌then◌else◌, ◌==◌ as nat_eq, ◌-◌,
}
use archway.Common.Key.{Text, Bytes, bytes_key, bytes_eq, bytes_lt, nat_key}
use archway.Common.Store.{get, set, add_new, remove}
use archway.Common.Str.{codes}
use archway.Common.Int.{ℤ, pos, uint64, ◌≤ℤ◌}
use archway.Sdk.{Coin, DecCoin, coin_amount, precision, IsNearest}
use archway.Sim.Instance.{sim, parse, make_coin, sub_coin}
use archway.Sim.Decimals.{multiply, of_int, truncate, signed, nearest, scale}
use archway.Sim.Coins.{all_zero, sub_list, take_out, covers}
use archway.Sim.Ledger.{withdraw, deposit, within, move}
use archway.Pkg.Split.{split_coins, split_coin, split_loop, coin_of, share_of}
use archway.Rewards.State.{Error, State, address_key}
use archway.Rewards.Records.{create_rewards_record}
use archway.Rewards.Metadata.{create_flat_fee_rewards_records, get_flat_fee}
use archway.Rewards.MinFee.{
  update_min_consensus_fee, computational_price_of_gas, get_min_consensus_fee,
  track_fee_rebates_rewards,
}
use archway.Rewards.ConsensusFee.{
  update_min_consensus_fee-IsNearest, computational_price_of_gas-larger,
}
use archway.Rewards.Mint.{fee_collector, send_coins_from_module_to_module}
use archway.Rewards.MintSplit.{AreThree, Divides, send_coins_from_module_to_module-tracks}
use archway.Rewards.Pool.{IsIndexed, owed, pool}
use archway.Rewards.Ante.{
  no_msgs, more_msgs, execute_contract, authz_exec, FeeTx, Fees, flat_fee_of,
  get_contract_flat_fees, wrapped_flat_fees, expect_fees, expect_all, gas_fee, check_min_fee,
  sum_fees, flat_fees_of, collect_from, pay_flat_fees, pay_auth_fees, pay_rewards_fees, deduct_fees,
}
use archway.Rewards.FlatFees.{leaves, fees_amount}
use archway.Rewards.Deduction.{IsAside}
use archway.Rewards.TxCharges.{authz_exec-unbacked}

abbrev stake : ℕ → Coin
stake n = record { denom = codes "stake"; amount = n }

abbrev half : ℤ
half = pos (5 * 10 ^ 17)

-- Gas costs one coin a unit, and a contract asks for a flat fee of three.
abbrev priced : State sim
priced = record {
  params = record {
    inflation_rewards_ratio = pos (2 * 10 ^ 17);
    tx_fee_rebate_ratio = half;
    max_withdraw_records = 25;
    min_price_of_gas = record { denom = codes "stake"; amount = pos (10 ^ 18) };
  };
  min_cons_fee = none;
  contract_metadata =
      (
        codes "c",
        record {
          contract_address = codes "c";
          owner_address = codes "owner";
          rewards_address = codes "dapp";
          withdraw_to_wallet = false;
        },
      )
      ∷ [];
  block_rewards = [];
  flat_fees = (codes "c", stake 3) ∷ [];
  tx_rewards = [];
  rewards_record_id = 0;
  rewards_records = [];
  records_by_address = [];
  bank = λ x d. 100;
}

update_min_consensus_fee-IsNearest_example :
    (fee : ℤ) × (f : ℕ) × (fee ≡ pos f)
    × IsNearest f (10 * precision * precision) (4 * (precision - 5 * 10 ^ 17))
    × (update_min_consensus_fee sim priced (stake 10) 4
        ≡ ok (
            if nat_eq f 0 then priced else record priced {
              min_cons_fee = some (record { denom = codes "stake"; amount = fee });
            }))
update_min_consensus_fee-IsNearest_example =
    update_min_consensus_fee-IsNearest sim priced (stake 10) 4 refl (omega arith) (omega arith)
      (omega arith) (omega arith)

abbrev raised : State sim
raised = record priced {
  min_cons_fee = some (record { denom = codes "stake"; amount = pos (10 ^ 19) });
}

computational_price_of_gas-larger_example :
    (p : DecCoin ℤ) × (n : ℕ) × (computational_price_of_gas sim raised ≡ ok p)
    × (p.denom ≡ codes "stake")
    × (p.amount ≡ pos n)
    × (10 ^ 18 ≤ n)
    × ((fee : DecCoin ℤ) → raised.min_cons_fee ≡ some fee → fee.amount ≤ℤ p.amount)
    × ((n ≡ 10 ^ 18)
        ⊎ ((fee : DecCoin ℤ) × (raised.min_cons_fee ≡ some fee) × (fee.amount ≡ pos n)))
computational_price_of_gas-larger_example =
    computational_price_of_gas-larger sim raised refl refl
      (inr (record { denom = codes "stake"; amount = pos (10 ^ 19) }, refl, refl, 10 ^ 19, refl))

mint_apart : AreThree sim (codes "mint")
unfolding bytes_eq
mint_apart = record { sender_apart = refl; sender_aside = refl; collectors_apart = refl }

is_split :
    split_coins sim {E = Error} (stake 50 ∷ []) priced.params.inflation_rewards_ratio
    ≡ ok (stake 10 ∷ [], stake 40 ∷ [])
unfolding split_coins split_loop split_coin coin_of share_of truncate multiply of_int scale signed
    nearest sub_coin bytes_eq
is_split = refl

send_coins_from_module_to_module-tracks_example :
    (s' : State sim) × (send_coins_from_module_to_module sim priced
        (pos 9)
        1000
        (codes "mint")
        fee_collector
        (stake 50 ∷ [])
      ≡ ok s')
    × Divides sim priced s' (codes "mint") (stake 10 ∷ []) (stake 40 ∷ [])
    × ((d : Text) → pool sim s' d ≡ pool sim priced d + coin_amount (stake 10) d)
    × (get s'.block_rewards (uint64 (pos 9))
        ≡ some (record { height = pos 9; inflation_rewards = stake 10; max_gas = 1000 }))
send_coins_from_module_to_module-tracks_example =
    send_coins_from_module_to_module-tracks sim priced (pos 9) 1000 (codes "mint") (stake 50 ∷ [])
      (stake 10 ∷ []) (stake 40 ∷ []) (stake 10) mint_apart refl (omega arith) (omega arith) refl
      (omega arith) (omega arith) (omega arith) is_split refl (λ d. ground arith)

abbrev paying : FeeTx sim.Coins
paying = record {
  msgs = more_msgs (execute_contract (codes "c")) no_msgs;
  fee = stake 20 ∷ [];
  gas = 10;
}

abbrev wrapping : FeeTx sim.Coins
wrapping = record paying { msgs = more_msgs (authz_exec paying.msgs) no_msgs }

abbrev admin : Bytes → Option Text
admin c = none

abbrev all_valid : sim.Coins → Bool
all_valid c = true

abbrev checked : FeeTx sim.Coins → State sim
checked tx = value_or priced (check_min_fee sim admin priced tx false (pos 9) 0)

abbrev deducted : FeeTx sim.Coins → State sim
deducted tx =
    value_or priced
      (deduct_fees sim admin all_valid (checked tx) (codes "payer") tx.msgs tx.fee 1 (pos 9))

wrapping-checked : check_min_fee sim admin priced wrapping false (pos 9) 0 ≡ ok (checked wrapping)
unfolding check_min_fee gas_fee computational_price_of_gas get_min_consensus_fee expect_all
    expect_fees get_contract_flat_fees flat_fee_of get_flat_fee create_flat_fee_rewards_records
    create_rewards_record get set remove add_new parse bytes_eq bytes_lt make_coin truncate scale
    signed all_zero covers sub_list take_out
wrapping-checked = refl

wrapping-deducted :
    deduct_fees sim admin all_valid
      (checked wrapping)
      (codes "payer")
      wrapping.msgs
      wrapping.fee
      1
      (pos 9)
    ≡ ok (deducted wrapping)
unfolding check_min_fee gas_fee computational_price_of_gas get_min_consensus_fee expect_all
    expect_fees get_contract_flat_fees flat_fee_of get_flat_fee create_flat_fee_rewards_records
    create_rewards_record get set remove add_new parse bytes_eq bytes_lt make_coin truncate scale
    signed all_zero covers sub_list take_out deduct_fees flat_fees_of sum_fees pay_flat_fees
    pay_auth_fees pay_rewards_fees collect_from move withdraw deposit within split_coins split_loop
    split_coin coin_of share_of multiply of_int nearest sub_coin track_fee_rebates_rewards
wrapping-deducted = refl

payer-IsAside : IsAside sim admin (codes "payer")
unfolding bytes_eq
payer-IsAside = record { payer = refl; collector = refl }

priced-IsIndexed : IsIndexed sim priced
unfolding get
priced-IsIndexed = record {
  keyed = tt;
  index_keyed = tt;
  indexed = λ a id e. absurd (ground (arith, e));
}

abbrev flat_three : Fees sim admin
flat_three = record { contract_address = codes "c"; flat_fees = stake 3 ∷ [] } ∷ []

wrapped_three : wrapped_flat_fees sim admin (checked wrapping) paying.msgs ≡ ok flat_three
unfolding check_min_fee gas_fee computational_price_of_gas get_min_consensus_fee expect_all
    expect_fees get_contract_flat_fees flat_fee_of get_flat_fee create_flat_fee_rewards_records
    create_rewards_record get set remove add_new parse bytes_eq bytes_lt make_coin truncate scale
    signed all_zero covers sub_list take_out
wrapped_three = refl

authz_exec-unbacked_example :
    (owed sim (deducted wrapping).rewards_records (codes "stake")
      ≡ owed sim priced.rewards_records (codes "stake")
        + fees_amount sim admin flat_three (codes "stake"))
    × (pool sim (deducted wrapping) (codes "stake") ≡ pool sim priced (codes "stake"))
unfolding get leaves
authz_exec-unbacked_example =
    authz_exec-unbacked sim admin all_valid (codes "payer") payer-IsAside priced (checked wrapping)
      (deducted wrapping) paying.msgs paying.fee 10 false 1 (pos 9) 0 priced-IsIndexed
      (omega arith, λ id above. refl) wrapped_three wrapping-checked wrapping-deducted
      (codes "stake")
