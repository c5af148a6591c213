-- ===== src/Rewards/Tests.antt =====
-- A withdrawal at the small SDK.
use archway.Common.{
  List, length, Bool, ◌↔◌, ◌<◌, ◌≤◌, ℕ, ◌≡◌, ◌≢◌, refl, true, none, some, Option, [], ◌∷◌, ok,
  arith,
}
use archway.Common.Key.{Text, Bytes, bytes_key, bytes_eq, bytes_eq_iff}
use archway.Common.Store.{get, set, add_new, remove}
use archway.Rewards.Metadata.{
  set_contract_metadata, check_rewards_address, may_set, base_metadata, updated,
}
use archway.Rewards.Ownership.{ArePayable, HasRight, set_contract_metadata-ArePayable}
use archway.Common.Str.{codes}
use archway.Common.Int.{ℤ, pos}
use archway.Sdk.{Coin, DecCoin}
use archway.Sim.Instance.{sim, parse}
use archway.Rewards.State.{
  RewardsRecord, State, ContractMetadata, address_key, contract_reward_collector,
}
use archway.Rewards.Records.{withdraw_rewards_by_records_limit}
use archway.Rewards.Pool.{IsIndexed, IsBacked}
use archway.Rewards.Payment.{IsPaid}
use archway.Rewards.Msgs.{MsgWithdrawRewards, record_ids, check_ids}
use archway.Rewards.Identifiers.{AreFresh, check_ids-AreFresh}
use archway.Rewards.MinFee.{validate_params}
use archway.Rewards.Parameters.{IsBelowOne, validate_params_iff}
use archway.Rewards.Withdraw.{AreWithdrawn, withdraw_rewards_by_records_limit-IsPaid}

abbrev pub stake : ℕ → Coin
stake n = record { denom = codes "stake"; amount = n }

abbrev pub dapp : Text
dapp = codes "dapp"

abbrev pub first_record : RewardsRecord sim.Coins
first_record = record {
  id = 1;
  rewards_address = dapp;
  rewards = stake 4 ∷ [];
  calculated_height = pos 7;
  calculated_time = 0;
}

abbrev pub filled : State sim
filled = record {
  params = record {
    inflation_rewards_ratio = pos 0;
    tx_fee_rebate_ratio = pos 0;
    max_withdraw_records = 25;
    min_price_of_gas = record { denom = codes "stake"; amount = pos 0 };
  };
  min_cons_fee = none;
  contract_metadata = [];
  block_rewards = [];
  flat_fees = [];
  tx_rewards = [];
  rewards_record_id = 1;
  rewards_records = (1, first_record) ∷ [];
  records_by_address = ((dapp, 1), tt) ∷ [];
  bank = λ x d. 9;
}

pub filled-IsIndexed : IsIndexed sim filled
unfolding get parse
filled-IsIndexed = record {
  keyed = (refl, tt);
  index_keyed = (refl, tt);
  indexed =
      λ a id e. (first_record, ground arith, ground arith, ground (arith, bytes_eq_iff a dapp));
}

pub filled-IsBacked : IsBacked sim filled
filled-IsBacked d = ground arith

withdraw_rewards_by_records_limit-IsPaid_example :
    (rs : List (RewardsRecord sim.Coins)) × (t : sim.Coins) × (s' : State sim)
    × (withdraw_rewards_by_records_limit sim filled dapp 3 ≡ ok (t, (length rs, s')))
    × IsPaid sim dapp filled t s'
    × AreWithdrawn sim filled dapp 3 rs s'
unfolding bytes_eq
withdraw_rewards_by_records_limit-IsPaid_example =
    withdraw_rewards_by_records_limit-IsPaid sim filled dapp 3 filled-IsIndexed filled-IsBacked refl
      apart (omega arith) (omega arith)
  where
    apart : dapp ≢ contract_reward_collector
    apart e = ground (arith, e)

abbrev pub admin_of : Bytes → Option Text
admin_of c = some (codes "admin")

abbrev updates : ContractMetadata
updates = record {
  contract_address = [];
  owner_address = [];
  rewards_address = dapp;
  withdraw_to_wallet = true;
}

abbrev pub described : State sim
described = record filled {
  contract_metadata =
      (
        codes "c",
        record {
          contract_address = codes "c";
          owner_address = codes "admin";
          rewards_address = dapp;
          withdraw_to_wallet = true;
        },
      )
      ∷ [];
}

is_described :
    set_contract_metadata sim admin_of filled (codes "admin") (codes "c") updates ≡ ok described
unfolding set_contract_metadata check_rewards_address may_set base_metadata updated parse bytes_eq
    get set add_new remove
is_described = refl

set_contract_metadata-ArePayable_example :
    HasRight sim admin_of filled (codes "admin") (codes "c")
    × (ArePayable sim admin_of described
        × ((c : Bytes)
            → c ≢ codes "c"
            → get described.contract_metadata c ≡ get filled.contract_metadata c))
unfolding get
set_contract_metadata-ArePayable_example =
    set_contract_metadata-ArePayable sim admin_of filled (codes "admin") (codes "c") updates
      none_set is_described
  where
    empty : (c : Bytes) (m : ContractMetadata) → get filled.contract_metadata c ≢ some m
    empty c m found = ground arith

    none_set : ArePayable sim admin_of filled
    none_set c m found on = absurd (empty c m found)

abbrev by_id : MsgWithdrawRewards
by_id = record { rewards_address = dapp; mode = some (record_ids (1 ∷ [])) }

check_ids-AreFresh_example : (check_ids [] (3 ∷ 4 ∷ []) ≡ ok tt) ↔ AreFresh [] (3 ∷ 4 ∷ [])
check_ids-AreFresh_example = check_ids-AreFresh (3 ∷ 4 ∷ []) []

abbrev accept_all : DecCoin ℤ → Bool
accept_all c = true

validate_params_iff_example :
    (validate_params sim accept_all filled.params ≡ ok tt)
    ↔ (IsBelowOne (pos 0) × IsBelowOne (pos 0) × (0 < 25) × (25 ≤ 25000) × (true ≡ true))
validate_params_iff_example = validate_params_iff sim accept_all filled.params
