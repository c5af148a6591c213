-- ===== src/Rewards/Records.antt =====
-- Rewards records: their creation (x/rewards/keeper/keeper.go) and their withdrawal
-- (x/rewards/keeper/withdraw.go).
use archway.Common.{
  ℕ, ◌+◌, ◌%◌, ◌^◌, List, [], ◌∷◌, select, take, length, ltb, Result, ok, ◌>>=◌, ◌>>◌, or_fail,
  or_panic, require, reject, must, if◌then◌else◌, ◌==◌ as nat_eq,
}
use archway.Common.Key.{Bytes, Text, ◌==◌, bytes_eq, bytes_key, nat_key}
use archway.Common.Store.{Store, get, set, remove}
use archway.Common.Int.{ℤ}
use archway.Sdk.{Sdk}
use archway.Rewards.State.{
  RewardsRecord, State, Error, address_key, contract_reward_collector, invalid_request, internal,
  invalid_address,
}

module _ (sdk : Sdk) where
  open sdk use {Coins, no_coins, add_coins, is_zero, from_bech32, to_bech32, module_to_account}

  -- CreateRewardsRecord: identifiers begin at 1; `Set` of the indexed map adds the entry of the index.
  unfoldable pub create_rewards_record :
      State sdk → Bytes → Coins → ℤ → ℕ → Result Error (RewardsRecord Coins × State sdk)
  create_rewards_record s withdraw_addr rewards height time = do
    let obj : RewardsRecord Coins = record {
      id = (s.rewards_record_id + 1) % 2 ^ 64;
      rewards_address = to_bech32 withdraw_addr;
      rewards = rewards;
      calculated_height = height;
      calculated_time = time;
    }
    address ← or_fail (from_bech32 obj.rewards_address) invalid_address
    ok (
      obj,
      record s {
        rewards_record_id = (s.rewards_record_id + 1) % 2 ^ 64;
        rewards_records = set s.rewards_records obj.id obj;
        records_by_address = set s.records_by_address (address, obj.id) tt;
      },
    )

  unfoldable pub total_rewards : List (RewardsRecord Coins) → Coins → Coins
  total_rewards [] total = total
  total_rewards (r ∷ rs) total = total_rewards rs (add_coins total r.rewards)

  unfoldable pub fast_remove_records :
      State sdk → List (RewardsRecord Coins) → Result Error (State sdk)
  fast_remove_records s [] = ok s
  fast_remove_records s (r ∷ rs) =
      or_fail (from_bech32 r.rewards_address) invalid_address >>= λ reward_addr.
      fast_remove_records
        (record s {
          rewards_records = remove s.rewards_records r.id;
          records_by_address = remove s.records_by_address (reward_addr, r.id);
        })
        rs

  unfoldable pub send_rewards : State sdk → Bytes → Coins → Result Error (State sdk)
  send_rewards s rewards_addr total =
      if is_zero total
      then ok s
      else or_panic (module_to_account s.bank contract_reward_collector rewards_addr total)
        >>= λ bank. ok (record s { bank = bank })

  unfoldable pub withdraw_rewards_by_records :
      State sdk → Bytes → List (RewardsRecord Coins) → Result Error (Coins × State sdk)
  unfolding total_rewards fast_remove_records send_rewards
  withdraw_rewards_by_records s rewards_addr records = do
    let total = total_rewards records no_coins
    sent ← send_rewards s rewards_addr total
    s' ← must (fast_remove_records sent records)
    ok (total, s')

  -- The records that a walk over the index finds.
  unfoldable pub collect :
      Store ℕ (RewardsRecord Coins)
      → List ((Bytes × ℕ) × Unit {0})
      → Result Error (List (RewardsRecord Coins))
  collect records [] = ok []
  collect records (((a, id), _) ∷ entries) =
      or_fail (get records id) internal >>= λ r. collect records entries >>= λ rs. ok (r ∷ rs)

  -- The first page: `query.Paginate` takes 100 entries when the limit is 0.
  unfoldable pub get_rewards_records_by_withdraw_address_paginated :
      State sdk → Bytes → ℕ → Result Error (List (RewardsRecord Coins))
  unfolding collect
  get_rewards_records_by_withdraw_address_paginated s addr limit = collect s.rewards_records (
      take (if nat_eq limit 0 then 100 else limit)
        (select (λ (x : (Bytes × ℕ) × Unit {0}). x.0.0 == addr) s.records_by_address))

  -- The rewards, the number of records, and the state.
  unfoldable pub withdraw_rewards_by_records_limit :
      State sdk → Bytes → ℕ → Result Error (Coins × (ℕ × State sdk))
  unfolding get_rewards_records_by_withdraw_address_paginated withdraw_rewards_by_records
  withdraw_rewards_by_records_limit s rewards_addr limit = do
    let limit_max = s.params.max_withdraw_records
    let records_limit = if nat_eq limit 0 then limit_max else limit
    reject (ltb limit_max records_limit) invalid_request
    records ← get_rewards_records_by_withdraw_address_paginated s rewards_addr records_limit
    (total, s') ← withdraw_rewards_by_records s rewards_addr records
    ok (total, (length records, s'))

  -- The records of the identifiers; each has to be there and to belong to the address.
  unfoldable pub find_records :
      State sdk → Text → List ℕ → Result Error (List (RewardsRecord Coins))
  find_records s addr [] = ok []
  find_records s addr (id ∷ ids) = or_fail (get s.rewards_records id) invalid_request >>= λ r.
      require (bytes_eq r.rewards_address addr) invalid_request >> find_records s addr ids >>= λ rs.
      ok (r ∷ rs)

  unfoldable pub withdraw_rewards_by_record_ids :
      State sdk → Bytes → List ℕ → Result Error (Coins × (ℕ × State sdk))
  unfolding find_records withdraw_rewards_by_records
  withdraw_rewards_by_record_ids s rewards_addr ids = do
    reject (ltb s.params.max_withdraw_records (length ids)) invalid_request
    records ← find_records s (to_bech32 rewards_addr) ids
    (total, s') ← withdraw_rewards_by_records s rewards_addr records
    ok (total, (length records, s'))
