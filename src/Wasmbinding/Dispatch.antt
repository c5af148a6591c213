-- ===== src/Wasmbinding/Dispatch.antt =====
-- What a contract does with its custom messages.
use archway.Common.{
  ℕ, Bool, ◌≡◌, ◌≢◌, ◌≤◌, ◌<◌, List, length, refl, subst, false, Option, none, some, Option-cases,
  Result-cases, [], ok, arith, inl, inr,
}
use archway.Common.Key.{Bytes, Text, bytes_key}
use archway.Common.Store.{get, set, get-set_self}
use archway.Common.Int.{ℤ}
use archway.Sdk.{Sdk}
use archway.Rewards.State.{ContractMetadata, RewardsRecord, State, contract_reward_collector}
use archway.Rewards.Metadata.{
  set_contract_metadata, check_rewards_address, may_set, base_metadata, updated,
}
use archway.Rewards.Msgs.{check_ids}
use archway.Rewards.Pool.{IsIndexed, IsBacked}
use archway.Rewards.Payment.{IsPaid}
use archway.Rewards.Withdraw.{AreWithdrawn, withdraw_rewards_by_records_limit-IsPaid}
use archway.Wasmbinding.Msgs.{
  UpdateContractMetadataRequest, CustomMsg, validate_msg, validate_update, validate_withdraw,
  target_of, metadata_to_sdk, update_contract_metadata, withdraw_contract_rewards, withdraw_by,
  dispatch_to, dispatch_msg,
}

module _ (sdk : Sdk) (contract_admin : Bytes → Option Text) (parse_int : Text → Option ℤ)
    (valid_denom : Text → Bool) where
  open sdk use {Coins, to_bech32, blocked_addr, module_address}

  -- A custom message for a withdrawal with a limit.
  abbrev pub withdrawal : ℕ → CustomMsg
  withdrawal limit = record {
    update_contract_metadata = none;
    withdraw_rewards = some (record { records_limit = some limit; record_ids = [] });
    set_flat_fee_msg = none;
  }

  abbrev pub update : UpdateContractMetadataRequest → CustomMsg
  update req = record {
    update_contract_metadata = some req;
    withdraw_rewards = none;
    set_flat_fee_msg = none;
  }

  -- A contract that withdraws with a limit that the parameters allow, which is not 0, when every index
  -- entry has its record, the pool backs the records, and the contract's address is neither blocked nor
  -- the pool: the dispatch returns. The records withdrawn are the contract's first in the index, as many
  -- as the limit says, or as the parameters allow where it is 0, or all when there are fewer. They are
  -- removed, and the contract itself gets what they hold, out of the pool, which backs those left.
  pub dispatch_msg-IsPaid :
      (s : State sdk) (contract : Bytes) (limit : ℕ)
      → IsIndexed sdk s
      → IsBacked sdk s
      → blocked_addr contract ≡ false
      → contract ≢ module_address contract_reward_collector
      → 0 < s.params.max_withdraw_records
      → limit ≤ s.params.max_withdraw_records
      → (rs : List (RewardsRecord Coins)) × (t : Coins) × (s' : State sdk) × (dispatch_msg sdk
            contract_admin parse_int valid_denom s contract
            (some (withdrawal limit))
          ≡ ok (some (t, length rs), s'))
        × IsPaid sdk contract s t s'
        × AreWithdrawn sdk s contract limit rs s'
  unfolding dispatch_msg validate_msg dispatch_to withdraw_contract_rewards validate_withdraw
      withdraw_by check_ids
  dispatch_msg-IsPaid s contract limit v backed free apart some_limit fits =
      let (rs, t, s', ran, paid, first) =
        withdraw_rewards_by_records_limit-IsPaid sdk s contract limit v backed free apart some_limit
          fits in
      (rs, t, s', rw ran refl, paid, first)

  set_contract_metadata-stores :
      (s : State sdk) (sender contract : Bytes) (updates : ContractMetadata) {s' : State sdk}
      → set_contract_metadata sdk contract_admin s sender contract updates ≡ ok s'
      → (m : ContractMetadata) × (get s'.contract_metadata contract ≡ some m)
        × (m.withdraw_to_wallet ≡ updates.withdraw_to_wallet)
  unfolding set_contract_metadata updated
  set_contract_metadata-stores s sender contract updates {s'} h =
      let old = get s.contract_metadata contract in
      let new =
        updated sdk contract_admin
          (base_metadata sdk contract_admin old (to_bech32 contract) (to_bech32 sender)) updates in
      elim (Option-cases (contract_admin contract)) [
        | inl bad ↦ ground (arith, h, bad)
        | inr (admin, found) ↦
            elim (Result-cases (check_rewards_address sdk contract_admin updates.rewards_address)) [
              | inl (u, e) ↦
                  elim (Result-cases (may_set sdk contract_admin old admin (to_bech32 sender))) [
                    | inl (w, f) ↦
                        let same : record s {
                          contract_metadata = set s.contract_metadata contract new;
                        }
                            ≡ s' =
                          ground (arith, h, found, e, f) in
                        (
                          new,
                          subst (λ (x : State sdk). get x.contract_metadata contract ≡ some new)
                              same (get-set_self s.contract_metadata contract new),
                          refl,
                        )
                    | inr bad ↦ ground (arith, h, found, e, bad)
                  ]
              | inr bad ↦ ground (arith, h, found, bad)
            ]
      ]

  -- A contract that updates metadata with a custom message, for itself or for the contract that the
  -- message names: whatever the stored metadata said before, rewards are no longer sent to the wallet.
  pub dispatch_msg-resets :
      (s : State sdk) (sender target : Bytes) (req : UpdateContractMetadataRequest)
      {r : Option (Coins × ℕ)} {s' : State sdk}
      → target_of sdk contract_admin parse_int valid_denom sender req ≡ ok target
      → dispatch_msg sdk contract_admin parse_int valid_denom s sender (some (update req))
        ≡ ok (r, s')
      → (m : ContractMetadata) × (get s'.contract_metadata target ≡ some m)
        × (m.withdraw_to_wallet ≡ false)
  unfolding dispatch_msg validate_msg dispatch_to update_contract_metadata metadata_to_sdk
  dispatch_msg-resets s sender target req {r} {s'} named h =
      elim (Result-cases (validate_update sdk contract_admin parse_int valid_denom req)) [
        | inl (u, e) ↦
            elim (Result-cases
              (set_contract_metadata sdk contract_admin s sender target (metadata_to_sdk req))) [
                | inl (s1, f) ↦
                    let same : s1 ≡ s' = ground (arith, h, e, named, f) in
                    subst
                      (λ (x : State sdk).
                        (m : ContractMetadata) × (get x.contract_metadata target ≡ some m)
                        × (m.withdraw_to_wallet ≡ false))
                      same (set_contract_metadata-stores s sender target (metadata_to_sdk req) f)
                | inr bad ↦ ground (arith, h, e, named, bad)
              ]
        | inr bad ↦ ground (arith, h, bad)
      ]
