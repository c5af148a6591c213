-- ===== src/Wasmbinding/Tests.antt =====
-- Custom messages of contracts at the small SDK.
use archway.Common.{
  List, length, ℕ, Bool, ◌≡◌, ◌≢◌, refl, true, false, Option, none, some, [], ok, arith, value_or,
}
use archway.Common.Key.{Text, bytes_eq, bytes_lt, bytes_key}
use archway.Common.Store.{get, set, add_new, remove}
use archway.Common.Str.{codes}
use archway.Common.Int.{ℤ}
use archway.Sim.Instance.{sim, parse}
use archway.Rewards.State.{RewardsRecord, ContractMetadata, State, contract_reward_collector}
use archway.Rewards.Metadata.{
  set_contract_metadata, check_rewards_address, may_set, base_metadata, updated,
}
use archway.Rewards.Msgs.{parses}
use archway.Rewards.Payment.{IsPaid}
use archway.Rewards.Tests.{dapp, filled, filled-IsIndexed, filled-IsBacked, admin_of, described}
use archway.Wasmbinding.Msgs.{
  UpdateContractMetadataRequest, validate_msg, validate_update, parses_if_set, target_of,
  metadata_to_sdk, update_contract_metadata, dispatch_to, dispatch_msg,
}
use archway.Rewards.Withdraw.{AreWithdrawn}
use archway.Wasmbinding.Dispatch.{withdrawal, update, dispatch_msg-IsPaid, dispatch_msg-resets}

abbrev no_int : Text → Option ℤ
no_int s = none

abbrev any_denom : Text → Bool
any_denom d = true

dapp_apart : dapp ≢ contract_reward_collector
dapp_apart e = ground (arith, e)

dispatch_msg-IsPaid_example :
    (rs : List (RewardsRecord sim.Coins)) × (t : sim.Coins) × (s' : State sim) × (dispatch_msg sim
        admin_of no_int any_denom filled dapp
        (some (withdrawal sim admin_of no_int any_denom 3))
      ≡ ok (some (t, length rs), s'))
    × IsPaid sim dapp filled t s'
    × AreWithdrawn sim filled dapp 3 rs s'
unfolding bytes_eq
dispatch_msg-IsPaid_example =
    dispatch_msg-IsPaid sim admin_of no_int any_denom filled dapp 3 filled-IsIndexed filled-IsBacked
      refl dapp_apart (omega arith) (omega arith)

-- The owner of a contract, which is paid to its wallet, changes the rewards address.
abbrev change : UpdateContractMetadataRequest
change = record {
  contract_address = codes "c";
  owner_address = [];
  rewards_address = codes "other";
}

abbrev changed : Option (sim.Coins × ℕ) × State sim
changed =
    value_or (none, described)
      (dispatch_msg sim admin_of no_int any_denom described (codes "admin")
        (some (update sim admin_of no_int any_denom change)))

is_target : target_of sim admin_of no_int any_denom (codes "admin") change ≡ ok (codes "c")
unfolding target_of parse bytes_eq
is_target = refl

is_changed :
    dispatch_msg sim admin_of no_int any_denom described
      (codes "admin")
      (some (update sim admin_of no_int any_denom change))
    ≡ ok (changed.0, changed.1)
unfolding dispatch_msg validate_msg dispatch_to update_contract_metadata validate_update
    parses_if_set parses target_of metadata_to_sdk set_contract_metadata check_rewards_address
    may_set base_metadata updated parse bytes_eq bytes_lt get set add_new remove
is_changed = refl

dispatch_msg-resets_example :
    (m : ContractMetadata) × (get changed.1.contract_metadata (codes "c") ≡ some m)
    × (m.withdraw_to_wallet ≡ false)
dispatch_msg-resets_example =
    dispatch_msg-resets sim admin_of no_int any_denom described (codes "admin") (codes "c") change
      is_target is_changed
