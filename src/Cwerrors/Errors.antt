-- ===== src/Cwerrors/Errors.antt =====
-- The errors in the state (x/cwerrors/keeper/sudo_errors.go, x/cwerrors/types/types.go).
use archway.Common.{
  ℕ, ◌+◌, ◌%◌, ◌^◌, Bool, List, [], ◌∷◌, map, select, Result, ok, ◌>>=◌, ◌>>◌, or_fail, or_panic,
  require, reject, if◌then◌else◌,
}
use archway.Common.Key.{Bytes, ◌==◌, bytes_eq, bytes_key, nat_key}
use archway.Common.Store.{Store, get, set, has, remove}
use archway.Common.Int.{ℤ, ◌+ℤ◌, int_key}
use archway.Sdk.{Sdk}
use archway.Cwerrors.SudoError.{SudoError}
use archway.Cwerrors.State.{
  State, Keepers, Error, contract_error_key, deletion_key, contract_not_found, module_name_missing,
  invalid_address, params_not_found, not_found,
}

module _ (sdk : Sdk) (keepers : Keepers sdk) where
  open sdk use {from_bech32}
  open keepers use {World, has_contract_info}

  -- SudoError.Validate
  unfoldable pub validate : SudoError → Result Error (Unit {0})
  validate e = do
    contract ← or_fail (from_bech32 e.contract_address) invalid_address
    reject (bytes_eq e.module_name []) module_name_missing

  -- `k.ErrorID.Next`: the identifier, and the state with the next one.
  unfoldable pub next_error_id : State sdk World → ℕ × State sdk World
  next_error_id s = (s.error_id, record s { error_id = (s.error_id + 1) % 2 ^ 64 })

  unfoldable pub store_error_in_state :
      ℤ → State sdk World → Bytes → SudoError → Result Error (State sdk World)
  unfolding next_error_id
  store_error_in_state block_height s contract e = do
    let (error_id, s₁) = next_error_id s
    params ← or_fail s.params params_not_found
    let deletion_height = block_height +ℤ params.error_stored_time
    ok (record s₁ {
      contract_errors = set s.contract_errors (contract, error_id) tt;
      deletion_blocks = set s.deletion_blocks (deletion_height, error_id) tt;
      errors = set s.errors error_id e;
    })

  -- storeErrorCallback and SetSudoErrorCallback
  unfoldable pub store_error_callback : State sdk World → SudoError → State sdk World
  unfolding next_error_id
  store_error_callback s e =
      let (error_id, s₁) = next_error_id s in
      record s₁ { error_callbacks = set s.error_callbacks error_id e }

  unfoldable pub has_subscription : State sdk World → Bytes → Bool
  has_subscription s contract = has s.contract_subscriptions contract

  unfoldable pub set_error : ℤ → State sdk World → SudoError → Result Error (State sdk World)
  unfolding validate store_error_in_state store_error_callback has_subscription
  set_error block_height s e = do
    validate e
    contract ← or_panic (from_bech32 e.contract_address)
    require (has_contract_info s.world contract) contract_not_found
    if has_subscription s contract
        then ok (store_error_callback s e)
        else store_error_in_state block_height s contract e

  unfoldable pub errors_of :
      Store ℕ SudoError → List ((Bytes × ℕ) × Unit {0}) → Result Error (List SudoError)
  errors_of errors [] = ok []
  errors_of errors (((c, id), _) ∷ entries) =
      or_fail (get errors id) not_found >>= λ e. errors_of errors entries >>= λ es. ok (e ∷ es)

  -- GetErrorsByContractAddress: the walk over the entries of one contract.
  unfoldable pub get_errors_by_contract_address :
      State sdk World → Bytes → Result Error (List SudoError)
  unfolding errors_of
  get_errors_by_contract_address s contract =
      errors_of s.errors
        (select (λ (x : (Bytes × ℕ) × Unit {0}). x.0.0 == contract) s.contract_errors)

  unfoldable pub export_errors : State sdk World → List SudoError
  export_errors s = map (λ (x : ℕ × SudoError). x.1) s.errors

  -- One round of the loop of PruneErrorsCurrentBlock.
  unfoldable pub prune_error : ℤ → State sdk World → ℕ → Result Error (State sdk World)
  prune_error height s error_id = do
    e ← or_fail (get s.errors error_id) not_found
    contract ← or_panic (from_bech32 e.contract_address)
    ok (record s {
      errors = remove s.errors error_id;
      contract_errors = remove s.contract_errors (contract, error_id);
      deletion_blocks = remove s.deletion_blocks (height, error_id);
    })

  unfoldable pub prune_each : ℤ → State sdk World → List ℕ → Result Error (State sdk World)
  unfolding prune_error
  prune_each height s [] = ok s
  prune_each height s (id ∷ ids) = prune_error height s id >>= λ s'. prune_each height s' ids

  -- The identifiers that are queued for a height, in the order of the walk.
  abbrev pub due_ids : ℤ → Store (ℤ × ℕ) (Unit {0}) → List ℕ
  due_ids height blocks =
      map (λ (x : (ℤ × ℕ) × Unit {0}). x.0.1)
        (select (λ (x : (ℤ × ℕ) × Unit {0}). x.0.0 == height) blocks)

  unfoldable pub prune_errors_current_block : ℤ → State sdk World → Result Error (State sdk World)
  unfolding prune_each
  prune_errors_current_block height s = prune_each height s (due_ids height s.deletion_blocks)
