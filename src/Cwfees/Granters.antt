-- ===== src/Cwfees/Granters.antt =====
-- The contracts that grant fees (x/cwfees/keeper.go and x/cwfees/msg_server.go).
use archway.Common.{
  ℕ, Bool, Option, none, some, List, [], ◌∷◌, map, leb, Result, ok, err, ◌>>=◌, ◌>>◌, or_fail,
  require, reject, if◌then◌else◌,
}
use archway.Common.Key.{Bytes, Text, bytes_key}
use archway.Common.Store.{Store, has, set, remove}
use archway.Sdk.{Sdk}
use archway.Pkg.Gas.{Run, Outcome, execute_with_gas_limit}

-- GrantingContracts is a set of keys; the world is the state of the other modules and the gas meter.
pub record State (World : Type 0) : Type 0 where
  pub granting_contracts : Store Bytes (Unit {0})
  pub world : World

-- What the module calls of x/wasm and of the gas meter.
pub record Keepers : Type 1 where
  pub World : Type 0
  pub Failure : Type 0
  pub err_out_of_gas : Failure
  pub has_contract_info : World → Bytes → Bool
  pub sudo : ℕ → Bytes → Text → State World → Run Failure (State World)
  pub gas_remaining : World → ℕ
  pub consume_gas : World → ℕ → Option World

-- The error values of x/cwfees/types/errors.go, and the errors of a contract.
pub data Error (Failure : Type 0) : Type 0 where
  not_a_contract already_granter not_a_granter invalid_address : Error Failure
  contract_error : Failure → Error Failure

-- RequestGrantGasLimit
abbrev pub request_grant_gas_limit : ℕ
request_grant_gas_limit = 100000

-- `min`
abbrev pub min : ℕ → ℕ → ℕ
min a b = if leb a b then a else b

module _ (sdk : Sdk) (keepers : Keepers) where
  open sdk use {from_bech32, to_bech32}
  open keepers use {World, Failure, err_out_of_gas, has_contract_info, sudo, gas_remaining}

  unfoldable pub is_granting_contract : State World → Bytes → Bool
  is_granting_contract s granter = has s.granting_contracts granter

  unfoldable pub register_as_granter : State World → Bytes → Result (Error Failure) (State World)
  unfolding is_granting_contract
  register_as_granter s granter = do
    require (has_contract_info s.world granter) not_a_contract
    reject (is_granting_contract s granter) already_granter
    ok (record s { granting_contracts = set s.granting_contracts granter tt })

  unfoldable pub unregister_as_granter : State World → Bytes → Result (Error Failure) (State World)
  unfolding is_granting_contract
  unregister_as_granter s granter = do
    require (is_granting_contract s granter) not_a_granter
    ok (record s { granting_contracts = remove s.granting_contracts granter })

  -- The message handlers parse the address of the contract.
  unfoldable pub msg_register_as_granter : State World → Text → Result (Error Failure) (State World)
  unfolding register_as_granter
  msg_register_as_granter s granting_contract =
      or_fail (from_bech32 granting_contract) invalid_address >>= λ granter.
      register_as_granter s granter

  unfoldable pub msg_unregister_as_granter :
      State World → Text → Result (Error Failure) (State World)
  unfolding unregister_as_granter
  msg_unregister_as_granter s granting_contract =
      or_fail (from_bech32 granting_contract) invalid_address >>= λ granter.
      unregister_as_granter s granter

  unfoldable pub charge : State World → ℕ → Option (State World)
  charge s gas = elim (keepers.consume_gas s.world gas) [
    | none ↦ none
    | some w ↦ some (record s { world = w })
  ]

  -- The error of the call, if it has one.
  unfoldable pub accept : Outcome Failure → State World → Result (Error Failure) (State World)
  accept outcome s = elim outcome.error [ none ↦ ok s | some e ↦ err (contract_error e) ]

  -- RequestGrant, on the encoded message.
  unfoldable pub request_grant : State World → Bytes → Text → Result (Error Failure) (State World)
  unfolding charge accept
  request_grant s granting_contract msg_bytes =
      let gas_limit_to_use = min (gas_remaining s.world) request_grant_gas_limit in
      execute_with_gas_limit err_out_of_gas charge s gas_limit_to_use
        (λ limit t. sudo limit granting_contract msg_bytes t)
      >>= λ r. accept r.0 r.1

  unfoldable pub import_state : State World → List Text → Result (Error Failure) (State World)
  unfolding register_as_granter
  import_state s [] = ok s
  import_state s (addr_str ∷ addrs) = or_fail (from_bech32 addr_str) invalid_address >>= λ addr.
      register_as_granter s addr >>= λ s'. import_state s' addrs

  unfoldable pub export_state : State World → List Text
  export_state s = map (λ (x : Bytes × Unit {0}). to_bech32 x.0) s.granting_contracts
