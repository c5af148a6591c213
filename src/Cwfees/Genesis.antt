-- ===== src/Cwfees/Genesis.antt =====
-- The granters survive an export of the state, and a grant is bounded in gas.
use archway.Common.{
  ℕ, ◌≡◌, ◌≤◌, refl, subst, true, none, some, Option-cases, inl, inr, [], ◌∷◌, map, ok,
  Result-cases, arith, All, ◌||◌,
}
use archway.Common.Key.{Bytes, Text, bytes_key, bytes_eq_iff}
use archway.Common.Store.{Store, Keyed, has, get, set, get-set}
use archway.Sdk.{Sdk}
use archway.Pkg.Gas.{
  Run, finished, failed, out_of_gas, panicked, Outcome, execute_with_gas_limit, conclude,
}
use archway.Cwfees.Granters.{
  State, Keepers, Error, request_grant_gas_limit, min, register_as_granter, is_granting_contract,
  charge, accept, request_grant, import_state, export_state,
}

module _ (sdk : Sdk) (keepers : Keepers) where
  open sdk use {from_bech32, to_bech32}
  open keepers use {
    World, Failure, err_out_of_gas, has_contract_info, sudo, gas_remaining, consume_gas,
  }

  -- A granter is a contract, with an address that prints and parses.
  abbrev pub IsGranter : World → Bytes × Unit {0} → Type 0
  IsGranter w (a, u) = (has_contract_info w a ≡ true) × (from_bech32 (to_bech32 a) ≡ some a)

  registered :
      (s : State World) (a : Bytes)
      → has_contract_info s.world a ≡ true
      → get s.granting_contracts a ≡ none
      → register_as_granter sdk keepers s a
        ≡ ok (record s { granting_contracts = set s.granting_contracts a tt })
  unfolding register_as_granter
  registered s a is_contract new = ground (arith, is_contract, new)

  -- No entry of a part is in a store.
  abbrev Apart : Store Bytes (Unit {0}) → Store Bytes (Unit {0}) → Type 0
  Apart part m = All (λ (x : Bytes × Unit {0}). get m x.0 ≡ none) part

  Apart-set :
      (part m : Store Bytes (Unit {0})) (a : Bytes)
      → get part a ≡ none
      → Apart part m
      → Apart part (set m a tt)
  unfolding get
  Apart-set [] m a absent h = tt
  Apart-set ((b, u) ∷ part) m a absent (new, h) = (
    ground (arith, get-set m a tt b, bytes_eq_iff a b, bytes_eq_iff b a),
    Apart-set part m a (ground arith) h,
  )

  imported :
      (part : Store Bytes (Unit {0})) (s : State World)
      → Keyed part
      → All (IsGranter s.world) part
      → Apart part s.granting_contracts
      → (s' : State World) × (import_state sdk keepers s
            (map (λ (x : Bytes × Unit {0}). to_bech32 x.0) part)
          ≡ ok s')
        × ((a : Bytes) → has s'.granting_contracts a ≡ (has part a || has s.granting_contracts a))
        × (s'.world ≡ s.world)
  unfolding import_state get
  imported [] s keyed good apart = (s, refl, λ a. refl, refl)
  imported ((a, u) ∷ part) s (absent, keyed) ((is_contract, parses), good) (new, apart) =
      let t : State World = record s { granting_contracts = set s.granting_contracts a tt } in
      let (s', ran, has_all, same) =
        imported part t keyed good (Apart-set part s.granting_contracts a absent apart) in
      (
        s',
        rw (parses, registered s a is_contract new) ran,
        λ b. ground (
          arith,
          has_all b,
          get-set s.granting_contracts a tt b,
          bytes_eq_iff a b,
          bytes_eq_iff b a,
        ),
        same,
      )

  -- What is exported can be imported into a state without granters, and the same contracts then grant
  -- fees, when every granter is a contract and its address parses as it prints.
  pub import_state-export_state :
      (s : State World)
      → Keyed s.granting_contracts
      → All (IsGranter s.world) s.granting_contracts
      → (s' : State World) × (import_state sdk keepers
            (record s { granting_contracts = [] })
            (export_state sdk keepers s)
          ≡ ok s')
        × ((a : Bytes)
            → is_granting_contract sdk keepers s' a ≡ is_granting_contract sdk keepers s a)
  unfolding export_state is_granting_contract get
  import_state-export_state s keyed good =
      let (s', ran, has_all, _) =
        imported s.granting_contracts (record s { granting_contracts = [] }) keyed good
          (none_there s.granting_contracts) in
      (s', ran, λ a. ground (arith, has_all a))
    where
      none_there : (m : Store Bytes (Unit {0})) → Apart m []
      none_there [] = tt
      none_there (x ∷ m) = (refl, none_there m)

  granted :
      (r : Run Failure (State World)) (s : State World) {o : Outcome Failure} {s' : State World}
      → conclude {F = Error Failure} err_out_of_gas (charge sdk keepers) r s ≡ ok (o, s')
      → o.error ≡ none
      → (g : ℕ) × (t : State World) × (r ≡ finished g t) × (charge sdk keepers t g ≡ some s')
  unfolding conclude
  granted (finished g t) s h e = elim (Option-cases (charge sdk keepers t g)) [
    | inl bad ↦ ground arith
    | inr (c, f) ↦ (g, t, refl, ground (arith, f))
  ]
  granted (failed g f) s h e = ground arith
  granted (out_of_gas g) s h e = ground arith
  granted panicked s h e = ground arith

  accepted :
      (o : Outcome Failure) (u s' : State World)
      → accept sdk keepers o u ≡ ok s'
      → (o.error ≡ none) × (u ≡ s')
  unfolding accept
  accepted o u s' h = elim (Option-cases o.error) [
    | inl fine ↦ (fine, ground arith)
    | inr (e, bad) ↦ ground arith
  ]

  -- A grant is given only when the call of the contract ends well, under a limit that is at most the
  -- fixed one and at most the gas that is left; the gas of the call is then charged.
  pub request_grant-limited :
      (s : State World) (granter : Bytes) (msg : Text) {s' : State World}
      → request_grant sdk keepers s granter msg ≡ ok s'
      → (limit : ℕ) × (g : ℕ) × (t : State World) × (limit ≤ request_grant_gas_limit)
        × (limit ≤ gas_remaining s.world)
        × (sudo limit granter msg s ≡ finished g t)
        × (charge sdk keepers t g ≡ some s')
  unfolding request_grant execute_with_gas_limit
  request_grant-limited s granter msg {s'} h =
      let limit = min (gas_remaining s.world) request_grant_gas_limit in
      elim (Result-cases (
        conclude {F = Error Failure} err_out_of_gas (charge sdk keepers) (sudo limit granter msg s)
          s)) [
            | inr bad ↦ ground arith
            | inl ((o, u), ran) ↦
                let (fine, same) = accepted o u s' (ground arith) in
                let (g, t, run, charged) = granted (sudo limit granter msg s) s ran fine in
                (
                  limit,
                  g,
                  t,
                  ground arith,
                  ground arith,
                  run,
                  subst (λ z. charge sdk keepers t g ≡ some z) same charged,
                )
          ]
