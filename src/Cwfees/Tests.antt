-- ===== src/Cwfees/Tests.antt =====
-- A granter at the small SDK.
use archway.Common.{ℕ, ◌+◌, ◌≡◌, ◌≤◌, refl, true, some, [], ◌∷◌, ok}
use archway.Common.Key.{Text, Bytes, bytes_key}
use archway.Common.Store.{get}
use archway.Common.Str.{codes}
use archway.Pkg.Gas.{finished, conclude, execute_with_gas_limit}
use archway.Sim.Instance.{sim, parse}
use archway.Cwfees.Granters.{
  State, Keepers, charge, accept, request_grant, request_grant_gas_limit, is_granting_contract,
  import_state, export_state,
}
use archway.Cwfees.Genesis.{import_state-export_state, request_grant-limited}

-- Contracts that accept every request, for 5 units of gas.
abbrev generous : Keepers
generous = record {
  World = ℕ;
  Failure = Text;
  err_out_of_gas = codes "out of gas";
  has_contract_info = λ w a. true;
  sudo = λ limit a msg s. finished 5 s;
  gas_remaining = λ w. 80;
  consume_gas = λ w g. some (w + g);
}

abbrev one : State ℕ
one = record { granting_contracts = (codes "c", tt) ∷ []; world = 0 }

import_state-export_state_example :
    (s' : State ℕ) × (import_state sim generous
        (record one { granting_contracts = [] })
        (export_state sim generous one)
      ≡ ok s')
    × ((a : Bytes)
        → is_granting_contract sim generous s' a ≡ is_granting_contract sim generous one a)
unfolding parse get
import_state-export_state_example =
    import_state-export_state sim generous one (refl, tt) ((refl, refl), tt)

is_granted : request_grant sim generous one (codes "c") [] ≡ ok (record one { world = 5 })
unfolding request_grant execute_with_gas_limit conclude charge accept
is_granted = refl

request_grant-limited_example :
    (limit : ℕ) × (g : ℕ) × (t : State ℕ) × (limit ≤ request_grant_gas_limit)
    × (limit ≤ 80)
    × (generous.sudo limit (codes "c") [] one ≡ finished g t)
    × (charge sim generous t g ≡ some (record one { world = 5 }))
request_grant-limited_example = request_grant-limited sim generous one (codes "c") [] is_granted
