-- ===== src/Cwica/Reports.antt =====
-- A packet that fails or times out is an error of the contract that owns its port.
use archway.Common.{◌+◌, ◌^◌, ◌<◌, ◌≡◌, true, some}
use archway.Common.Key.{Bytes, nat_key}
use archway.Common.Int.{ℤ}
use archway.Sdk.{Sdk}
use archway.Cwerrors.SudoError.{SudoError}
use archway.Cwerrors.State as Errors
use archway.Cwerrors.Queue.{IsQueued}
use archway.Cwerrors.Stored.{IsKept}
use archway.Cwica.State.{State, Keepers}

module _ (sdk : Sdk) (errors : Errors.Keepers sdk) (keepers : Keepers sdk errors) where
  open sdk use {from_bech32, to_bech32}
  open errors use {World, has_contract_info}
  open keepers use {Channels, Packet, AnyMsg, source_port, parse_acknowledgement}

  -- The state of x/cwerrors is in order, with parameters and room for an identifier, and knows a contract.
  pub record CanReport (s : State sdk World Channels) (c : Bytes) (p : Errors.Params) : Type 0 where
    pub queued : IsQueued sdk errors s.cwerrors
    pub has_params : s.cwerrors.params ≡ some p
    pub fits : s.cwerrors.error_id + 1 < 2 ^ 64
    pub known : has_contract_info s.cwerrors.world c ≡ true

  -- The report of an error changes x/cwerrors alone, which keeps the error.
  abbrev pub Reported :
      ℤ
      → State sdk World Channels
      → Errors.Params
      → Bytes
      → SudoError
      → State sdk World Channels
      → Type 0
  Reported h s p c e s' =
      (s'.channels ≡ s.channels)
      × (s'.params ≡ s.params)
      × IsQueued sdk errors s'.cwerrors
      × ((c' : Bytes) × (from_bech32 e.contract_address ≡ some c')
          × IsKept sdk errors h p s.cwerrors e c' s'.cwerrors)
