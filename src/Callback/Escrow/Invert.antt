-- ===== src/Callback/Escrow/Invert.antt =====
-- What a successful step of x/callback has found and done.
use archway.Common.{◌≡◌, true, false, none, some, ok, arith, length, Option-cases}
use archway.Common.Key.{Text, Bytes}
use archway.Common.Store.{get, set}
use archway.Common.Int.{ℤ, pos, leb_ℤ, int64}
use archway.Sdk.{Sdk, Coin}
use archway.Callback.State.{Params, Callback, State, Keepers, callback_key}
use archway.Callback.Reserve.{
  exists_callback, is_authorized_to_modify, save_callback, get_callbacks_by_height,
}
use archway.Common.{◌+◌, inl, inr, Result-cases}
use archway.Callback.State.{new_callback}
use archway.Callback.Fees.{estimate_callback_fees, send_to_callback_module}
use archway.Callback.Msgs.{MsgRequestCallback, request_callback}

module _ (sdk : Sdk) (keepers : Keepers sdk) where
  open sdk use {from_bech32, to_bech32, blocked_addr}
  open keepers use {World}

  -- A blocked address is never authorized.
  pub is_authorized-blocked :
      (s : State sdk World) (c : Bytes) (sender : Text)
      → is_authorized_to_modify sdk keepers s c sender ≡ ok true
      → (a : Bytes) × (from_bech32 sender ≡ some a) × (blocked_addr a ≡ false)
  unfolding is_authorized_to_modify
  is_authorized-blocked s c sender h = ground arith

  -- What a saved callback met, for the contract that its address denotes and the parameters.
  abbrev pub IsSavedAt :
      Bytes → Params sdk.Dec18 → ℤ → State sdk World → Callback → State sdk World → Type 0
  IsSavedAt contract params h s cb s' =
      (from_bech32 cb.contract_address ≡ some contract)
      × (is_authorized_to_modify sdk keepers s contract cb.reserved_by ≡ ok true)
      × (get s.callbacks (cb.callback_height, (contract, cb.job_id)) ≡ none)
      × (s.params ≡ some params)
      × (leb_ℤ (int64 params.max_block_reservation_limit)
            (pos (length (get_callbacks_by_height s.callbacks cb.callback_height)))
          ≡ false)
      × (leb_ℤ cb.callback_height h ≡ false)
      × (s' ≡ record s {
        callbacks =
            set s.callbacks (cb.callback_height, (contract, cb.job_id))
              (record cb { max_gas_limit = params.callback_gas_limit });
      })

  exists_callback-not :
      (s : State sdk World) (cb : Callback) (c : Bytes)
      → from_bech32 cb.contract_address ≡ some c
      → exists_callback sdk keepers s cb.callback_height (to_bech32 c) cb.job_id ≡ ok false
      → get s.callbacks (cb.callback_height, (c, cb.job_id)) ≡ none
  unfolding exists_callback
  exists_callback-not s cb c e h = ground (arith, sdk.from_bech32-to_bech32 cb.contract_address e)

  save_at :
      (h : ℤ) (s : State sdk World) (cb : Callback) (c : Bytes) (p : Params sdk.Dec18)
      {s' : State sdk World}
      → from_bech32 cb.contract_address ≡ some c
      → s.params ≡ some p
      → save_callback sdk keepers h s cb ≡ ok s'
      → IsSavedAt c p h s cb s'
  unfolding save_callback
  save_at h s cb c p parsed has_params e = ground (arith, exists_callback-not s cb c parsed)

  pub save_callback-IsSavedAt :
      (h : ℤ) (s : State sdk World) (cb : Callback) {s' : State sdk World}
      → save_callback sdk keepers h s cb ≡ ok s'
      → (c : Bytes) × (p : Params sdk.Dec18) × IsSavedAt c p h s cb s'
  unfolding save_callback
  save_callback-IsSavedAt h s cb e = elim (Option-cases (from_bech32 cb.contract_address)) [
    | inl bad ↦ ground arith
    | inr (c, parsed) ↦ elim (Option-cases s.params) [
      | inl bad ↦ ground arith
      | inr (p, has_params) ↦ (c, p, save_at h s cb c p parsed has_params e)
    ]
  ]

  -- The callback that a request saves.
  abbrev pub requested : MsgRequestCallback → Coin → Coin → Coin → Coin → Callback
  requested r tx_fee block_fee future_fee surplus =
      new_callback r.sender r.contract_address r.callback_height r.job_id tx_fee block_fee
        future_fee surplus

  -- The steps of a request that went through.
  abbrev pub IsRequested :
      ℤ
      → State sdk World
      → MsgRequestCallback
      → Coin
      → Coin
      → Coin
      → Coin
      → State sdk World
      → State sdk World
      → Type 0
  IsRequested h s r future_fee block_fee tx_fee surplus saved s' =
      (estimate_callback_fees sdk keepers h s r.callback_height
        ≡ ok (future_fee, block_fee, tx_fee))
      × (save_callback sdk keepers h s (requested r tx_fee block_fee future_fee surplus) ≡ ok saved)
      × (send_to_callback_module sdk keepers saved r.sender r.fees ≡ ok s')
      × ((partial : Coin) × (expected : Coin) × (sdk.coin_add tx_fee block_fee ≡ some partial)
          × (sdk.coin_add partial future_fee ≡ some expected)
          × (sdk.coin_is_lt r.fees expected ≡ some false)
          × (sdk.coin_sub r.fees expected ≡ some surplus))

  pub request_callback-IsRequested :
      (h : ℤ) (s : State sdk World) (r : MsgRequestCallback) {s' : State sdk World}
      → request_callback sdk keepers h s r ≡ ok s'
      → (future_fee : Coin) × (block_fee : Coin) × (tx_fee : Coin) × (surplus : Coin)
        × (saved : State sdk World) × IsRequested h s r future_fee block_fee tx_fee surplus saved s'
  unfolding request_callback
  request_callback-IsRequested h s r e =
      elim (Result-cases (estimate_callback_fees sdk keepers h s r.callback_height)) [
        | inr bad ↦ ground arith
        | inl ((future, block, tx), estimated) ↦ elim (Option-cases (sdk.coin_add tx block)) [
          | inl bad ↦ ground arith
          | inr (partial, e₁) ↦ elim (Option-cases (sdk.coin_add partial future)) [
            | inl bad ↦ ground arith
            | inr (expected, e₂) ↦ elim (Option-cases (sdk.coin_sub r.fees expected)) [
              | inl bad ↦ ground arith
              | inr (surplus, e₃) ↦
                  elim (Result-cases
                    (save_callback sdk keepers h s (requested r tx block future surplus))) [
                      | inr bad ↦ ground arith
                      | inl (saved, e₄) ↦ (
                        future,
                        block,
                        tx,
                        surplus,
                        saved,
                        (
                          estimated,
                          e₄,
                          ground arith,
                          (partial, expected, e₁, e₂, ground arith, e₃),
                        ),
                      )
                    ]
            ]
          ]
        ]
      ]

  -- The parts of the fees that a request pays add up to them, and are of one denomination.
  pub request_sum :
      (fees tx block future partial expected surplus : Coin)
      → sdk.coin_add tx block ≡ some partial
      → sdk.coin_add partial future ≡ some expected
      → sdk.coin_sub fees expected ≡ some surplus
      → (tx.denom ≡ fees.denom)
        × (block.denom ≡ fees.denom)
        × (future.denom ≡ fees.denom)
        × (surplus.denom ≡ fees.denom)
        × (tx.amount + block.amount + future.amount + surplus.amount ≡ fees.amount)
  request_sum fees tx block future partial expected surplus e f g = ground (
    arith,
    sdk.coin_add_some tx block e,
    sdk.coin_add_some partial future f,
    sdk.coin_sub_some fees expected g,
  )
