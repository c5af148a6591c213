-- ===== src/Callback/Escrow/Execute.antt =====
-- Executing a callback pays out what it had paid in.
use archway.Common.{
  ℕ, ◌+◌, ◌≡◌, ◌⊎◌, refl, ◌∙◌, some, Option-cases, inl, inr, Bool-cases, ok, Result-cases, arith,
}
use archway.Common.Key.{Text, Bytes}
use archway.Common.Store.{get, remove}
use archway.Sdk.{Sdk, Coin, coin_amount}
use archway.Sdk.Transfers.{coin_amount-coin_add, coin_amount-coin_sub}
use archway.Common.Int.{ℤ}
use archway.Pkg.Gas.{
  Run, finished, failed, out_of_gas, panicked, Outcome, conclude, execute_with_gas_limit,
}
use archway.Callback.State.{Error, Callback, CallbackKey, State, Keepers, callback_key}
use archway.Callback.Fees.{
  send_to_fee_collector, refund_from_callback_module, calculate_transaction_fees,
}
use archway.Callback.Exec.{pay_refund, refund_unused, collect_fees, charge, settle_error}
use archway.Callback.Escrow.{split_amount, IsValid, HasModuleAccounts}
use archway.Callback.Escrow.Payout.{held, send_to_fee_collector-Pays, refund-Pays}

module _ (sdk : Sdk) (keepers : Keepers sdk) (accounts : HasModuleAccounts sdk) where
  open sdk use {from_bech32, coin_add, coin_sub, coin_is_lt}
  open keepers use {World, Failure, err_out_of_gas, sudo}

  -- The amount for the collector is the reservation fees, the surplus and the consumed fees.
  collect_at :
      (cb : Callback) (consumed x y z : Coin) (s t : State sdk World) (c : Bytes)
      (s' : State sdk World)
      → coin_add cb.fee_split.block_reservation_fees cb.fee_split.future_reservation_fees ≡ some x
      → coin_add x cb.fee_split.surplus_fees ≡ some y
      → coin_add y consumed ≡ some z
      → send_to_fee_collector sdk keepers s z ≡ ok t
      → from_bech32 cb.contract_address ≡ some c
      → collect_fees sdk keepers cb consumed s ≡ ok s'
      → ((d : Text)
          → held sdk keepers accounts s' d + split_amount cb.fee_split d + coin_amount consumed d
            ≡ held sdk keepers accounts s d + coin_amount cb.fee_split.transaction_fees d)
        × (s'.callbacks ≡ remove s.callbacks (cb.callback_height, (c, cb.job_id)))
  unfolding collect_fees
  collect_at cb consumed x y z s t c s' e₁ e₂ e₃ sent parsed h =
      let (paid, same) = send_to_fee_collector-Pays sdk keepers accounts s z t sent in
      (
        λ d. ground (
          arith,
          paid d,
          coin_amount-coin_add sdk cb.fee_split.block_reservation_fees
              cb.fee_split.future_reservation_fees x d e₁,
          coin_amount-coin_add sdk x cb.fee_split.surplus_fees y d e₂,
          coin_amount-coin_add sdk y consumed z d e₃,
        ),
        ground (arith, same),
      )

  abbrev pub Collected : Callback → Coin → State sdk World → State sdk World → Type 0
  Collected cb consumed s s' =
      (c : Bytes) × (from_bech32 cb.contract_address ≡ some c)
      × ((d : Text)
          → held sdk keepers accounts s' d + split_amount cb.fee_split d + coin_amount consumed d
            ≡ held sdk keepers accounts s d + coin_amount cb.fee_split.transaction_fees d)
      × (s'.callbacks ≡ remove s.callbacks (cb.callback_height, (c, cb.job_id)))

  pub collect_fees-Collected :
      (cb : Callback) (consumed : Coin) (s s' : State sdk World)
      → collect_fees sdk keepers cb consumed s ≡ ok s'
      → Collected cb consumed s s'
  unfolding collect_fees
  collect_fees-Collected cb consumed s s' h =
      elim (Option-cases
        (coin_add cb.fee_split.block_reservation_fees cb.fee_split.future_reservation_fees)) [
          | inl bad ↦ ground arith
          | inr (x, e₁) ↦ elim (Option-cases (coin_add x cb.fee_split.surplus_fees)) [
            | inl bad ↦ ground arith
            | inr (y, e₂) ↦ elim (Option-cases (coin_add y consumed)) [
              | inl bad ↦ ground arith
              | inr (z, e₃) ↦ elim (Result-cases (send_to_fee_collector sdk keepers s z)) [
                | inr bad ↦ ground arith
                | inl (t, sent) ↦ elim (Option-cases (from_bech32 cb.contract_address)) [
                  | inl bad ↦ ground arith
                  | inr (c, parsed) ↦
                      let (a, b) = collect_at cb consumed x y z s t c s' e₁ e₂ e₃ sent parsed h in
                      (c, parsed, a, b)
                ]
              ]
            ]
          ]
        ]

  -- What is refunded is the part of the transaction fees that was not consumed.
  abbrev pub Refunded : Callback → State sdk World → Coin × State sdk World → Type 0
  Refunded cb s (consumed, s') =
      ((d : Text)
        → held sdk keepers accounts s' d + coin_amount cb.fee_split.transaction_fees d
          ≡ held sdk keepers accounts s d + coin_amount consumed d)
      × (s'.callbacks ≡ s.callbacks)

  pay_refund-Refunded :
      (cb : Callback) (consumed : Coin) (s : State sdk World) {r : Coin × State sdk World}
      → pay_refund sdk keepers cb consumed s ≡ ok r
      → Refunded cb s r
  unfolding pay_refund
  pay_refund-Refunded cb consumed s {r} h =
      elim (Option-cases (coin_sub cb.fee_split.transaction_fees consumed)) [
        | inl bad ↦ ground arith
        | inr (x, e) ↦
            elim (Result-cases (refund_from_callback_module sdk keepers s cb.reserved_by x)) [
              | inr bad ↦ ground arith
              | inl (t, sent) ↦
                  let (paid, same) = refund-Pays sdk keepers accounts s cb.reserved_by x t sent in
                  (
                    λ d. ground (
                      arith,
                      paid d,
                      coin_amount-coin_sub sdk cb.fee_split.transaction_fees consumed x d e,
                    ),
                    ground (arith, same),
                  )
            ]
      ]

  pub refund_unused-Refunded :
      (cb : Callback) (gas : ℕ) (s : State sdk World) {r : Coin × State sdk World}
      → refund_unused sdk keepers cb gas s ≡ ok r
      → Refunded cb s r
  unfolding refund_unused
  refund_unused-Refunded cb gas s {r} h =
      elim (Result-cases (calculate_transaction_fees sdk keepers s.world gas)) [
        | inr bad ↦ ground arith
        | inl (consumed, e) ↦
            elim (Option-cases (coin_is_lt consumed cb.fee_split.transaction_fees)) [
              | inl bad ↦ ground arith
              | inr (less, f) ↦ elim (Bool-cases less) [
                | inl yes' ↦ pay_refund-Refunded cb consumed s {r = r} (ground arith)
                | inr no' ↦ (λ d. ground arith, ground arith)
              ]
            ]
      ]

  -- The state after a run is that of the caller or that of the callee, but for the world.
  abbrev pub Same : State sdk World → State sdk World → Type 0
  Same s s' = (s'.callbacks ≡ s.callbacks) × (s'.bank ≡ s.bank)

  pub settle_error-Same :
      (cb : Callback) (o : Outcome Failure) (s : State sdk World) {g : ℕ} {s' : State sdk World}
      → settle_error sdk keepers cb o s ≡ ok (g, s')
      → Same s s'
  unfolding settle_error
  settle_error-Same cb o s h = ground arith

  charge-Same :
      (s : State sdk World) (g : ℕ) {s' : State sdk World}
      → charge sdk keepers s g ≡ some s'
      → Same s s'
  unfolding charge
  charge-Same s g h = ground arith

  -- Of a run that ends well the state is kept, of any other that of the caller.
  conclude-Same :
      (r : Run Failure (State sdk World)) (s : State sdk World) {o : Outcome Failure}
      {s' : State sdk World}
      → conclude {F = Error} err_out_of_gas (charge sdk keepers) r s ≡ ok (o, s')
      → Same s s' ⊎ ((g : ℕ) × (t : State sdk World) × (r ≡ finished g t) × Same t s')
  unfolding conclude
  conclude-Same (finished g t) s h = elim (Option-cases (charge sdk keepers t g)) [
    | inl bad ↦ ground arith
    | inr (c, e) ↦ inr (g, t, refl, ground (arith, charge-Same t g e))
  ]
  conclude-Same (failed g f) s h = elim (Option-cases (charge sdk keepers s g)) [
    | inl bad ↦ ground arith
    | inr (c, e) ↦ inl (ground (arith, charge-Same s g e))
  ]
  conclude-Same (out_of_gas g) s h = elim (Option-cases (charge sdk keepers s g)) [
    | inl bad ↦ ground arith
    | inr (c, e) ↦ inl (ground (arith, charge-Same s g e))
  ]
  conclude-Same panicked s h = cc

  IsValid-Same : (s s' : State sdk World) → Same s s' → IsValid sdk s → IsValid sdk s'
  IsValid-Same s s' (e, f) v = record {
    keyed = rw e v.keyed;
    own_keys = rw e v.own_keys;
    funded = λ d. rw (e, f) (v.funded d);
  }

  -- A contract that is called leaves the invariant as it finds it, and neither cancels nor adds a
  -- callback that is due in the block.
  pub record KeepsDue (height : ℤ) : Type 0 where
    pub keeps_valid :
        (limit : ℕ) (a : Bytes) (msg : Text) (t t' : State sdk World) (g : ℕ)
        → IsValid sdk t
        → sudo limit a msg t ≡ finished g t'
        → IsValid sdk t'
    pub keeps_due :
        (limit : ℕ) (a : Bytes) (msg : Text) (t t' : State sdk World) (g : ℕ) (key : CallbackKey)
        → key.0 ≡ height
        → sudo limit a msg t ≡ finished g t'
        → get t'.callbacks key ≡ get t.callbacks key

  module _ (height : ℤ) (well : KeepsDue height) where
    abbrev pub Kept : State sdk World → State sdk World → Type 0
    Kept s s' =
        (IsValid sdk s → IsValid sdk s')
        × ((key : CallbackKey) → key.0 ≡ height → get s'.callbacks key ≡ get s.callbacks key)

    pub Kept-Same : (s s' : State sdk World) → Same s s' → Kept s s'
    Kept-Same s s' e = (IsValid-Same s s' e, λ key h. rw e.0 refl)

    pub Kept-trans : (s t u : State sdk World) → Kept s t → Kept t u → Kept s u
    Kept-trans s t u (a, b) (c, d) = (λ v. c (a v), λ key h. d key h ∙ b key h)

    -- The call of the contract.
    pub call-Kept :
        (s : State sdk World) (limit : ℕ) (a : Bytes) (msg : Text) {o : Outcome Failure}
        {s' : State sdk World}
        → execute_with_gas_limit {F = Error} err_out_of_gas
            (charge sdk keepers)
            s
            limit
            (λ l t. sudo l a msg t)
          ≡ ok (o, s')
        → Kept s s'
    unfolding execute_with_gas_limit
    call-Kept s limit a msg {s' = s'} h = elim (conclude-Same (sudo limit a msg s) s h) [
      | inl same ↦ Kept-Same s s' same
      | inr (g, t, ended, same) ↦
          Kept-trans s t s'
            (
              λ v. well.keeps_valid limit a msg s t g v ended,
              λ key h. well.keeps_due limit a msg s t g key h ended,
            )
            (Kept-Same t s' same)
    ]
