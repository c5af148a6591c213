-- ===== src/Callback/Escrow/Reentry.antt =====
-- A contract that cancels, in its own callback, the callback that is being executed.
use archway.Common.{◌+◌, ◌≡◌, ap, ◌∙◌, none, some, inl, inr, Result, ok, Result-cases, arith}
use archway.Common.Key.{Text, Bytes}
use archway.Common.Store.{get, remove, remove_absent}
use archway.Sdk.{Sdk, Coin}
use archway.Pkg.Gas.{Outcome, execute_with_gas_limit}
use archway.Callback.State.{
  Error, Callback, CallbackKey, State, Keepers, callback_key, callback_msg,
}
use archway.Callback.Exec.{refund_unused, charge, settle_error, callback_exec}
use archway.Callback.Escrow.{split_amount, escrow, IsValid, HasModuleAccounts}
use archway.Callback.Escrow.Payout.{held}
use archway.Callback.Escrow.Execute.{
  settle_error-Same, Refunded, refund_unused-Refunded, Collected, collect_fees-Collected,
}

module _ (sdk : Sdk) (keepers : Keepers sdk) (accounts : HasModuleAccounts sdk) where
  open sdk use {from_bech32}
  open keepers use {World, Failure, err_out_of_gas, sudo}

  -- The contract call of an execution.
  abbrev pub call :
      State sdk World → Callback → Bytes → Result Error (Outcome Failure × State sdk World)
  call s cb a =
      execute_with_gas_limit err_out_of_gas (charge sdk keepers) s cb.max_gas_limit
        λ limit t. sudo limit a (callback_msg cb.job_id) t

  pay_twice :
      (s₁ s₂ s₃ s' : State sdk World) (cb : Callback) (a : Bytes) (consumed : Coin) (d : Text)
      → from_bech32 cb.contract_address ≡ some a
      → IsValid sdk s₁
      → get s₁.callbacks (cb.callback_height, (a, cb.job_id)) ≡ none
      → (s₂.callbacks ≡ s₁.callbacks) × (s₂.bank ≡ s₁.bank)
      → Refunded sdk keepers accounts cb s₂ (consumed, s₃)
      → Collected sdk keepers accounts cb consumed s₃ s'
      → held sdk keepers accounts s' d + split_amount cb.fee_split d ≡ escrow s'.callbacks d
  pay_twice s₁ s₂ s₃ s' cb a consumed d parsed v gone (same_callbacks, same_bank) (refunded, same)
        (c, parsed', collected, taken) =
      let at : a ≡ c = ground (arith, parsed, parsed') in
      let e : s'.callbacks ≡ s₁.callbacks =
        taken
        ∙ ap (λ m. remove m (cb.callback_height, (c, cb.job_id))) (same ∙ same_callbacks)
        ∙ remove_absent s₁.callbacks (cb.callback_height, (c, cb.job_id)) (rw (← at) gone) in
      omega (
        arith,
        refunded d,
        collected d,
        ap (λ b. sdk.balance b (sdk.module_address (archway.Callback.State.module_name)) d)
            same_bank,
        v.funded d,
        ap (λ m. escrow m d) e,
      )

  -- When the call of the contract has canceled the callback that is being executed, and has left the
  -- module account exactly funded, an execution that goes through pays the fees of the callback a
  -- second time: what the module account then lacks is what the callback had paid.
  pub callback_exec-reentry :
      (s s₁ : State sdk World) (cb : Callback) (a : Bytes) {o : Outcome Failure}
      {s' : State sdk World} (d : Text)
      → from_bech32 cb.contract_address ≡ some a
      → call s cb a ≡ ok (o, s₁)
      → IsValid sdk s₁
      → get s₁.callbacks (cb.callback_height, (a, cb.job_id)) ≡ none
      → callback_exec sdk keepers s cb ≡ ok s'
      → held sdk keepers accounts s' d + split_amount cb.fee_split d ≡ escrow s'.callbacks d
  unfolding callback_exec
  callback_exec-reentry s s₁ cb a {o} {s'} d parsed ran v gone h =
      elim (Result-cases (settle_error sdk keepers cb o s₁)) [
        | inr bad ↦ ground arith
        | inl ((gas, s₂), settled) ↦ elim (Result-cases (refund_unused sdk keepers cb gas s₂)) [
          | inr bad ↦ ground arith
          | inl ((consumed, s₃), refunded) ↦
              pay_twice s₁ s₂ s₃ s' cb a consumed d parsed v gone
                (settle_error-Same sdk keepers accounts cb o s₁ settled)
                (refund_unused-Refunded sdk keepers accounts cb gas s₂ refunded)
                (collect_fees-Collected sdk keepers accounts cb consumed s₃ s' (ground arith))
        ]
      ]
