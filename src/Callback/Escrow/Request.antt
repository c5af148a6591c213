-- ===== src/Callback/Escrow/Request.antt =====
-- A request keeps the escrow: what it pays is what the new callback holds.
use archway.Common.{◌+◌, ◌≡◌, ◌≢◌, refl, ap, false, some, ok, arith}
use archway.Common.Key.{Text, Bytes}
use archway.Common.Store.{get, set, set-Keyed, total-set_new, All-set}
use archway.Common.Int.{ℤ}
use archway.Sdk.{Sdk, Coin, coin_amount}
use archway.Callback.State.{Callback, State, Keepers, callback_key, module_name, new_callback}
use archway.Callback.Fees.{send_to_callback_module}
use archway.Callback.Msgs.{MsgRequestCallback, request_callback}
use archway.Callback.Escrow.{split_amount, IsValid, HasModuleAccounts, IsOwnKey}
use archway.Callback.Escrow.Invert.{
  save_callback-IsSavedAt, is_authorized-blocked, requested, request_sum,
  request_callback-IsRequested,
}
use archway.Common.{none, ◌∙◌, Option-cases, inl, inr}
use archway.Sdk.Transfers.{balance-account_to_module}
use archway.Callback.State.{CallbackKey}

module _ (sdk : Sdk) (keepers : Keepers sdk) (accounts : HasModuleAccounts sdk) where
  open sdk use {account_to_module, from_bech32, balance, module_address, blocked_addr, of_coin}
  open keepers use {World}

  unblocked : (a : Bytes) → blocked_addr a ≡ false → a ≢ module_address module_name
  unblocked a free e = cc (accounts.blocked, ap blocked_addr e)

  -- The module account gains what an unblocked sender pays.
  pub balance-send_to :
      (s : State sdk World) (sender : Text) (a : Bytes) (fees : Coin) {s' : State sdk World}
      (d : Text)
      → from_bech32 sender ≡ some a
      → blocked_addr a ≡ false
      → send_to_callback_module sdk keepers s sender fees ≡ ok s'
      → (balance s'.bank (module_address module_name) d
          ≡ balance s.bank (module_address module_name) d + coin_amount fees d)
        × (s'.callbacks ≡ s.callbacks)
  unfolding send_to_callback_module
  balance-send_to s sender a fees d e free h =
      elim (Option-cases (account_to_module s.bank a module_name (of_coin fees))) [
        | inl failed ↦ ground arith
        | inr (b, sent) ↦ ground (
          arith,
          accounts.blocked,
          balance-account_to_module sdk s.bank a module_name fees b d (unblocked a free) sent,
        )
      ]

  -- After a saved callback the store holds it on top of what it held.
  saved-IsValid :
      (s : State sdk World) (key : CallbackKey) (cb : Callback) (s' : State sdk World)
      → IsValid sdk s
      → get s.callbacks key ≡ none
      → IsOwnKey sdk (key, cb)
      → s'.callbacks ≡ set s.callbacks key cb
      → ((d : Text)
          → balance s'.bank (module_address module_name) d
            ≡ balance s.bank (module_address module_name) d + split_amount cb.fee_split d)
      → IsValid sdk s'
  saved-IsValid s key cb s' v new own e paid = record {
    keyed = rw e (set-Keyed s.callbacks key cb v.keyed);
    own_keys = rw e (All-set (IsOwnKey sdk) s.callbacks key cb own v.own_keys);
    funded = λ d. rw e (
        omega (
          arith,
          paid d,
          v.funded d,
          total-set_new (λ k c. split_amount c.fee_split d) s.callbacks key cb new,
        ));
  }

  -- The parts of the fees, in any denomination.
  split_amount-requested :
      (r : MsgRequestCallback) (future block tx surplus : Coin) (d : Text)
      → (tx.denom ≡ r.fees.denom)
      → (block.denom ≡ r.fees.denom)
      → (future.denom ≡ r.fees.denom)
      → (surplus.denom ≡ r.fees.denom)
      → (tx.amount + block.amount + future.amount + surplus.amount ≡ r.fees.amount)
      → split_amount (requested sdk keepers r tx block future surplus).fee_split d
        ≡ coin_amount r.fees d
  unfolding new_callback
  split_amount-requested r future block tx surplus d e₁ e₂ e₃ e₄ sum = ground arith

  -- A request that is accepted in a valid state leaves a valid one: each callback stands once, under its
  -- own key, and the module account holds exactly what the pending callbacks have paid.
  pub request_callback-IsValid :
      (h : ℤ) (s : State sdk World) (r : MsgRequestCallback) {s' : State sdk World}
      → IsValid sdk s
      → request_callback sdk keepers h s r ≡ ok s'
      → IsValid sdk s'
  unfolding new_callback
  request_callback-IsValid h s r v e =
      let (
        future,
        block,
        tx,
        surplus,
        saved,
        (_, is_saved, sent, (partial, expected, e₁, e₂, _, e₃)),
      ) =
        request_callback-IsRequested sdk keepers h s r e in
      let (d₁, d₂, d₃, d₄, sum) =
        request_sum sdk keepers r.fees tx block future partial expected surplus e₁ e₂ e₃ in
      let cb = requested sdk keepers r tx block future surplus in
      let (c, p, (parsed, authorized, new, _, _, _, stored)) =
        save_callback-IsSavedAt sdk keepers h s cb is_saved in
      let (a, from, free) = is_authorized-blocked sdk keepers s c r.sender authorized in
      saved-IsValid s (r.callback_height, (c, r.job_id))
        (record cb { max_gas_limit = p.callback_gas_limit }) _ v new (parsed, refl, refl)
        ((balance-send_to saved r.sender a r.fees r.fees.denom from free sent).1
          ∙ ap (λ (t : State sdk World). t.callbacks) stored)
        (λ d. omega (
          arith,
          (balance-send_to saved r.sender a r.fees d from free sent).0,
          ap (λ (t : State sdk World). balance t.bank (module_address module_name) d) stored,
          split_amount-requested r future block tx surplus d d₁ d₂ d₃ d₄ sum,
        ))
