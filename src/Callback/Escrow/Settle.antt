-- ===== src/Callback/Escrow/Settle.antt =====
-- A cancellation that may happen does happen: the module account can always pay it.
use archway.Common.{◌+◌, ◌≡◌, ◌≤◌, true, false, some, Option-cases, inl, inr, ok, arith}
use archway.Common.Key.{Text, Bytes}
use archway.Common.Store.{get, remove, total-ge, All-get}
use archway.Sdk.{Sdk, Coin, coin_amount}
use archway.Sdk.Transfers.{coin_amount-coin_add}
use archway.Callback.State.{Callback, State, Keepers, callback_key, module_name, fee_collector_name}
use archway.Callback.Reserve.{get_callback, delete_callback, is_authorized_to_modify}
use archway.Callback.Fees.{send_to_fee_collector, refund_from_callback_module}
use archway.Callback.Msgs.{MsgCancelCallback, cancel_callback}
use archway.Callback.Escrow.{split_amount, IsValid, HasModuleAccounts, IsOwnKey}
use archway.Callback.Escrow.Invert.{is_authorized-blocked}
use archway.Callback.Escrow.Payout.{held, refund-Pays}

module _ (sdk : Sdk) (keepers : Keepers sdk) (accounts : HasModuleAccounts sdk) where
  open sdk use {
    from_bech32, coin_add, blocked_addr, of_coin, module_to_account, module_to_module,
    module_address,
  }
  open keepers use {World}

  abbrev Affords : State sdk World → Coin → Type 0
  Affords s c = (d : Text) → coin_amount c d ≤ held sdk keepers accounts s d

  collector_paid :
      (s : State sdk World) (c : Coin)
      → Affords s c
      → (s' : State sdk World) × (send_to_fee_collector sdk keepers s c ≡ ok s')
  unfolding send_to_fee_collector
  collector_paid s c enough =
      elim (Option-cases (module_to_module s.bank module_name fee_collector_name (of_coin c))) [
        | inl failed ↦ absurd (
            sdk.module_to_module_funded s.bank module_name fee_collector_name (of_coin c)
              (λ d. rw (sdk.amount_of-of_coin c d) (enough d)) failed)
        | inr (b, sent) ↦ (record s { bank = b }, ground arith)
      ]

  refund_paid :
      (s : State sdk World) (recipient : Text) (a : Bytes) (c : Coin)
      → from_bech32 recipient ≡ some a
      → blocked_addr a ≡ false
      → Affords s c
      → (s' : State sdk World) × (refund_from_callback_module sdk keepers s recipient c ≡ ok s')
  unfolding refund_from_callback_module
  refund_paid s recipient a c parsed free enough =
      elim (Option-cases (module_to_account s.bank module_name a (of_coin c))) [
        | inl failed ↦ absurd (
            sdk.module_to_account_funded s.bank module_name a (of_coin c) free
              (λ d. rw (sdk.amount_of-of_coin c d) (enough d)) failed)
        | inr (b, sent) ↦ (record s { bank = b }, ground arith)
      ]

  -- The state from which a callback is gone.
  abbrev without : State sdk World → Callback → Bytes → State sdk World
  without s cb c = record s { callbacks = remove s.callbacks (cb.callback_height, (c, cb.job_id)) }

  deleted :
      (s : State sdk World) (sender : Text) (cb : Callback) (c : Bytes)
      → from_bech32 cb.contract_address ≡ some c
      → is_authorized_to_modify sdk keepers s c sender ≡ ok true
      → delete_callback sdk keepers s sender cb ≡ ok (without s cb c)
  unfolding delete_callback
  deleted s sender cb c parsed authorized = ground arith

  -- In a valid state the callback that a request names is canceled, when its sender is authorized, and the callback has
  -- paid its transaction fees and its surplus in one denomination and its reservation fees in one.
  pub cancel_callback-succeeds :
      (s : State sdk World) (r : MsgCancelCallback) (cb : Callback) (c : Bytes)
      → IsValid sdk s
      → from_bech32 r.contract_address ≡ some c
      → get s.callbacks (r.callback_height, (c, r.job_id)) ≡ some cb
      → is_authorized_to_modify sdk keepers s c r.sender ≡ ok true
      → cb.fee_split.transaction_fees.denom ≡ cb.fee_split.surplus_fees.denom
      → cb.fee_split.block_reservation_fees.denom ≡ cb.fee_split.future_reservation_fees.denom
      → (s' : State sdk World) × (refund : Coin) × (cancel_callback sdk keepers s r
          ≡ ok (s', refund))
  unfolding cancel_callback get_callback
  cancel_callback-succeeds s r cb c v parsed found authorized same_refund same_fees =
      let f = cb.fee_split in
      let (own, _, _) =
        All-get (IsOwnKey sdk) s.callbacks (r.callback_height, (c, r.job_id)) cb v.own_keys found in
      let (a, from, free) = is_authorized-blocked sdk keepers s c r.sender authorized in
      let refund : Coin = record f.transaction_fees {
        amount = f.transaction_fees.amount + f.surplus_fees.amount;
      } in
      let fees : Coin = record f.block_reservation_fees {
        amount = f.block_reservation_fees.amount + f.future_reservation_fees.amount;
      } in
      let e₁ = sdk.coin_add_same f.transaction_fees f.surplus_fees same_refund in
      let e₂ = sdk.coin_add_same f.block_reservation_fees f.future_reservation_fees same_fees in
      let paid = λ (d : Text).
        total-ge (λ k (x : Callback). split_amount x.fee_split d) s.callbacks
          (r.callback_height, (c, r.job_id)) cb found in
      let (t, refunded) = refund_paid (without s cb c) r.sender a refund from free (λ d. omega (
        arith,
        paid d,
        v.funded d,
        coin_amount-coin_add sdk f.transaction_fees f.surplus_fees refund d e₁,
      )) in
      let (left, _) =
        refund-Pays sdk keepers accounts (without s cb c) r.sender refund t refunded in
      let (s', collected) = collector_paid t fees (λ d. omega (
        arith,
        paid d,
        v.funded d,
        left d,
        coin_amount-coin_add sdk f.transaction_fees f.surplus_fees refund d e₁,
        coin_amount-coin_add sdk f.block_reservation_fees f.future_reservation_fees fees d e₂,
      )) in
      (s', refund, ground (arith, deleted s r.sender cb c own authorized))
