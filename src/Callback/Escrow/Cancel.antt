-- ===== src/Callback/Escrow/Cancel.antt =====
-- A cancelled callback leaves the escrow with all that it paid.
use archway.Common.{◌+◌, ◌≡◌, true, some, Option-cases, inl, inr, ok, Result-cases, arith}
use archway.Common.Key.{Text, Bytes}
use archway.Common.Store.{get, remove, All-get}
use archway.Sdk.{Sdk, Coin, coin_amount}
use archway.Sdk.Transfers.{coin_amount-coin_add}
use archway.Callback.State.{Callback, State, Keepers, callback_key}
use archway.Callback.Reserve.{get_callback, delete_callback, is_authorized_to_modify}
use archway.Callback.Fees.{send_to_fee_collector, refund_from_callback_module}
use archway.Callback.Msgs.{MsgCancelCallback, not_found_on_error, cancel_callback}
use archway.Callback.Escrow.{split_amount, IsValid, HasModuleAccounts, IsOwnKey}
use archway.Callback.Escrow.Payout.{
  held, Pays, send_to_fee_collector-Pays, refund-Pays, removed-IsValid,
}

module _ (sdk : Sdk) (keepers : Keepers sdk) (accounts : HasModuleAccounts sdk) where
  open sdk use {from_bech32, coin_add}
  open keepers use {World}

  -- The callback of a request to cancel, and the key that it is stored under.
  get_callback-found :
      (s : State sdk World) (r : MsgCancelCallback) (cb : Callback)
      → get_callback sdk keepers s r.callback_height r.contract_address r.job_id ≡ ok cb
      → (c : Bytes) × (get s.callbacks (r.callback_height, (c, r.job_id)) ≡ some cb)
  unfolding get_callback
  get_callback-found s r cb h = elim (Option-cases (from_bech32 r.contract_address)) [
    | inl bad ↦ ground arith
    | inr (c, parsed) ↦ (c, ground arith)
  ]

  deleted_at :
      (s : State sdk World) (sender : Text) (cb : Callback) (c : Bytes) {t : State sdk World}
      → from_bech32 cb.contract_address ≡ some c
      → delete_callback sdk keepers s sender cb ≡ ok t
      → (t.callbacks ≡ remove s.callbacks (cb.callback_height, (c, cb.job_id)))
        × (t.bank ≡ s.bank)
        × (is_authorized_to_modify sdk keepers s c sender ≡ ok true)
  unfolding delete_callback
  deleted_at s sender cb c parsed h = ground arith

  -- The callback that was cancelled, under its key, and what was paid for it.
  abbrev pub Cancels :
      State sdk World → MsgCancelCallback → Callback → Bytes → State sdk World × Coin → Type 0
  Cancels s r cb c (s', refund) =
      (get s.callbacks (r.callback_height, (c, r.job_id)) ≡ some cb)
      × (is_authorized_to_modify sdk keepers s c r.sender ≡ ok true)
      × (s'.callbacks ≡ remove s.callbacks (r.callback_height, (c, r.job_id)))
      × ((d : Text)
          → (coin_amount refund d
              ≡ coin_amount cb.fee_split.transaction_fees d
                + coin_amount cb.fee_split.surplus_fees d)
            × (held sdk keepers accounts s' d + split_amount cb.fee_split d
                ≡ held sdk keepers accounts s d))

  pay_both :
      (s t u s' : State sdk World) (cb : Callback) (refund fees : Coin) (d : Text)
      → t.bank ≡ s.bank
      → Pays sdk keepers accounts t refund u
      → Pays sdk keepers accounts u fees s'
      → coin_add cb.fee_split.transaction_fees cb.fee_split.surplus_fees ≡ some refund
      → coin_add cb.fee_split.block_reservation_fees cb.fee_split.future_reservation_fees
        ≡ some fees
      → (coin_amount refund d
          ≡ coin_amount cb.fee_split.transaction_fees d + coin_amount cb.fee_split.surplus_fees d)
        × (held sdk keepers accounts s' d + split_amount cb.fee_split d
            ≡ held sdk keepers accounts s d)
  pay_both s t u s' cb refund fees d bank (p, _) (q, _) e f =
      let a =
        coin_amount-coin_add sdk cb.fee_split.transaction_fees cb.fee_split.surplus_fees refund d
          e in
      let b =
        coin_amount-coin_add sdk cb.fee_split.block_reservation_fees
          cb.fee_split.future_reservation_fees fees d f in
      (a, rw (← bank) (omega (arith, a, b, p d, q d)))

  cancel_found :
      (s : State sdk World) (r : MsgCancelCallback) (cb : Callback) {s' : State sdk World}
      {refund : Coin}
      → IsValid sdk s
      → get_callback sdk keepers s r.callback_height r.contract_address r.job_id ≡ ok cb
      → cancel_callback sdk keepers s r ≡ ok (s', refund)
      → (c : Bytes) × Cancels s r cb c (s', refund)
  unfolding cancel_callback
  cancel_found s r cb {s'} {refund} v found h =
      let (c, stored) = get_callback-found s r cb found in
      let (own, height, job) =
        All-get (IsOwnKey sdk) s.callbacks (r.callback_height, (c, r.job_id)) cb v.own_keys
          stored in
      elim (Result-cases (delete_callback sdk keepers s r.sender cb)) [
        | inr bad ↦ ground arith
        | inl (t, deleted) ↦
            elim (Option-cases (coin_add cb.fee_split.transaction_fees cb.fee_split.surplus_fees)) [
              | inl bad ↦ ground arith
              | inr (x, e) ↦
                  elim (Result-cases (refund_from_callback_module sdk keepers t r.sender x)) [
                    | inr bad ↦ ground arith
                    | inl (u, refunded) ↦
                        elim (Option-cases (
                          coin_add cb.fee_split.block_reservation_fees
                            cb.fee_split.future_reservation_fees)) [
                              | inl bad ↦ ground arith
                              | inr (y, f) ↦
                                  elim (Result-cases (send_to_fee_collector sdk keepers u y)) [
                                    | inr bad ↦ ground arith
                                    | inl (w, sent) ↦
                                        let same : w ≡ s' = ground arith in
                                        let same_refund : x ≡ refund = ground arith in
                                        let (removed, bank, authorized) =
                                          deleted_at s r.sender cb c own deleted in
                                        let paid =
                                          refund-Pays sdk keepers accounts t r.sender x u
                                            refunded in
                                        let collected =
                                          send_to_fee_collector-Pays sdk keepers accounts u y w
                                            sent in
                                        (
                                          c,
                                          (
                                            stored,
                                            authorized,
                                            ground (arith, paid.1, collected.1),
                                            λ d.
                                                rw (← same, ← same_refund)
                                                  (pay_both s t u w cb x y d bank paid collected e
                                                    f),
                                          ),
                                        )
                                  ]
                            ]
                  ]
            ]
      ]

  cancel_missing :
      (s : State sdk World) (r : MsgCancelCallback) {out : State sdk World × Coin}
      → cancel_callback sdk keepers s r ≡ ok out
      → (cb : Callback) × (get_callback sdk keepers s r.callback_height r.contract_address r.job_id
          ≡ ok cb)
  unfolding cancel_callback not_found_on_error
  cancel_missing s r h =
      elim (Result-cases
        (get_callback sdk keepers s r.callback_height r.contract_address r.job_id)) [
          | inr bad ↦ ground arith
          | inl (cb, found) ↦ (cb, found)
        ]

  -- A cancellation that is accepted comes from an authorized sender and removes the callback. The
  -- refund is its transaction and surplus fees, all that it paid leaves the module account, and
  -- what remains is valid.
  pub cancel_callback-IsValid :
      (s : State sdk World) (r : MsgCancelCallback) {s' : State sdk World} {refund : Coin}
      → IsValid sdk s
      → cancel_callback sdk keepers s r ≡ ok (s', refund)
      → ((cb : Callback) × (c : Bytes) × Cancels s r cb c (s', refund)) × IsValid sdk s'
  cancel_callback-IsValid s r {s'} v h =
      let (cb, found) = cancel_missing s r h in
      let (c, done) = cancel_found s r cb v found h in
      (
        (cb, c, done),
        removed-IsValid sdk keepers accounts s (r.callback_height, (c, r.job_id)) cb s' v done.0
            done.2 (λ d. (done.3 d).1),
      )
