-- ===== src/Callback/Escrow/Block.antt =====
-- The end of a block: every due callback is executed, and the escrow stays exact.
use archway.Common.{
  ◌≡◌, ap, subst, ◌∙◌, true, none, some, Option-cases, inl, inr, ok, Result-cases, arith,
  if◌then◌else◌, [], ◌∷◌, map, select, All,
}
use archway.Common.Key.{◌==◌}
use archway.Common.Int.{ℤ, int_key, eqb_ℤ_iff}
use archway.Common.Store.{
  Store, Keyed, get, remove, All-get, get-remove, get-select, select-Keyed, select-All-keys,
  select-IsPartOf,
}
use archway.Sdk.{Sdk, Coin}
use archway.Pkg.Gas.{execute_with_gas_limit}
use archway.Callback.State.{
  Error, Callback, CallbackKey, State, Keepers, callback_key, callback_msg,
}
use archway.Callback.Reserve.{get_callbacks_by_height}
use archway.Callback.Exec.{
  refund_unused, charge, settle_error, callback_exec, exec_all, end_blocker,
}
use archway.Callback.Escrow.{IsValid, HasModuleAccounts, IsOwnKey}
use archway.Callback.Escrow.Payout.{removed-IsValid}
use archway.Callback.Escrow.Execute.{
  KeepsDue, Kept-trans, Kept-Same, call-Kept, settle_error-Same, Refunded, refund_unused-Refunded,
  Collected, collect_fees-Collected,
}

module _ (sdk : Sdk) (keepers : Keepers sdk) (accounts : HasModuleAccounts sdk) (height : ℤ)
    (well : KeepsDue sdk keepers accounts height) where
  open sdk use {from_bech32}
  open keepers use {World, Failure, err_out_of_gas, sudo}

  -- The store after the callback under a key is gone, at the keys of the block.
  abbrev Gone : CallbackKey → State sdk World → State sdk World → Type 0
  Gone key s s' =
      (k : CallbackKey)
      → k.0 ≡ height
      → get s'.callbacks k ≡ (if key == k then none else get s.callbacks k)

  -- The two payments, after the call of the contract.
  pay_both :
      (s₂ s₃ s' : State sdk World) (key : CallbackKey) (cb : Callback) (consumed : Coin)
      → IsValid sdk s₂
      → get s₂.callbacks key ≡ some cb
      → Refunded sdk keepers accounts cb s₂ (consumed, s₃)
      → Collected sdk keepers accounts cb consumed s₃ s'
      → IsValid sdk s' × Gone key s₂ s'
  pay_both s₂ s₃ s' key cb consumed v found (refunded, same) (c, parsed, collected, taken) =
      let (own, h, j) = All-get (IsOwnKey sdk) s₂.callbacks key cb v.own_keys found in
      let e : s'.callbacks ≡ remove s₂.callbacks key =
        ground (arith, own, h, j, parsed, taken, same) in
      (
        removed-IsValid sdk keepers accounts s₂ key cb s' v found e
            (λ d. omega (arith, refunded d, collected d)),
        λ k _. rw e (get-remove s₂.callbacks key k),
      )

  -- A due callback leaves the store when it is executed, and the module account pays what it paid in.
  pub callback_exec-IsValid :
      (s : State sdk World) (key : CallbackKey) (cb : Callback) {s' : State sdk World}
      → IsValid sdk s
      → key.0 ≡ height
      → get s.callbacks key ≡ some cb
      → callback_exec sdk keepers s cb ≡ ok s'
      → IsValid sdk s' × Gone key s s'
  unfolding callback_exec
  callback_exec-IsValid s key cb {s'} v due found h =
      elim (Option-cases (from_bech32 cb.contract_address)) [
        | inl bad ↦ ground arith
        | inr (a, parsed) ↦
            elim (Result-cases (
              execute_with_gas_limit {F = Error} err_out_of_gas (charge sdk keepers) s
                cb.max_gas_limit (λ limit t. sudo limit a (callback_msg cb.job_id) t))) [
                  | inr bad ↦ ground arith
                  | inl ((o, s₁), ran) ↦ elim (Result-cases (settle_error sdk keepers cb o s₁)) [
                    | inr bad ↦ ground arith
                    | inl ((gas, s₂), settled) ↦
                        elim (Result-cases (refund_unused sdk keepers cb gas s₂)) [
                          | inr bad ↦ ground arith
                          | inl ((consumed, s₃), refunded) ↦
                              let kept =
                                Kept-trans sdk keepers accounts height well s s₁ s₂
                                  (call-Kept sdk keepers accounts height well s cb.max_gas_limit a
                                    (callback_msg cb.job_id) ran)
                                  (Kept-Same sdk keepers accounts height well s₁ s₂
                                    (settle_error-Same sdk keepers accounts cb o s₁ settled)) in
                              let (valid, gone) =
                                pay_both s₂ s₃ s' key cb consumed (kept.0 v)
                                  (kept.1 key due ∙ found)
                                  (refund_unused-Refunded sdk keepers accounts cb gas s₂ refunded)
                                  (collect_fees-Collected sdk keepers accounts cb consumed s₃ s'
                                    (ground arith)) in
                              (valid, λ k e. rw (← kept.1 k e) (gone k e))
                        ]
                  ]
                ]
      ]

  -- The callbacks of a list that are due and pending.
  abbrev Pending : State sdk World → CallbackKey × Callback → Type 0
  Pending s (key, cb) = (key.0 ≡ height) × (get s.callbacks key ≡ some cb)

  Pending-step :
      (s s' : State sdk World) (key : CallbackKey) (part : Store CallbackKey Callback)
      → get part key ≡ none
      → Gone key s s'
      → All (Pending s) part
      → All (Pending s') part
  unfolding get
  Pending-step s s' key [] absent gone h = tt
  Pending-step s s' key ((k, cb) ∷ part) absent gone ((due, found), h) =
      ground (arith, gone k due, Pending-step s s' key part)

  pub exec_all-IsValid :
      (s : State sdk World) (part : Store CallbackKey Callback) {s' : State sdk World}
      → IsValid sdk s
      → Keyed part
      → All (Pending s) part
      → exec_all sdk keepers s (map (λ (e : CallbackKey × Callback). e.1) part) ≡ ok s'
      → IsValid sdk s'
        × ((k : CallbackKey)
            → k.0 ≡ height
            → get part k ≡ get s.callbacks k
            → get s'.callbacks k ≡ none)
  unfolding exec_all get
  exec_all-IsValid s [] {s'} v keyed h e =
      let same : s ≡ s' = ground arith in
      (
        subst (IsValid sdk) same v,
        λ k d q. ground (arith, ap (λ (t : State sdk World). get t.callbacks k) same),
      )
  exec_all-IsValid s ((key, cb) ∷ part) v (absent, keyed) ((due, found), h) e =
      elim (Result-cases (callback_exec sdk keepers s cb)) [
        | inr bad ↦ ground arith
        | inl (t, ran) ↦
            let (valid, gone) = callback_exec-IsValid s key cb v due found ran in
            let (valid', empty) =
              exec_all-IsValid t part valid keyed (Pending-step s t key part absent gone h)
                (ground arith) in
            (
              valid',
              λ k d q.
                  empty k d (
                    ground (arith, callback_key.eq_iff key k, callback_key.eq_iff k key, gone k d)),
            )
      ]

  -- When the end of a block returns, every callback that was due has been executed: none is pending at
  -- the height, and the module account holds exactly what the callbacks that remain have paid. It did so
  -- for those pending before, and the contracts that are called keep it so and leave the due callbacks.
  pub end_blocker-IsValid :
      (s : State sdk World) {s' : State sdk World}
      → IsValid sdk s
      → end_blocker sdk keepers height s ≡ ok s'
      → IsValid sdk s' × ((k : CallbackKey) → k.0 ≡ height → get s'.callbacks k ≡ none)
  unfolding end_blocker get_callbacks_by_height
  end_blocker-IsValid s v e =
      let p = λ (k : CallbackKey). k.0 == height in
      let part = select (λ (x : CallbackKey × Callback). p x.0) s.callbacks in
      let (valid, empty) =
        exec_all-IsValid s part v (select-Keyed p s.callbacks v.keyed)
          (due part (select-All-keys p s.callbacks) (select-IsPartOf p s.callbacks v.keyed)) e in
      (valid, λ k d. empty k d (ground (arith, get-select p s.callbacks k, eqb_ℤ_iff k.0 height)))
    where
      due :
          (part : Store CallbackKey Callback)
          → All (λ (x : CallbackKey × Callback). (x.0.0 == height) ≡ true) part
          → All (λ (x : CallbackKey × Callback). get s.callbacks x.0 ≡ some x.1) part
          → All (Pending s) part
      due [] a b = tt
      due (x ∷ part) a b = (((eqb_ℤ_iff x.0.0 height).0 a.0, b.0), due part a.1 b.1)
