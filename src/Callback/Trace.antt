-- ===== src/Callback/Trace.antt =====
-- The runs of x/callback: any sequence of requests, cancellations, changes of the parameters and ends
-- of blocks. A message that fails changes nothing and is no step.
use archway.Pkg.Gas.{Run as GasRun}
use archway.Common.{ℕ, ◌≡◌, subst, some, ok, arith}
use archway.Common.Key.{Bytes, Text}
use archway.Common.Int.{ℤ}
use archway.Sdk.{Sdk, Coin}
use archway.Callback.State.{Params, State, Keepers}
use archway.Callback.Msgs.{
  MsgRequestCallback, MsgCancelCallback, request_callback, cancel_callback, update_params,
}
use archway.Callback.Exec.{end_blocker}
use archway.Callback.Escrow.{IsValid, HasModuleAccounts}
use archway.Callback.Escrow.Request.{request_callback-IsValid}
use archway.Callback.Escrow.Cancel.{cancel_callback-IsValid}
use archway.Callback.Escrow.Block.{end_blocker-IsValid}
use archway.Callback.Escrow.Execute.{KeepsDue}

module _ (sdk : Sdk) (keepers : Keepers sdk)
    (sudo_at : ℤ
      → ℕ
      → Bytes
      → Text
      → State sdk keepers.World
      → GasRun keepers.Failure (State sdk keepers.World)) where
  open keepers use {World}

  -- The keepers in a block: how a contract call ends may depend on the height.
  abbrev pub at_block : ℤ → Keepers sdk
  at_block height = record keepers { sudo = sudo_at height }

  pub data Step : State sdk World → State sdk World → Type 0 where
    requested :
        {s s' : State sdk World} (height : ℤ) (r : MsgRequestCallback)
        → request_callback sdk keepers height s r ≡ ok s'
        → Step s s'
    canceled :
        {s s' : State sdk World} {refund : Coin} (r : MsgCancelCallback)
        → cancel_callback sdk keepers s r ≡ ok (s', refund)
        → Step s s'
    params_updated :
        {s s' : State sdk World} (authority requested_by : Text) (p : Params sdk.Dec18)
        → update_params sdk keepers authority s requested_by p ≡ ok s'
        → Step s s'
    block_ended :
        {s s' : State sdk World} (height : ℤ)
        → end_blocker sdk (at_block height) height s ≡ ok s'
        → Step s s'

  pub data Run : State sdk World → State sdk World → Type 0 where
    started : {s : State sdk World} → Run s s
    continued : {s t u : State sdk World} → Run s t → Step t u → Run s u

  update_params-IsValid :
      (authority requested_by : Text) (s s' : State sdk World) (p : Params sdk.Dec18)
      → IsValid sdk s
      → update_params sdk keepers authority s requested_by p ≡ ok s'
      → IsValid sdk s'
  unfolding update_params
  update_params-IsValid authority requested_by s s' p v h =
      let same : record s { params = some p } ≡ s' = ground arith in
      subst (IsValid sdk) same
        (record { keyed = v.keyed; own_keys = v.own_keys; funded = v.funded })

  module _ (accounts : HasModuleAccounts sdk)
      (well : (h : ℤ) → KeepsDue sdk (at_block h) accounts h) where
    step-IsValid : {s s' : State sdk World} → Step s s' → IsValid sdk s → IsValid sdk s'
    step-IsValid {s} {s'} (requested height r e) v =
        request_callback-IsValid sdk keepers accounts height s r v e
    step-IsValid {s} {s'} (canceled r e) v =
        (cancel_callback-IsValid sdk keepers accounts s r v e).1
    step-IsValid {s} {s'} (params_updated authority by p e) v =
        update_params-IsValid authority by s s' p v e
    step-IsValid {s} {s'} (block_ended height e) v =
        (end_blocker-IsValid sdk (at_block height) accounts height (well height) s v e).0

    -- After any run from a state in which the module account holds exactly what the pending callbacks
    -- have paid, it does so again, and every callback is stored once, under its own key. The condition
    -- is on the contracts that are called at the end of a block: such a call leaves a state of this
    -- kind in one of this kind, and neither adds nor cancels a callback that is due in the same block;
    -- it may add and cancel callbacks of other blocks.
    pub run-IsValid : {s s' : State sdk World} → Run s s' → IsValid sdk s → IsValid sdk s'
    run-IsValid started v = v
    run-IsValid (continued run step) v = step-IsValid step (run-IsValid run v)
