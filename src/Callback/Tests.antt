-- ===== src/Callback/Tests.antt =====
-- The theorems of x/callback, at the callback of `Scene`.
use archway.Common.{ℕ, ◌≡◌, refl, none, ok}
use archway.Common.Key.{Bytes, bytes_key}
use archway.Common.Store.{get}
use archway.Common.Int.{pos}
use archway.Sdk.{Coin}
use archway.Sim.Instance.{sim}
use archway.Callback.State.{State, Callback, CallbackKey, callback_key}
use archway.Callback.Msgs.{cancel_callback}
use archway.Callback.Escrow.{IsValid}
use archway.Callback.Escrow.Request.{request_callback-IsValid}
use archway.Callback.Escrow.Cancel.{cancel_callback-IsValid, Cancels}
use archway.Callback.Escrow.Block.{end_blocker-IsValid}
use archway.Callback.Escrow.Settle.{cancel_callback-succeeds}
use archway.Callback.Trace.{Run, started, continued, requested, block_ended, run-IsValid}
use archway.Callback.Scene.{
  contract, stake, quiet, accounts, well, start, start-IsValid, request, pending, is_pending,
  cancellation, canceled_state, is_canceled, ended, is_ended, saved, is_saved, is_parsed,
  is_authorized, pending-IsValid,
}

request_callback-IsValid_example : IsValid sim pending
request_callback-IsValid_example =
    request_callback-IsValid sim quiet accounts (pos 10) start request start-IsValid is_pending

cancel_callback-IsValid_example :
    ((cb : Callback) × (c : Bytes) × Cancels sim quiet accounts pending cancellation cb c
        (canceled_state, stake 7))
    × IsValid sim canceled_state
cancel_callback-IsValid_example =
    cancel_callback-IsValid sim quiet accounts pending cancellation pending-IsValid is_canceled

end_blocker-IsValid_example :
    IsValid sim ended × ((k : CallbackKey) → k.0 ≡ pos 12 → get ended.callbacks k ≡ none)
end_blocker-IsValid_example =
    end_blocker-IsValid sim quiet accounts (pos 12) (well (pos 12)) pending pending-IsValid is_ended

life : Run sim quiet (λ h. quiet.sudo) start ended
life =
    continued (continued started (requested (pos 10) request is_pending))
      (block_ended (pos 12) is_ended)

run-IsValid_example : IsValid sim ended
run-IsValid_example = run-IsValid sim quiet (λ h. quiet.sudo) accounts well life start-IsValid

cancel_callback-succeeds_example :
    (s' : State sim ℕ) × (refund : Coin) × (cancel_callback sim quiet pending cancellation
      ≡ ok (s', refund))
cancel_callback-succeeds_example =
    cancel_callback-succeeds sim quiet accounts pending cancellation saved contract pending-IsValid
      is_parsed is_saved is_authorized refl refl
