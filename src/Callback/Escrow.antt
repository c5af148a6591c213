-- ===== src/Callback/Escrow.antt =====
-- The invariant of x/callback: the module account holds the fees of the pending callbacks.
pub mod Invert
pub mod Request
pub mod Payout
pub mod Execute
pub mod Block
pub mod Cancel
pub mod Capacity
pub mod Settle
pub mod Reentry
use archway.Common.{ℕ, ◌+◌, ◌≡◌, ◌≢◌, true, List, [], ◌∷◌, some, All}
use archway.Common.Key.{Text, Bytes}
use archway.Common.Store.{Store, Keyed, total}
use archway.Sdk.{Sdk, Coin, coin_amount}
use archway.Callback.State.{
  FeeSplit, Callback, CallbackKey, callback_key, State, module_name, fee_collector_name,
}

-- What a callback has paid, in one denomination.
abbrev pub split_amount : FeeSplit → Text → ℕ
split_amount f d =
    coin_amount f.transaction_fees d
    + coin_amount f.block_reservation_fees d
    + coin_amount f.future_reservation_fees d
    + coin_amount f.surplus_fees d

-- What all pending callbacks have paid.
abbrev pub escrow : Store CallbackKey Callback → Text → ℕ
escrow callbacks d = total (λ k c. split_amount c.fee_split d) callbacks

module _ (sdk : Sdk) where
  -- A callback is stored under its own height, contract and job.
  abbrev pub IsOwnKey : CallbackKey × Callback → Type 0
  IsOwnKey (k, c) =
      (sdk.from_bech32 c.contract_address ≡ some k.1.0)
      × (c.callback_height ≡ k.0)
      × (c.job_id ≡ k.1.1)

  pub record IsValid {World : Type 0} (s : State sdk World) : Type 0 where
    pub keyed : Keyed s.callbacks
    pub own_keys : All IsOwnKey s.callbacks
    pub funded :
        (d : Text) → sdk.balance s.bank (sdk.module_address module_name) d ≡ escrow s.callbacks d

  -- The addresses of module accounts: that of x/callback is its own, and takes no transfers.
  pub record HasModuleAccounts : Type 0 where
    pub apart : sdk.module_address fee_collector_name ≢ sdk.module_address module_name
    pub blocked : sdk.blocked_addr (sdk.module_address module_name) ≡ true
