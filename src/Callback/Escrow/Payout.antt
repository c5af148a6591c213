-- ===== src/Callback/Escrow/Payout.antt =====
-- What leaves the module account: refunds and the fees for the collector.
use archway.Common.{
  ℕ, ◌+◌, ◌≡◌, ◌≢◌, ap, true, false, some, Option-cases, inl, inr, Bool-cases, Result, ok, panic,
  err, must, arith,
}
use archway.Common.Key.{Text, Bytes}
use archway.Common.Store.{get, remove, remove-Keyed, total-remove, All-remove}
use archway.Sdk.{Sdk, Coin, coin_amount}
use archway.Sdk.Transfers.{balance-module_to_account, balance-module_to_module}
use archway.Callback.State.{
  Callback, CallbackKey, State, Keepers, callback_key, module_name, fee_collector_name,
}
use archway.Callback.Fees.{send_to_fee_collector, refund_from_callback_module}
use archway.Callback.Escrow.{split_amount, IsValid, HasModuleAccounts, IsOwnKey}

module _ (sdk : Sdk) (keepers : Keepers sdk) (accounts : HasModuleAccounts sdk) where
  open sdk use {
    from_bech32, balance, module_address, blocked_addr, of_coin, module_to_module,
    module_to_account,
  }
  open keepers use {World}

  -- The balance of the module account.
  abbrev pub held : State sdk World → Text → ℕ
  held s d = balance s.bank (module_address module_name) d

  -- A step that pays out a coin and leaves the store alone.
  abbrev pub Pays : State sdk World → Coin → State sdk World → Type 0
  Pays s c s' = ((d : Text) → held s' d + coin_amount c d ≡ held s d) × (s'.callbacks ≡ s.callbacks)

  pub send_to_fee_collector-Pays :
      (s : State sdk World) (c : Coin) (s' : State sdk World)
      → send_to_fee_collector sdk keepers s c ≡ ok s'
      → Pays s c s'
  unfolding send_to_fee_collector
  send_to_fee_collector-Pays s c s' h =
      elim (Option-cases (module_to_module s.bank module_name fee_collector_name (of_coin c))) [
        | inl failed ↦ ground arith
        | inr (b, sent) ↦ (
          λ d. ground (
            arith,
            balance-module_to_module sdk s.bank module_name fee_collector_name c b d accounts.apart
                sent,
          ),
          ground arith,
        )
      ]

  unblocked : (a : Bytes) → blocked_addr a ≡ false → a ≢ module_address module_name
  unblocked a free e = cc (accounts.blocked, ap blocked_addr e)

  refund_to :
      (s : State sdk World) (recipient : Text) (a : Bytes) (c : Coin) (s' : State sdk World)
      → from_bech32 recipient ≡ some a
      → blocked_addr a ≡ false
      → refund_from_callback_module sdk keepers s recipient c ≡ ok s'
      → Pays s c s'
  unfolding refund_from_callback_module
  refund_to s recipient a c s' parsed free h =
      elim (Option-cases (module_to_account s.bank module_name a (of_coin c))) [
        | inl failed ↦ ground arith
        | inr (b, sent) ↦ (
          λ d. ground (
            arith,
            balance-module_to_account sdk s.bank module_name a c b d (unblocked a free) sent,
          ),
          ground arith,
        )
      ]

  refund_collected :
      (s : State sdk World) (recipient : Text) (a : Bytes) (c : Coin) (s' : State sdk World)
      → from_bech32 recipient ≡ some a
      → blocked_addr a ≡ true
      → refund_from_callback_module sdk keepers s recipient c ≡ ok s'
      → send_to_fee_collector sdk keepers s c ≡ ok s'
  unfolding refund_from_callback_module
  refund_collected s recipient a c s' parsed blocked h = ground arith

  refund_parsed :
      (s : State sdk World) (recipient : Text) (c : Coin) (s' : State sdk World)
      → refund_from_callback_module sdk keepers s recipient c ≡ ok s'
      → (a : Bytes) × (from_bech32 recipient ≡ some a)
  unfolding refund_from_callback_module
  refund_parsed s recipient c s' h = ground arith

  -- A refund leaves the module account whether or not its recipient can take it.
  pub refund-Pays :
      (s : State sdk World) (recipient : Text) (c : Coin) (s' : State sdk World)
      → refund_from_callback_module sdk keepers s recipient c ≡ ok s'
      → Pays s c s'
  refund-Pays s recipient c s' h =
      let (a, parsed) = refund_parsed s recipient c s' h in
      elim (Bool-cases (blocked_addr a)) [
        | inl blocked ↦
            send_to_fee_collector-Pays s c s' (refund_collected s recipient a c s' parsed blocked h)
        | inr free ↦ refund_to s recipient a c s' parsed free h
      ]

  -- A callback that leaves the store with all that it has paid.
  pub removed-IsValid :
      (s : State sdk World) (key : CallbackKey) (cb : Callback) (s' : State sdk World)
      → IsValid sdk s
      → get s.callbacks key ≡ some cb
      → s'.callbacks ≡ remove s.callbacks key
      → ((d : Text) → held s' d + split_amount cb.fee_split d ≡ held s d)
      → IsValid sdk s'
  removed-IsValid s key cb s' v found e paid = record {
    keyed = rw e (remove-Keyed s.callbacks key v.keyed);
    own_keys = rw e (All-remove (IsOwnKey sdk) s.callbacks key v.own_keys);
    funded = λ d. rw e (
        omega (
          arith,
          paid d,
          v.funded d,
          total-remove (λ k c. split_amount c.fee_split d) s.callbacks key cb v.keyed found,
        ));
  }

  pub must-ok : {E F A : Type 0} (r : Result E A) {a : A} → must {F = F} r ≡ ok a → r ≡ ok a
  must-ok (ok a) h = ground arith
  must-ok (err e) h = cc
  must-ok panic h = cc
