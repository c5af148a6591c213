-- ===== src/Sdk/Transfers.antt =====
-- The balance of a module account across a transfer of one coin.
use archway.Common.{◌+◌, ◌≡◌, ◌≢◌, some, arith}
use archway.Common.Key.{Text, Bytes, bytes_eq_iff}
use archway.Sdk.{Sdk, Coin, coin_amount}

module _ (sdk : Sdk) where
  open sdk use {
    Bank, balance, module_address, of_coin, account_to_module, module_to_account, module_to_module,
  }

  pub balance-account_to_module :
      (b : Bank) (a : Bytes) (m : Text) (c : Coin) (b' : Bank) (d : Text)
      → a ≢ module_address m
      → account_to_module b a m (of_coin c) ≡ some b'
      → balance b' (module_address m) d ≡ balance b (module_address m) d + coin_amount c d
  balance-account_to_module b a m c b' d ne e = ground (
    arith,
    bytes_eq_iff a (module_address m),
    bytes_eq_iff (module_address m) (module_address m),
    sdk.account_to_module_moves b a m (of_coin c) (module_address m) d e,
    sdk.amount_of-of_coin c d,
  )

  pub balance-module_to_account :
      (b : Bank) (m : Text) (a : Bytes) (c : Coin) (b' : Bank) (d : Text)
      → a ≢ module_address m
      → module_to_account b m a (of_coin c) ≡ some b'
      → balance b' (module_address m) d + coin_amount c d ≡ balance b (module_address m) d
  balance-module_to_account b m a c b' d ne e = ground (
    arith,
    bytes_eq_iff a (module_address m),
    bytes_eq_iff (module_address m) (module_address m),
    sdk.module_to_account_moves b m a (of_coin c) (module_address m) d e,
    sdk.amount_of-of_coin c d,
  )

  pub balance-module_to_module :
      (b : Bank) (m n : Text) (c : Coin) (b' : Bank) (d : Text)
      → module_address n ≢ module_address m
      → module_to_module b m n (of_coin c) ≡ some b'
      → balance b' (module_address m) d + coin_amount c d ≡ balance b (module_address m) d
  balance-module_to_module b m n c b' d ne e = ground (
    arith,
    bytes_eq_iff (module_address n) (module_address m),
    bytes_eq_iff (module_address m) (module_address m),
    sdk.module_to_module_moves b m n (of_coin c) (module_address m) d e,
    sdk.amount_of-of_coin c d,
  )

  pub coin_amount-coin_add :
      (a b c : Coin) (d : Text)
      → sdk.coin_add a b ≡ some c
      → coin_amount c d ≡ coin_amount a d + coin_amount b d
  coin_amount-coin_add a b c d e = ground (arith, sdk.coin_add_some a b e)

  pub coin_amount-coin_sub :
      (a b c : Coin) (d : Text)
      → sdk.coin_sub a b ≡ some c
      → coin_amount c d + coin_amount b d ≡ coin_amount a d
  coin_amount-coin_sub a b c d e = ground (arith, sdk.coin_sub_some a b e)
