-- ===== src/Sdk.antt =====
-- What the modules use of the Cosmos SDK (`sdk.Coin`, `sdk.Coins`, `math.LegacyDec`, `sdk.AccAddress`
-- and the x/bank keeper), as operations with their documented behaviour. `none` is a panic of an
-- operation on coins, and the error of a transfer.
pub mod Transfers
use archway.Common.{
  ℕ, ◌+◌, ◌*◌, ◌^◌, ◌≤◌, ◌<◌, ◌≡◌, ◌≢◌, ◌↔◌, Bool, true, false, Option, none, some, List, [], ◌∷◌,
  if◌then◌else◌, ltb,
}
use archway.Common.Key.{Bytes, Text, ◌==◌, bytes_key}
use archway.Common.Int.{ℤ, pos, sub_ℕ}

-- `sdk.Coin`; an amount of a coin that is in use is not negative.
pub record Coin : Type 0 where
  pub denom : Text
  pub amount : ℕ

-- The amount of a denomination that one coin holds.
abbrev pub coin_amount : Coin → Text → ℕ
coin_amount c d = if c.denom == d then c.amount else 0

abbrev pub sum_amounts : List Coin → Text → ℕ
sum_amounts [] d = 0
sum_amounts (c ∷ cs) d = coin_amount c d + sum_amounts cs d

-- 10 ^ 18, the precision of a decimal.
abbrev pub precision : ℕ
precision = 10 ^ 18

-- n is x / y rounded to a nearest integer.
abbrev pub IsNearest : ℕ → ℕ → ℕ → Type 0
IsNearest n x y = (2 * (n * y) ≤ 2 * x + y) × (2 * x ≤ 2 * (n * y) + y)

abbrev pub opposite : ℕ → ℤ
opposite n = sub_ℕ 0 n

pub record Sdk : Type 1 where
  -- sdk.Coins: a set of coins, one positive amount for each denomination
  pub Coins : Type 0
  pub amount_of : Coins → Text → ℕ
  pub no_coins : Coins
  pub of_coin : Coin → Coins
  pub to_list : Coins → List Coin
  pub add_coins : Coins → Coins → Coins
  pub sub_coins : Coins → Coins → Option Coins
  pub is_zero : Coins → Bool
  pub is_empty : Coins → Bool
  pub is_all_gte : Coins → Coins → Bool
  pub amount_of-no_coins : (d : Text) → amount_of no_coins d ≡ 0
  pub amount_of-of_coin : (c : Coin) (d : Text) → amount_of (of_coin c) d ≡ coin_amount c d
  pub amount_of-to_list : (cs : Coins) (d : Text) → amount_of cs d ≡ sum_amounts (to_list cs) d
  pub amount_of-add_coins :
      (a b : Coins) (d : Text) → amount_of (add_coins a b) d ≡ amount_of a d + amount_of b d
  pub amount_of-sub_coins :
      (a b : Coins) {c : Coins} (d : Text)
      → sub_coins a b ≡ some c
      → amount_of c d + amount_of b d ≡ amount_of a d
  pub sub_coins_none :
      (a b : Coins) → sub_coins a b ≡ none → (d : Text) × (amount_of a d < amount_of b d)
  pub is_zero_iff : (a : Coins) → (is_zero a ≡ true) ↔ ((d : Text) → amount_of a d ≡ 0)
  pub is_empty_iff : (a : Coins) → (is_empty a ≡ true) ↔ ((d : Text) → amount_of a d ≡ 0)
  pub is_all_gte_iff :
      (a b : Coins) → (is_all_gte a b ≡ true) ↔ ((d : Text) → amount_of b d ≤ amount_of a d)
  -- sdk.Coin: Add, Sub and IsLT panic on two denominations, and Sub below zero
  pub coin_add : Coin → Coin → Option Coin
  pub coin_sub : Coin → Coin → Option Coin
  pub coin_is_lt : Coin → Coin → Option Bool
  pub new_coin : Text → ℤ → Option Coin
  pub coin_add_some :
      (a b : Coin) {c : Coin}
      → coin_add a b ≡ some c
      → (a.denom ≡ b.denom) × (c.denom ≡ a.denom) × (c.amount ≡ a.amount + b.amount)
  pub coin_add_same :
      (a b : Coin)
      → a.denom ≡ b.denom
      → coin_add a b ≡ some (record { denom = a.denom; amount = a.amount + b.amount })
  pub coin_sub_some :
      (a b : Coin) {c : Coin}
      → coin_sub a b ≡ some c
      → (a.denom ≡ b.denom) × (c.denom ≡ a.denom) × (c.amount + b.amount ≡ a.amount)
  pub coin_sub_same :
      (a b : Coin) → a.denom ≡ b.denom → b.amount ≤ a.amount → (c : Coin) × (coin_sub a b ≡ some c)
  pub coin_is_lt_same : (a b : Coin) → a.denom ≡ b.denom → (t : Bool) × (coin_is_lt a b ≡ some t)
  pub coin_is_lt_some :
      (a b : Coin) {t : Bool}
      → coin_is_lt a b ≡ some t
      → (a.denom ≡ b.denom) × ((t ≡ true) ↔ (a.amount < b.amount))
  pub new_coin_some :
      (d : Text) (a : ℤ) {c : Coin} → new_coin d a ≡ some c → (c.denom ≡ d) × (a ≡ pos c.amount)
  -- sdk.ValidateDenom
  pub valid_denom : Text → Bool
  -- math.LegacyDec: products and quotients are taken as rounded to a nearest decimal. (Quo first cuts off
  -- after 36 digits, which can add less than 10 ^ -18 of a unit to the half; the panics on an overflow
  -- of 315 bits are left out.) `atto` is the integer that represents it, the value times 10 ^ 18
  pub Dec18 : Type 0
  pub atto : Dec18 → ℤ
  pub dec_of_int : ℤ → Dec18
  pub dec_mul : Dec18 → Dec18 → Dec18
  pub dec_quo : Dec18 → Dec18 → Option Dec18
  pub dec_sub : Dec18 → Dec18 → Dec18
  pub dec_neg : Dec18 → Dec18
  pub dec_max : Dec18 → Dec18 → Dec18
  pub mul_int : Dec18 → ℤ → Dec18
  pub truncate_int : Dec18 → ℤ
  pub round_int : Dec18 → ℤ
  pub atto-dec_of_int : (n : ℕ) → atto (dec_of_int (pos n)) ≡ pos (n * precision)
  pub atto-dec_mul :
      (a b : Dec18) {x y : ℕ}
      → atto a ≡ pos x
      → atto b ≡ pos y
      → (z : ℕ) × (atto (dec_mul a b) ≡ pos z) × IsNearest z (x * y) precision
  pub atto-dec_quo :
      (a b : Dec18) {x y : ℕ}
      → atto a ≡ pos x
      → atto b ≡ pos y
      → 0 < y
      → (c : Dec18) × (z : ℕ) × (dec_quo a b ≡ some c)
        × (atto c ≡ pos z)
        × IsNearest z (x * precision) y
  pub atto-mul_int :
      (a : Dec18) {x : ℕ} (n : ℕ) → atto a ≡ pos x → atto (mul_int a (pos n)) ≡ pos (x * n)
  pub truncate_int_floor :
      (a : Dec18) {x : ℕ}
      → atto a ≡ pos x
      → (n : ℕ) × (truncate_int a ≡ pos n) × (n * precision ≤ x) × (x < n * precision + precision)
  pub round_int_nearest :
      (a : Dec18) {x : ℕ}
      → atto a ≡ pos x
      → (n : ℕ) × (round_int a ≡ pos n) × IsNearest n x precision
  -- below zero: `opposite n` stands for - n
  pub atto-dec_sub :
      (a b : Dec18) {x y : ℕ} → atto a ≡ pos x → atto b ≡ pos y → atto (dec_sub a b) ≡ sub_ℕ x y
  pub atto-dec_neg : (a : Dec18) {x : ℕ} → atto a ≡ opposite x → atto (dec_neg a) ≡ pos x
  pub atto-dec_mul_opposite :
      (a b : Dec18) {x : ℕ} (y : ℕ)
      → atto a ≡ pos x
      → atto b ≡ opposite y
      → (z : ℕ) × (atto (dec_mul a b) ≡ opposite z) × IsNearest z (x * y) precision
  pub atto-dec_quo_opposite :
      (a b : Dec18) {x : ℕ} (y : ℕ)
      → atto a ≡ pos x
      → atto b ≡ opposite y
      → 0 < y
      → (c : Dec18) × (z : ℕ) × (dec_quo a b ≡ some c)
        × (atto c ≡ opposite z)
        × IsNearest z (x * precision) y
  pub atto-dec_max :
      (a b : Dec18) {x y : ℕ}
      → atto a ≡ pos x
      → atto b ≡ pos y
      → atto (dec_max a b) ≡ pos (if ltb x y then y else x)
  -- sdk.AccAddress and its bech32 text
  pub from_bech32 : Text → Option Bytes
  pub to_bech32 : Bytes → Text
  pub from_bech32-to_bech32 :
      (s : Text) {a : Bytes} → from_bech32 s ≡ some a → from_bech32 (to_bech32 a) ≡ some a
  -- the x/bank keeper
  pub Bank : Type 0
  pub balance : Bank → Bytes → Text → ℕ
  pub module_address : Text → Bytes
  pub blocked_addr : Bytes → Bool
  pub account_to_module : Bank → Bytes → Text → Coins → Option Bank
  pub module_to_account : Bank → Text → Bytes → Coins → Option Bank
  pub module_to_module : Bank → Text → Text → Coins → Option Bank
  pub burn_coins : Bank → Text → Coins → Option Bank
  pub account_to_module_moves :
      (b : Bank) (a : Bytes) (m : Text) (cs : Coins) {b' : Bank} (x : Bytes) (d : Text)
      → account_to_module b a m cs ≡ some b'
      → balance b' x d + (if a == x then amount_of cs d else 0)
        ≡ balance b x d + (if module_address m == x then amount_of cs d else 0)
  pub module_to_account_moves :
      (b : Bank) (m : Text) (a : Bytes) (cs : Coins) {b' : Bank} (x : Bytes) (d : Text)
      → module_to_account b m a cs ≡ some b'
      → balance b' x d + (if module_address m == x then amount_of cs d else 0)
        ≡ balance b x d + (if a == x then amount_of cs d else 0)
  pub module_to_module_moves :
      (b : Bank) (m n : Text) (cs : Coins) {b' : Bank} (x : Bytes) (d : Text)
      → module_to_module b m n cs ≡ some b'
      → balance b' x d + (if module_address m == x then amount_of cs d else 0)
        ≡ balance b x d + (if module_address n == x then amount_of cs d else 0)
  pub burn_coins_moves :
      (b : Bank) (m : Text) (cs : Coins) {b' : Bank} (x : Bytes) (d : Text)
      → burn_coins b m cs ≡ some b'
      → balance b' x d + (if module_address m == x then amount_of cs d else 0) ≡ balance b x d
  pub module_to_account_blocked :
      (b : Bank) (m : Text) (a : Bytes) (cs : Coins)
      → blocked_addr a ≡ true
      → module_to_account b m a cs ≡ none
  pub module_to_account_funded :
      (b : Bank) (m : Text) (a : Bytes) (cs : Coins)
      → blocked_addr a ≡ false
      → ((d : Text) → amount_of cs d ≤ balance b (module_address m) d)
      → module_to_account b m a cs ≢ none
  pub module_to_module_funded :
      (b : Bank) (m n : Text) (cs : Coins)
      → ((d : Text) → amount_of cs d ≤ balance b (module_address m) d)
      → module_to_module b m n cs ≢ none

-- `sdk.DecCoin`, over the decimals of the SDK.
pub record DecCoin (D : Type 0) : Type 0 where
  pub denom : Text
  pub amount : D
