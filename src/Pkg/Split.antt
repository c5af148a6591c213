-- ===== src/Pkg/Split.antt =====
-- SplitCoins (pkg/coins.go).
use archway.Common.{
  ◌/◌, if◌then◌else◌, ℕ, ◌+◌, ◌*◌, ◌≤◌, ◌<◌, ◌≡◌, refl, List, [], ◌∷◌, Result, ok, panic, ◌>>=◌,
  or_panic, arith,
}
use archway.Common.Key.{Text, ◌==◌, bytes_key}
use archway.Common.Int.{ℤ, pos}
use archway.Sdk.{Sdk, Coin, sum_amounts, precision}

-- `sdk.Coin{Denom: d, Amount: a}`; an amount below zero has no use, and `Sub` panics on it.
unfoldable pub coin_of : {E : Type 0} → Text → ℤ → Result E Coin
coin_of d (pos n) = ok (record { denom = d; amount = n })
coin_of d a = panic

-- The shares of the coins of a denomination at a ratio of r, each rounded down.
abbrev pub sum_shares : ℕ → List Coin → Text → ℕ
sum_shares r [] d = 0
sum_shares r (c ∷ cs) d = (if c.denom == d then c.amount * r / precision else 0) + sum_shares r cs d

module _ (sdk : Sdk) where
  open sdk use {
    Coins, no_coins, of_coin, to_list, add_coins, coin_sub, Dec18, dec_mul, dec_of_int,
    truncate_int, atto, amount_of,
  }

  -- `math.LegacyNewDecFromInt(amount).Mul(ratio).TruncateInt()`
  unfoldable pub share_of : ℕ → Dec18 → ℤ
  share_of amount ratio = truncate_int (dec_mul (dec_of_int (pos amount)) ratio)

  -- One round of the loop: the two stacks with the parts of one coin added.
  unfoldable pub split_coin : {E : Type 0} → Coin → Dec18 → Coins × Coins → Result E (Coins × Coins)
  unfolding share_of coin_of
  split_coin coin ratio (stack1, stack2) = do
    stack1_coin ← coin_of coin.denom (share_of coin.amount ratio)
    stack2_coin ← or_panic (coin_sub coin stack1_coin)
    ok (add_coins stack1 (of_coin stack1_coin), add_coins stack2 (of_coin stack2_coin))

  unfoldable pub split_loop :
      {E : Type 0} → List Coin → Dec18 → Coins × Coins → Result E (Coins × Coins)
  split_loop [] ratio stacks = ok stacks
  split_loop (coin ∷ coins) ratio stacks = split_coin coin ratio stacks >>= split_loop coins ratio

  unfoldable pub split_coins : {E : Type 0} → Coins → Dec18 → Result E (Coins × Coins)
  unfolding split_loop split_coin
  split_coins coins ratio = split_loop (to_list coins) ratio (no_coins, no_coins)

  -- The share of an amount at a ratio that is not negative is their product, rounded down.
  pub share_of_floor :
      (amount : ℕ) (ratio : Dec18) {r : ℕ}
      → atto ratio ≡ pos r
      → (n : ℕ) × (share_of amount ratio ≡ pos n)
        × (n * precision ≤ amount * r)
        × (amount * r < n * precision + precision)
  unfolding share_of
  share_of_floor amount ratio {r} h =
      let (z, e, near) =
        sdk.atto-dec_mul (dec_of_int (pos amount)) ratio (sdk.atto-dec_of_int amount) h in
      let (n, f, low, high) = sdk.truncate_int_floor (dec_mul (dec_of_int (pos amount)) ratio) e in
      (n, f, omega arith, omega arith)

  -- What the loop has done after some coins, at a ratio: both stacks hold, for each denomination, what
  -- the coins that were read hold of it, and the first has got their shares.
  abbrev pub Splits :
      {E : Type 0} → ℕ → List Coin → Coins × Coins → Result E (Coins × Coins) → Type 0
  Splits ratio coins stacks r =
      (stacks' : Coins × Coins) × (r ≡ ok stacks')
      × ((d : Text) → amount_of stacks'.0 d ≡ amount_of stacks.0 d + sum_shares ratio coins d)
      × ((d : Text)
          → amount_of stacks'.0 d + amount_of stacks'.1 d
            ≡ amount_of stacks.0 d + amount_of stacks.1 d + sum_amounts coins d)

  share_le : (a n r : ℕ) → r ≤ precision → n * precision ≤ a * r → n ≤ a
  share_le a n r at_most_one h = grind arith

  share_exact :
      (a n r : ℕ)
      → n * precision ≤ a * r
      → a * r < n * precision + precision
      → n ≡ a * r / precision
  share_exact a n r low high = omega arith

  halves :
      (stacks : Coins × Coins) (coin part rest : Coin)
      → part.denom ≡ coin.denom
      → rest.denom ≡ coin.denom
      → rest.amount + part.amount ≡ coin.amount
      → (d : Text)
      → amount_of (add_coins stacks.0 (of_coin part)) d
          + amount_of (add_coins stacks.1 (of_coin rest)) d
        ≡ amount_of stacks.0 d + amount_of stacks.1 d + sum_amounts (coin ∷ []) d
  halves stacks coin part rest p q sum d = ground (
    arith,
    sdk.amount_of-add_coins stacks.0 (of_coin part) d,
    sdk.amount_of-add_coins stacks.1 (of_coin rest) d,
    sdk.amount_of-of_coin part d,
    sdk.amount_of-of_coin rest d,
  )

  module _ {E : Type 0} (ratio : Dec18) {r : ℕ} (is_ratio : atto ratio ≡ pos r)
      (at_most_one : r ≤ precision) where
    split_coin-Splits :
        (coin : Coin) (stacks : Coins × Coins)
        → Splits r (coin ∷ []) stacks (split_coin {E = E} coin ratio stacks)
    unfolding split_coin
    split_coin-Splits coin stacks =
        let (n, e, low, high) = share_of_floor coin.amount ratio is_ratio in
        let part : Coin = record { denom = coin.denom; amount = n } in
        let (rest, f) =
          sdk.coin_sub_same coin part refl (share_le coin.amount n r at_most_one low) in
        let (_, g, sum) = sdk.coin_sub_some coin part f in
        (
          (add_coins stacks.0 (of_coin part), add_coins stacks.1 (of_coin rest)),
          rw (e, coin_of, f) refl,
          λ d. ground (
            arith,
            sdk.amount_of-add_coins stacks.0 (of_coin part) d,
            sdk.amount_of-of_coin part d,
            share_exact coin.amount n r low high,
          ),
          λ d. halves stacks coin part rest refl g sum d,
        )

    split_loop-Splits :
        (coins : List Coin) (stacks : Coins × Coins)
        → Splits r coins stacks (split_loop {E = E} coins ratio stacks)
    unfolding split_loop
    split_loop-Splits [] stacks = (stacks, refl, λ d. omega arith, λ d. omega arith)
    split_loop-Splits (coin ∷ coins) stacks =
        let (after, e, first, h) = split_coin-Splits coin stacks in
        let (last, f, more, k) = split_loop-Splits coins after in
        (last, rw e f, λ d. omega (arith, first d, more d), λ d. omega (arith, h d, k d))

    -- With a ratio of at most one the coins are split without a panic, and the two stacks add up to
    -- the coins in every denomination; the first holds the share of each coin at the ratio, rounded
    -- down.
    pub split_coins-amount_of :
        (coins : Coins)
        → (stacks : Coins × Coins) × (split_coins {E = E} coins ratio ≡ ok stacks)
          × ((d : Text) → amount_of stacks.0 d + amount_of stacks.1 d ≡ amount_of coins d)
          × ((d : Text) → amount_of stacks.0 d ≡ sum_shares r (to_list coins) d)
    unfolding split_coins
    split_coins-amount_of coins =
        let (stacks, e, first, h) = split_loop-Splits (to_list coins) (no_coins, no_coins) in
        (
          stacks,
          e,
          λ d. omega (arith, h d, sdk.amount_of-no_coins d, sdk.amount_of-to_list coins d),
          λ d. omega (arith, first d, sdk.amount_of-no_coins d),
        )
