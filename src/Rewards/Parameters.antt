-- ===== src/Rewards/Parameters.antt =====
-- The parameters that x/rewards accepts.
use archway.Common.{ℕ, ◌<◌, ◌≤◌, ◌≡◌, ◌↔◌, refl, Bool, true, false, ok, arith}
use archway.Common.Int.{ℤ, pos, negsuc, leb_ℤ, ltb_ℤ}
use archway.Sdk.{Sdk, DecCoin, precision}
use archway.Rewards.State.{Params}
use archway.Rewards.MinFee.{validate_ratio, validate_max_withdraw_records, validate_params}

-- A ratio is at least zero and below one.
abbrev pub IsBelowOne : ℤ → Type 0
IsBelowOne a = (x : ℕ) × (a ≡ pos x) × (x < precision)

below_one : (a : ℤ) → ltb_ℤ a (pos 0) ≡ false → leb_ℤ (pos precision) a ≡ false → IsBelowOne a
below_one (pos x) h k = (x, refl, ground (arith, k))
below_one (negsuc x) h k = ground (arith, h)

module _ (sdk : Sdk) (valid_dec_coin : DecCoin sdk.Dec18 → Bool) where
  open sdk use {Dec18, atto}

  validate_ratio-IsBelowOne : (v : Dec18) → (validate_ratio sdk v ≡ ok tt) ↔ IsBelowOne (atto v)
  unfolding validate_ratio
  validate_ratio-IsBelowOne v = (
    λ h. below_one (atto v) (ground (arith, h)) (ground (arith, h)),
    λ (x, e, small). rw e (ground (arith, small)),
  )

  -- The validation accepts parameters exactly when both ratios are at least zero and below one, the
  -- number of records of a withdrawal is between 1 and 25000, and the minimum price is a valid coin.
  pub validate_params_iff :
      (m : Params Dec18)
      → (validate_params sdk valid_dec_coin m ≡ ok tt) ↔ (
          IsBelowOne (atto m.inflation_rewards_ratio)
          × IsBelowOne (atto m.tx_fee_rebate_ratio)
          × (0 < m.max_withdraw_records)
          × (m.max_withdraw_records ≤ 25000)
          × (valid_dec_coin m.min_price_of_gas ≡ true))
  unfolding validate_params validate_max_withdraw_records
  validate_params_iff m =
      let inflation = validate_ratio-IsBelowOne m.inflation_rewards_ratio in
      let rebate = validate_ratio-IsBelowOne m.tx_fee_rebate_ratio in
      (
        λ h. (
          inflation.0 (ground (arith, h)),
          rebate.0 (ground (arith, h)),
          ground (arith, h),
          ground (arith, h),
          ground (arith, h),
        ),
        λ (a, b, some_records, few, price).
            rw (inflation.1 a, rebate.1 b) (ground (arith, some_records, few, price)),
      )
