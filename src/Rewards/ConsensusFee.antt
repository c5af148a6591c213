-- ===== src/Rewards/ConsensusFee.antt =====
-- The value of the minimum consensus fee, and the price of gas that follows from it.
use archway.Common.{
  ℕ, ◌-◌, ◌*◌, ◌<◌, ◌≤◌, ◌≡◌, subst, sym, true, ◌⊎◌, inl, inr, refl, none, some, ok, if◌then◌else◌,
  ltb, Bool-cases, ◌==◌ as nat_eq, arith,
}
use archway.Common.Key.{bytes_key, bytes_eq_iff}
use archway.Common.Int.{pos, sub_ℕ, ◌≤ℤ◌}
use archway.Sdk.{Sdk, Coin, DecCoin, precision, IsNearest, opposite}
use archway.Rewards.State.{State}
use archway.Rewards.MinFee.{
  no_limit, calculate_min_consensus_fee_amt, store_min_fee, update_min_consensus_fee,
  computational_price_of_gas, get_min_consensus_fee,
}

below_one : (r : ℕ) → r < precision → sub_ℕ r (1 * precision) ≡ opposite (precision - r)
below_one r h = ground arith

nearest_exact : (z w : ℕ) → IsNearest z (w * precision) precision → z ≡ w
nearest_exact z w h = omega (arith, h.0, h.1)

product_positive : (a b : ℕ) → 0 < a → 0 < b → 0 < a * b
product_positive a b h k = grind arith

module _ (sdk : Sdk) where
  open sdk use {Dec18, atto, dec_of_int, dec_mul, dec_quo, dec_sub, dec_neg, dec_max}

  -- Rewards over the gas left to pay: the formula, with both roundings.
  calculate_min_consensus_fee_amt-IsNearest :
      (amount limit : ℕ) (ratio : Dec18) (r : ℕ)
      → atto ratio ≡ pos r
      → r < precision
      → 0 < limit
      → (fee : Dec18) × (f : ℕ) × (calculate_min_consensus_fee_amt sdk
            (dec_of_int (pos amount))
            (dec_of_int (pos limit))
            ratio
          ≡ ok fee)
        × (atto fee ≡ pos f)
        × IsNearest f (amount * precision * precision) (limit * (precision - r))
  unfolding calculate_min_consensus_fee_amt
  calculate_min_consensus_fee_amt-IsNearest amount limit ratio r is_ratio below some_gas =
      let rest = dec_sub ratio (dec_of_int (pos 1)) in
      let left : atto rest ≡ opposite (precision - r) =
        rw (sdk.atto-dec_sub ratio (dec_of_int (pos 1)) is_ratio (sdk.atto-dec_of_int 1))
          (below_one r below) in
      let (z, e, near) =
        sdk.atto-dec_mul_opposite (dec_of_int (pos limit)) rest (precision - r)
          (sdk.atto-dec_of_int limit) left in
      let exact : z ≡ limit * (precision - r) =
        nearest_exact z (limit * (precision - r)) (grind (arith, near.0), grind (arith, near.1)) in
      let positive : 0 < z =
        subst (λ n. 0 < n) (sym exact)
          (product_positive limit (precision - r) some_gas (omega arith)) in
      let (q, f, divided, value, close) =
        sdk.atto-dec_quo_opposite (dec_of_int (pos amount)) (dec_mul (dec_of_int (pos limit)) rest)
          z (sdk.atto-dec_of_int amount) e positive in
      (
        dec_neg q,
        f,
        rw divided refl,
        sdk.atto-dec_neg q value,
        subst (λ n. IsNearest f (amount * precision * precision) n) exact close,
      )

  -- Where coins of a positive amount are rewarded under a gas limit, and the rebate ratio r is at least
  -- zero and below one, the update returns without a panic. The fee f is the nearest number to the
  -- amount over the limit times 1 - r, in units of 10 ^ -18, up to half a unit; it is stored in the
  -- denomination of the rewards if it is not zero, and nothing else changes.
  pub update_min_consensus_fee-IsNearest :
      (s : State sdk) (c : Coin) (limit : ℕ) {r : ℕ}
      → atto s.params.tx_fee_rebate_ratio ≡ pos r
      → r < precision
      → 0 < c.amount
      → 0 < limit
      → limit < no_limit
      → (fee : Dec18) × (f : ℕ) × (atto fee ≡ pos f)
        × IsNearest f (c.amount * precision * precision) (limit * (precision - r))
        × (update_min_consensus_fee sdk s c limit
            ≡ ok (
                if nat_eq f 0
                then s
                else record s { min_cons_fee = some (record { denom = c.denom; amount = fee }) }))
  unfolding update_min_consensus_fee store_min_fee
  update_min_consensus_fee-IsNearest s c limit {r} is_ratio below some_coins some_gas limited =
      let (fee, f, e, value, near) =
        calculate_min_consensus_fee_amt-IsNearest c.amount limit s.params.tx_fee_rebate_ratio r
          is_ratio below some_gas in
      (fee, f, value, near, ground (arith, e, value))

  -- A state with a minimum price x and no consensus fee, or one of y in the same denomination, has the
  -- larger of the two as its price of gas: it is one of them, and below neither. The denomination is
  -- valid.
  pub computational_price_of_gas-larger :
      (s : State sdk) {x : ℕ}
      → atto s.params.min_price_of_gas.amount ≡ pos x
      → sdk.valid_denom s.params.min_price_of_gas.denom ≡ true
      → (s.min_cons_fee ≡ none)
        ⊎ ((fee : DecCoin Dec18) × (s.min_cons_fee ≡ some fee)
            × (fee.denom ≡ s.params.min_price_of_gas.denom)
            × (y : ℕ) × (atto fee.amount ≡ pos y))
      → (p : DecCoin Dec18) × (n : ℕ) × (computational_price_of_gas sdk s ≡ ok p)
        × (p.denom ≡ s.params.min_price_of_gas.denom)
        × (atto p.amount ≡ pos n)
        × (x ≤ n)
        × ((fee : DecCoin Dec18) → s.min_cons_fee ≡ some fee → atto fee.amount ≤ℤ atto p.amount)
        × ((n ≡ x)
            ⊎ ((fee : DecCoin Dec18) × (s.min_cons_fee ≡ some fee) × (atto fee.amount ≡ pos n)))
  unfolding computational_price_of_gas get_min_consensus_fee
  computational_price_of_gas-larger s {x} is_price valid (inl unset) = (
    s.params.min_price_of_gas,
    x,
    ground (arith, unset),
    refl,
    is_price,
    omega arith,
    λ fee there. absurd (ground (arith, unset, there)),
    inl refl,
  )
  computational_price_of_gas-larger s {x} is_price valid (inr (fee, there, same, y, is_fee)) =
      let price = dec_max s.params.min_price_of_gas.amount fee.amount in
      let n : ℕ = if ltb x y then y else x in
      let e : atto price ≡ pos n =
        sdk.atto-dec_max s.params.min_price_of_gas.amount fee.amount is_price is_fee in
      (
        record { denom = s.params.min_price_of_gas.denom; amount = price },
        n,
        ground
            (arith, there, e, valid, bytes_eq_iff s.params.min_price_of_gas.denom fee.denom, same),
        refl,
        e,
        ground arith,
        λ other found.
            let f : other ≡ fee = ground (arith, found, there) in rw (f, is_fee, e) (ground arith),
        elim (Bool-cases (ltb x y)) [
          | inl below ↦ inr (fee, there, ground (arith, is_fee, below))
          | inr above ↦ inl (ground (arith, above))
        ],
      )
