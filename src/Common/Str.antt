-- ===== src/Common/Str.antt =====
-- Go strings as byte lists: literals and decimal numbers.
use Prim.Native.Nat.{ℕ, zero, suc, ◌+◌, ◌-◌, ◌*◌, ◌^◌, ◌<◌, ◌/◌, ◌%◌}
use mathlib.Core.Path.{◌≡◌}
use mathlib.Core.Logic.{inl, inr}
use native.Mathlib.Omega.{arith}
use Prim.Native.Char.{code}
use Prim.Native.String.{String}
use mathlib.Core.List.{[], ◌∷◌}
use archway.Common.Compare.{Bool-cases, ltb, if◌then◌else◌}
use archway.Common.Key.{Text}

-- The bytes of an ASCII literal.
abbrev pub codes : String → Text
codes String.[] = []
codes (String.◌∷◌ c s) = code c ∷ codes s

-- The last digits of a number, one to a unit of fuel, before what is printed already.
unfoldable pub decimal_from : ℕ → ℕ → Text → Text
decimal_from zero n printed = printed
decimal_from (suc fuel) n printed =
    let rest = decimal_from fuel (n / 10) ((48 + n % 10) ∷ printed) in
    if ltb n 10 then (48 + n) ∷ printed else rest

-- The decimal digits of a uint64, of which there are twenty at most.
unfoldable pub decimal : ℕ → Text
unfolding decimal_from
decimal n = decimal_from 20 n []

-- The number that digits stand for, after those that are read already.
abbrev value_from : ℕ → Text → ℕ
value_from n [] = n
value_from n (c ∷ cs) = value_from (n * 10 + (c - 48)) cs

-- A unit of fuel is enough for a digit.
value_from-decimal_from :
    (fuel n : ℕ) (printed : Text)
    → n < 10 ^ fuel
    → value_from 0 (decimal_from fuel n printed) ≡ value_from n printed
unfolding decimal_from
value_from-decimal_from zero n printed fits = ground (arith, fits)
value_from-decimal_from (suc fuel) n printed fits =
    let rest =
      value_from-decimal_from fuel (n / 10) ((48 + n % 10) ∷ printed) (omega (arith, fits)) in
    let same : n / 10 * 10 + ((48 + n % 10) - 48) ≡ n = omega arith in
    elim (Bool-cases (ltb n 10)) [
      | inl one ↦ ground (arith, one)
      | inr more ↦ ground (arith, more, rest, same)
    ]

-- The digits of a uint64 stand for it: the fuel is enough.
value_from-decimal : (n : ℕ) → n < 2 ^ 64 → value_from 0 (decimal n) ≡ n
unfolding decimal
value_from-decimal n fits = value_from-decimal_from 20 n [] (omega (arith, fits))
