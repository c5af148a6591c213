-- ===== src/Pkg/Tests.antt =====
-- A split of coins at the small SDK.
use archway.Common.{ℕ, ◌+◌, ◌/◌, ◌≡◌, refl, [], ◌∷◌, ok, arith}
use archway.Common.Key.{Text}
use archway.Common.Str.{codes}
use archway.Common.Int.{pos}
use archway.Sdk.{precision}
use archway.Sim.Instance.{sim}
use archway.Pkg.Split.{sum_shares, split_coins, split_coins-amount_of}

abbrev purse : sim.Coins
purse = record { denom = codes "a"; amount = 7 } ∷ record { denom = codes "b"; amount = 10 } ∷ []

split_coins-amount_of_example :
    (stacks : sim.Coins × sim.Coins) × (split_coins sim {E = ℕ} purse (pos (precision / 3))
      ≡ ok stacks)
    × ((d : Text) → sim.amount_of stacks.0 d + sim.amount_of stacks.1 d ≡ sim.amount_of purse d)
    × ((d : Text) → sim.amount_of stacks.0 d ≡ sum_shares (precision / 3) (sim.to_list purse) d)
split_coins-amount_of_example =
    split_coins-amount_of sim {E = ℕ} (pos (precision / 3)) refl (omega arith) purse
