-- ===== src/Sim/Coins.antt =====
-- Sets of coins as lists in which a denomination may stand more than once.
use archway.Common.{
  ℕ, ◌+◌, ◌-◌, ◌≤◌, ◌<◌, ◌≡◌, ◌↔◌, refl, Bool, true, false, ◌&&◌, Option, none, some, List, [], ◌∷◌,
  ◌++◌, arith, if◌then◌else◌, Option-cases, Bool-cases, inl, inr, ◌==◌ as nat_eq,
}
use archway.Common.Key.{Text, ◌==◌, bytes_eq_iff, bytes_key}
use archway.Sdk.{Coin, coin_amount, sum_amounts}

pub sum_amounts-append :
    (a b : List Coin) (d : Text) → sum_amounts (a ++ b) d ≡ sum_amounts a d + sum_amounts b d
sum_amounts-append [] b d = omega arith
sum_amounts-append (c ∷ a) b d = omega (arith, sum_amounts-append a b d)

abbrev cons_coin : Coin → Option (List Coin) → Option (List Coin)
cons_coin c none = none
cons_coin c (some cs) = some (c ∷ cs)

-- Take an amount out of the coins of one denomination.
unfoldable pub take_out : List Coin → Text → ℕ → Option (List Coin)
take_out [] d n = if nat_eq n 0 then some [] else none
take_out (c ∷ cs) d n =
    if c.denom == d
    then cons_coin (record c { amount = c.amount - n }) (take_out cs d (n - c.amount))
    else cons_coin c (take_out cs d n)

pub take_out-some :
    (cs : List Coin) (e : Text) (n : ℕ) (r : List Coin) (d : Text)
    → take_out cs e n ≡ some r
    → sum_amounts r d + coin_amount (record { denom = e; amount = n }) d ≡ sum_amounts cs d
unfolding take_out
take_out-some [] e n r d h = ground arith
take_out-some (c ∷ cs) e n r d h = elim (Bool-cases (c.denom == e)) [
  | inl same ↦ elim (Option-cases (take_out cs e (n - c.amount))) [
    | inl bad ↦ ground arith
    | inr (r', f) ↦ ground (
      arith,
      take_out-some cs e (n - c.amount) r' d f,
      bytes_eq_iff c.denom e,
      bytes_eq_iff c.denom d,
      bytes_eq_iff e d,
    )
  ]
  | inr other ↦ elim (Option-cases (take_out cs e n)) [
    | inl bad ↦ ground arith
    | inr (r', f) ↦ ground (arith, take_out-some cs e n r' d f)
  ]
]

pub take_out-none :
    (cs : List Coin) (e : Text) (n : ℕ) → take_out cs e n ≡ none → sum_amounts cs e < n
unfolding take_out
take_out-none [] e n h = ground arith
take_out-none (c ∷ cs) e n h =
    ground (arith, bytes_eq_iff c.denom e, take_out-none cs e n, take_out-none cs e (n - c.amount))

unfoldable pub sub_list : List Coin → List Coin → Option (List Coin)
unfolding take_out
sub_list a [] = some a
sub_list a (c ∷ b) = elim (take_out a c.denom c.amount) [ none ↦ none | some a' ↦ sub_list a' b ]

pub sub_list-some :
    (a b : List Coin) (r : List Coin) (d : Text)
    → sub_list a b ≡ some r
    → sum_amounts r d + sum_amounts b d ≡ sum_amounts a d
unfolding sub_list
sub_list-some a [] r d h = ground arith
sub_list-some a (c ∷ b) r d h = elim (Option-cases (take_out a c.denom c.amount)) [
  | inl e ↦ ground arith
  | inr (a', e) ↦ ground (arith, take_out-some a c.denom c.amount a' d e, sub_list-some a' b r d)
]

pub sub_list-none :
    (a b : List Coin) → sub_list a b ≡ none → (d : Text) × (sum_amounts a d < sum_amounts b d)
unfolding sub_list
sub_list-none a [] h = ground arith
sub_list-none a (c ∷ b) h = elim (Option-cases (take_out a c.denom c.amount)) [
  | inl e ↦
      (c.denom, ground (arith, take_out-none a c.denom c.amount e, bytes_eq_iff c.denom c.denom))
  | inr (a', e) ↦
      let (d, less) = sub_list-none a' b (ground arith) in
      (d, ground (arith, less, take_out-some a c.denom c.amount a' d e))
]

unfoldable pub all_zero : List Coin → Bool
all_zero [] = true
all_zero (c ∷ cs) = nat_eq c.amount 0 && all_zero cs

all_zero_sum : (cs : List Coin) (d : Text) → all_zero cs ≡ true → sum_amounts cs d ≡ 0
unfolding all_zero
all_zero_sum [] d h = refl
all_zero_sum (c ∷ cs) d h = ground (arith, all_zero_sum cs d)

sum_all_zero : (cs : List Coin) → ((d : Text) → sum_amounts cs d ≡ 0) → all_zero cs ≡ true
unfolding all_zero
sum_all_zero [] h = refl
sum_all_zero (c ∷ cs) h =
    ground
      (arith, h c.denom, bytes_eq_iff c.denom c.denom, sum_all_zero cs (λ d. omega (arith, h d)))

pub all_zero_iff : (cs : List Coin) → (all_zero cs ≡ true) ↔ ((d : Text) → sum_amounts cs d ≡ 0)
all_zero_iff cs = (λ h d. all_zero_sum cs d h, sum_all_zero cs)

unfoldable pub covers : List Coin → List Coin → Bool
unfolding sub_list
covers a b = elim (sub_list a b) [ none ↦ false | some r ↦ true ]

pub covers_iff :
    (a b : List Coin) → (covers a b ≡ true) ↔ ((d : Text) → sum_amounts b d ≤ sum_amounts a d)
unfolding covers
covers_iff a b = elim (Option-cases (sub_list a b)) [
  | inl e ↦
      let (d, less) = sub_list-none a b e in
      (λ h. ground arith, λ h. absurd (omega (arith, less, h d)))
  | inr (r, e) ↦ (λ h d. omega (arith, sub_list-some a b r d e), λ h. ground arith)
]
