-- ===== src/Sim/Ledger.antt =====
-- A bank as a table of balances.
use archway.Common.{
  ℕ, ◌+◌, ◌-◌, ◌≤◌, ◌<◌, ◌≡◌, ◌≢◌, refl, Bool, true, ◌&&◌, Option, none, some, List, [], ◌∷◌, leb,
  arith, if◌then◌else◌, Bool-cases, Option-cases, ap, inl, inr,
}
use archway.Common.Key.{Bytes, Text, ◌==◌, bytes_eq_iff, bytes_key}
use archway.Sdk.{Coin, sum_amounts}

abbrev pub Table : Type 0
Table = Bytes → Text → ℕ

-- The amounts of all coins are at most those of a bound.
unfoldable pub within : List Coin → List Coin → (Text → ℕ) → Bool
within all [] f = true
within all (c ∷ cs) f = leb (sum_amounts all c.denom) (f c.denom) && within all cs f

within_at :
    (all cs : List Coin) (f : Text → ℕ) (d : Text)
    → within all cs f ≡ true
    → 0 < sum_amounts cs d
    → sum_amounts all d ≤ f d
unfolding within
within_at all [] f d h p = ground arith
within_at all (c ∷ cs) f d h p = ground (arith, within_at all cs f d, bytes_eq_iff c.denom d)

pub within_all :
    (cs : List Coin) (f : Text → ℕ) (d : Text) → within cs cs f ≡ true → sum_amounts cs d ≤ f d
within_all cs f d h = ground (arith, within_at cs cs f d h)

within_part :
    (all cs : List Coin) (f : Text → ℕ)
    → ((d : Text) → sum_amounts all d ≤ f d)
    → within all cs f ≡ true
unfolding within
within_part all [] f h = refl
within_part all (c ∷ cs) f h = ground (arith, h c.denom, within_part all cs f h)

abbrev less : Table → Bytes → List Coin → Table
less b a cs = λ x d. if a == x then b x d - sum_amounts cs d else b x d

-- Take coins from an account.
unfoldable pub withdraw : Table → Bytes → List Coin → Option Table
unfolding within
withdraw b a cs = if within cs cs (b a) then some (less b a cs) else none

unfoldable pub deposit : Table → Bytes → List Coin → Table
deposit b a cs = λ x d. if a == x then b x d + sum_amounts cs d else b x d

unfoldable pub move : Table → Bytes → Bytes → List Coin → Option Table
unfolding withdraw deposit
move b a c cs = elim (withdraw b a cs) [ none ↦ none | some b' ↦ some (deposit b' c cs) ]

pub withdraw_lem :
    (b : Table) (a : Bytes) (cs : List Coin) {b' : Table} (x : Bytes) (d : Text)
    → withdraw b a cs ≡ some b'
    → b' x d + (if a == x then sum_amounts cs d else 0) ≡ b x d
unfolding withdraw
withdraw_lem b a cs {b'} x d h = elim (Bool-cases (within cs cs (b a))) [
  | inl paid ↦
      let e : less b a cs ≡ b' = ground arith in
      rw (← e) (ground (arith, within_all cs (b a) d paid, bytes_eq_iff a x, ap (λ k. b k d)))
  | inr other ↦ ground arith
]

pub move_lem :
    (b : Table) (a c : Bytes) (cs : List Coin) {b' : Table} (x : Bytes) (d : Text)
    → move b a c cs ≡ some b'
    → b' x d + (if a == x then sum_amounts cs d else 0)
      ≡ b x d + (if c == x then sum_amounts cs d else 0)
unfolding move
move_lem b a c cs {b'} x d h = elim (Option-cases (withdraw b a cs)) [
  | inl bad ↦ ground arith
  | inr (t, e) ↦
      let f : deposit t c cs ≡ b' = ground arith in
      rw (← f) (ground (arith, withdraw_lem b a cs x d e))
]

pub move_funded :
    (b : Table) (a c : Bytes) (cs : List Coin)
    → ((d : Text) → sum_amounts cs d ≤ b a d)
    → move b a c cs ≢ none
unfolding move withdraw
move_funded b a c cs h = ground (arith, within_part cs cs (b a) h)
