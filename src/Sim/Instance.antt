-- ===== src/Sim/Instance.antt =====
-- The small SDK itself.
use archway.Common.{
  ◌+◌, ◌-◌, ◌≤◌, ◌<◌, ◌≡◌, ◌≢◌, ◌↔◌, refl, Bool, true, false, ◌||◌, Option, none, some, List, [],
  ◌∷◌, ◌++◌, ltb, leb, arith, if◌then◌else◌, Bool-cases, inl, inr,
}
use archway.Common.Key.{Bytes, Text, ◌==◌, bytes_eq_iff, bytes_key}
use archway.Common.Str.{codes}
use archway.Common.Int.{ℤ, pos, negsuc}
use archway.Sdk.{Sdk, Coin, sum_amounts}
use archway.Sim.Coins.{
  sum_amounts-append, sub_list, sub_list-some, sub_list-none, all_zero, all_zero_iff, covers,
  covers_iff,
}
use archway.Sim.Decimals.{
  multiply, divide, scale, of_int, larger, truncate, round, minus, negate, multiply_lem, divide_lem,
  scale_lem, truncate_lem, round_lem, of_int_lem, minus_lem, negate_lem, multiply-opposite,
  divide-opposite, larger_lem,
}
use archway.Sim.Ledger.{Table, withdraw, withdraw_lem, move, move_lem, move_funded}

unfoldable pub add_coin : Coin → Coin → Option Coin
add_coin a b = if a.denom == b.denom then some (record a { amount = a.amount + b.amount }) else none

unfoldable pub sub_coin : Coin → Coin → Option Coin
sub_coin a b =
    if a.denom == b.denom
    then (if leb b.amount a.amount then some (record a { amount = a.amount - b.amount }) else none)
    else none

unfoldable pub is_lt : Coin → Coin → Option Bool
is_lt a b = if a.denom == b.denom then some (ltb a.amount b.amount) else none

unfoldable pub make_coin : Text → ℤ → Option Coin
make_coin d (pos n) = some (record { denom = d; amount = n })
make_coin d (negsuc n) = none

pub add_coin-some :
    (a b : Coin) {c : Coin}
    → add_coin a b ≡ some c
    → (a.denom ≡ b.denom) × (c.denom ≡ a.denom) × (c.amount ≡ a.amount + b.amount)
unfolding add_coin
add_coin-some a b h = (ground (arith, bytes_eq_iff a.denom b.denom), ground arith, ground arith)

pub sub_coin-some :
    (a b : Coin) {c : Coin}
    → sub_coin a b ≡ some c
    → (a.denom ≡ b.denom) × (c.denom ≡ a.denom) × (c.amount + b.amount ≡ a.amount)
unfolding sub_coin
sub_coin-some a b h = (ground (arith, bytes_eq_iff a.denom b.denom), ground arith, ground arith)

pub is_lt-some :
    (a b : Coin) {t : Bool}
    → is_lt a b ≡ some t
    → (a.denom ≡ b.denom) × ((t ≡ true) ↔ (a.amount < b.amount))
unfolding is_lt
is_lt-some a b h =
    (ground (arith, bytes_eq_iff a.denom b.denom), (λ e. ground arith, λ e. ground arith))

pub make_coin-some :
    (d : Text) (a : ℤ) {c : Coin} → make_coin d a ≡ some c → (c.denom ≡ d) × (a ≡ pos c.amount)
unfolding make_coin
make_coin-some d (pos n) h = (ground arith, ground arith)
make_coin-some d (negsuc n) h = ground arith

-- The accounts that take no transfers.
abbrev pub blocked : Bytes → Bool
blocked a = (a == codes "callback") || (a == codes "rewards")

unfoldable pub pay : Table → Bytes → Bytes → List Coin → Option Table
pay b m a cs = if blocked a then none else move b m a cs

pub pay_lem :
    (b : Table) (m a : Bytes) (cs : List Coin) {b' : Table} (x : Bytes) (d : Text)
    → pay b m a cs ≡ some b'
    → b' x d + (if m == x then sum_amounts cs d else 0)
      ≡ b x d + (if a == x then sum_amounts cs d else 0)
unfolding pay
pay_lem b m a cs {b'} x d h = elim (Bool-cases (blocked a)) [
  | inl bad ↦ ground arith
  | inr fine ↦ move_lem b m a cs {b' = b'} x d (ground arith)
]

pub add_coin_same :
    (a b : Coin)
    → a.denom ≡ b.denom
    → add_coin a b ≡ some (record { denom = a.denom; amount = a.amount + b.amount })
unfolding add_coin
add_coin_same a b h = ground (arith, bytes_eq_iff a.denom b.denom)

pub sub_coin_same :
    (a b : Coin) → a.denom ≡ b.denom → b.amount ≤ a.amount → (c : Coin) × (sub_coin a b ≡ some c)
unfolding sub_coin
sub_coin_same a b h le =
    (record a { amount = a.amount - b.amount }, ground (arith, bytes_eq_iff a.denom b.denom))

pub is_lt_same : (a b : Coin) → a.denom ≡ b.denom → (t : Bool) × (is_lt a b ≡ some t)
unfolding is_lt
is_lt_same a b h = (ltb a.amount b.amount, ground (arith, bytes_eq_iff a.denom b.denom))

-- The empty text is no address.
unfoldable pub parse : Text → Option Bytes
parse [] = none
parse (c ∷ s) = some (c ∷ s)

pub parse_lem : (s : Text) {a : Bytes} → parse s ≡ some a → parse a ≡ some a
unfolding parse
parse_lem [] h = ground arith
parse_lem (c ∷ s) h = ground arith

pub pay_blocked :
    (b : Table) (m : Text) (a : Bytes) (cs : List Coin) → blocked a ≡ true → pay b m a cs ≡ none
unfolding pay
pay_blocked b m a cs h = ground arith

pub pay_funded :
    (b : Table) (m : Text) (a : Bytes) (cs : List Coin)
    → blocked a ≡ false
    → ((d : Text) → sum_amounts cs d ≤ b m d)
    → pay b m a cs ≢ none
unfolding pay
pay_funded b m a cs h f = ground (arith, move_funded b m a cs f)

abbrev pub sim : Sdk
sim = record {
  Coins = List Coin;
  amount_of = sum_amounts;
  no_coins = [];
  of_coin = λ c. c ∷ [];
  to_list = λ cs. cs;
  add_coins = λ a b. a ++ b;
  sub_coins = sub_list;
  is_zero = all_zero;
  is_empty = all_zero;
  is_all_gte = covers;
  amount_of-no_coins = λ d. refl;
  amount_of-of_coin = λ c d. omega arith;
  amount_of-to_list = λ cs d. refl;
  amount_of-add_coins = sum_amounts-append;
  amount_of-sub_coins = λ a b {c} d h. sub_list-some a b c d h;
  sub_coins_none = sub_list-none;
  is_zero_iff = all_zero_iff;
  is_empty_iff = all_zero_iff;
  is_all_gte_iff = covers_iff;
  coin_add = add_coin;
  coin_sub = sub_coin;
  coin_is_lt = is_lt;
  new_coin = make_coin;
  coin_add_some = add_coin-some;
  coin_add_same = add_coin_same;
  coin_sub_some = sub_coin-some;
  coin_sub_same = sub_coin_same;
  coin_is_lt_same = is_lt_same;
  coin_is_lt_some = is_lt-some;
  new_coin_some = make_coin-some;
  Dec18 = ℤ;
  atto = λ a. a;
  dec_of_int = of_int;
  dec_mul = multiply;
  dec_quo = divide;
  dec_sub = minus;
  dec_neg = negate;
  dec_max = larger;
  mul_int = scale;
  truncate_int = truncate;
  round_int = round;
  atto-dec_of_int = of_int_lem;
  atto-dec_mul = multiply_lem;
  atto-dec_quo = divide_lem;
  atto-mul_int = scale_lem;
  truncate_int_floor = truncate_lem;
  round_int_nearest = round_lem;
  atto-dec_sub = minus_lem;
  atto-dec_neg = negate_lem;
  atto-dec_mul_opposite = multiply-opposite;
  atto-dec_quo_opposite = divide-opposite;
  atto-dec_max = larger_lem;
  valid_denom = λ d. elim d [ [] ↦ false | c ∷ cs ↦ true ];
  from_bech32 = parse;
  to_bech32 = λ a. a;
  from_bech32-to_bech32 = parse_lem;
  Bank = Table;
  balance = λ b. b;
  module_address = λ m. m;
  blocked_addr = blocked;
  account_to_module = move;
  module_to_account = pay;
  module_to_module = move;
  burn_coins = withdraw;
  account_to_module_moves = λ b a m cs x d h. move_lem b a m cs x d h;
  module_to_account_moves = λ b m a cs x d h. pay_lem b m a cs x d h;
  module_to_module_moves = λ b m n cs x d h. move_lem b m n cs x d h;
  burn_coins_moves = λ b m cs x d h. withdraw_lem b m cs x d h;
  module_to_account_blocked = pay_blocked;
  module_to_account_funded = pay_funded;
  module_to_module_funded = move_funded;
}
