-- ===== src/Common/Key.antt =====
-- Keys of a store: a test for equality and the order in which a store is iterated.
-- Byte strings, texts and addresses are lists of byte values.
use Prim.Native.Nat.{ℕ}
use mathlib.Core.Path.{◌≡◌, refl}
use mathlib.Core.Logic.{◌↔◌}
use mathlib.Core.Bool.{Bool, true, false, ◌&&◌, ◌||◌}
use mathlib.Core.List.{List, [], ◌∷◌}
use native.Mathlib.Omega.{arith}
use archway.Common.Compare.{ltb, ◌==◌ as nat_eq, ==_iff}

pub record Key (K : Type 0) : Type 0 where
  pub eq : K → K → Bool
  pub lt : K → K → Bool
  pub eq_iff : (a b : K) → (eq a b ≡ true) ↔ (a ≡ b)

infix 50 ◌==◌
abbrev pub ◌==◌ : {K : Type 0} ⦃o : Key K⦄ → K → K → Bool
◌==◌ ⦃o⦄ = o.eq

abbrev pub Bytes : Type 0
Bytes = List ℕ

abbrev pub Text : Type 0
Text = List ℕ

-- Marked `unfoldable`, so that a test can compute with them.
unfoldable pub bytes_eq : Bytes → Bytes → Bool
bytes_eq [] [] = true
bytes_eq [] (b ∷ bs) = false
bytes_eq (a ∷ as') [] = false
bytes_eq (a ∷ as') (b ∷ bs) = nat_eq a b && bytes_eq as' bs

-- The order of `bytes.Compare`.
unfoldable pub bytes_lt : Bytes → Bytes → Bool
bytes_lt [] [] = false
bytes_lt [] (b ∷ bs) = true
bytes_lt (a ∷ as') [] = false
bytes_lt (a ∷ as') (b ∷ bs) = ltb a b || (nat_eq a b && bytes_lt as' bs)

bytes_eq_refl : (a : Bytes) → bytes_eq a a ≡ true
unfolding bytes_eq
bytes_eq_refl [] = refl
bytes_eq_refl (x ∷ xs) = ground (arith, bytes_eq_refl xs)

eq_of_bytes_eq : (a b : Bytes) → bytes_eq a b ≡ true → a ≡ b
unfolding bytes_eq
eq_of_bytes_eq [] [] h = refl
eq_of_bytes_eq [] (y ∷ ys) h = cc
eq_of_bytes_eq (x ∷ xs) [] h = cc
eq_of_bytes_eq (x ∷ xs) (y ∷ ys) h = ground (arith, eq_of_bytes_eq xs ys)

pub bytes_eq_iff : (a b : Bytes) → (bytes_eq a b ≡ true) ↔ (a ≡ b)
bytes_eq_iff a b = (eq_of_bytes_eq a b, λ e. rw e (bytes_eq_refl b))

instance abbrev pub nat_key : Key ℕ
nat_key = record { eq = nat_eq; lt = ltb; eq_iff = ==_iff }

instance abbrev pub bytes_key : Key Bytes
bytes_key = record { eq = bytes_eq; lt = bytes_lt; eq_iff = bytes_eq_iff }

module _ {K L : Type 0} (k : Key K) (l : Key L) where
  abbrev pub pair_eq : K × L → K × L → Bool
  pair_eq p q = k.eq p.0 q.0 && l.eq p.1 q.1

  abbrev pub pair_lt : K × L → K × L → Bool
  pair_lt p q = k.lt p.0 q.0 || (k.eq p.0 q.0 && l.lt p.1 q.1)

  pub pair_eq_iff : (p q : K × L) → (pair_eq p q ≡ true) ↔ (p ≡ q)
  pair_eq_iff (a, b) (c, d) = ground (arith, k.eq_iff a c, l.eq_iff b d)

  -- Pairs, in the order of the first component and then of the second.
  abbrev pub pair_key : Key (K × L)
  pair_key = record { eq = pair_eq; lt = pair_lt; eq_iff = pair_eq_iff }
