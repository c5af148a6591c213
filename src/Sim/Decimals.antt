-- ===== src/Sim/Decimals.antt =====
-- Decimals as integers, in units of 10 ^ -18, rounded to a nearest one.
use archway.Common.{
  ℕ, zero, suc, ◌+◌, ◌*◌, ◌/◌, ◌≤◌, ◌<◌, ◌≡◌, refl, Option, none, some, arith, if◌then◌else◌, ◌==◌,
  ltb,
}
use archway.Common.Int.{ℤ, pos, negsuc, pos_part, neg_part, sub_ℕ, ltb_ℤ}
use archway.Sdk.{precision, IsNearest, opposite}

unfoldable pub nearest : ℕ → ℕ → ℕ
nearest x y = (2 * x + y) / (2 * y)

pub nearest_lem : (x y : ℕ) → 0 < y → IsNearest (nearest x y) x y
unfolding nearest
nearest_lem x y h = grind arith

unfoldable pub negate : ℤ → ℤ
negate a = sub_ℕ (neg_part a) (pos_part a)

unfoldable pub minus : ℤ → ℤ → ℤ
minus a b = sub_ℕ (pos_part a + neg_part b) (neg_part a + pos_part b)

-- A number with the sign of a product of two.
unfoldable pub signed : ℤ → ℤ → ℕ → ℤ
unfolding negate
signed (pos a) (pos b) n = pos n
signed (pos a) (negsuc b) n = negate (pos n)
signed (negsuc a) (pos b) n = negate (pos n)
signed (negsuc a) (negsuc b) n = pos n

abbrev size : ℤ → ℕ
size (pos a) = a
size (negsuc a) = suc a

unfoldable pub multiply : ℤ → ℤ → ℤ
unfolding signed nearest
multiply a b = signed a b (nearest (size a * size b) precision)

unfoldable pub divide : ℤ → ℤ → Option ℤ
unfolding signed nearest
divide a b = if size b == 0 then none else some (signed a b (nearest (size a * precision) (size b)))

unfoldable pub scale : ℤ → ℤ → ℤ
unfolding signed
scale a b = signed a b (size a * size b)

unfoldable pub of_int : ℤ → ℤ
unfolding scale
of_int n = scale n (pos precision)

unfoldable pub larger : ℤ → ℤ → ℤ
larger a b = if ltb_ℤ a b then b else a

unfoldable pub truncate : ℤ → ℤ
unfolding signed
truncate a = signed a (pos 1) (size a / precision)

unfoldable pub round : ℤ → ℤ
unfolding signed nearest
round a = signed a (pos 1) (nearest (size a) precision)

pub multiply_lem :
    (a b : ℤ) {x y : ℕ}
    → a ≡ pos x
    → b ≡ pos y
    → (z : ℕ) × (multiply a b ≡ pos z) × IsNearest z (x * y) precision
unfolding multiply
multiply_lem a b {x} {y} e f =
    (nearest (x * y) precision, rw (e, f) refl, nearest_lem (x * y) precision (omega arith))

pub divide_lem :
    (a b : ℤ) {x y : ℕ}
    → a ≡ pos x
    → b ≡ pos y
    → 0 < y
    → (c : ℤ) × (z : ℕ) × (divide a b ≡ some c) × (c ≡ pos z) × IsNearest z (x * precision) y
unfolding divide signed
divide_lem a b {x} {y} e f h = (
  pos (nearest (x * precision) y),
  nearest (x * precision) y,
  rw (e, f) (ground arith),
  refl,
  nearest_lem (x * precision) y h,
)

pub scale_lem : (a : ℤ) {x : ℕ} (n : ℕ) → a ≡ pos x → scale a (pos n) ≡ pos (x * n)
unfolding scale
scale_lem a n e = rw e refl

pub truncate_lem :
    (a : ℤ) {x : ℕ}
    → a ≡ pos x
    → (n : ℕ) × (truncate a ≡ pos n) × (n * precision ≤ x) × (x < n * precision + precision)
unfolding truncate
truncate_lem a {x} e = (x / precision, rw e refl, omega arith, omega arith)

pub round_lem : (a : ℤ) {x : ℕ} → a ≡ pos x → (n : ℕ) × (round a ≡ pos n) × IsNearest n x precision
unfolding round
round_lem a {x} e = (nearest x precision, rw e refl, nearest_lem x precision (omega arith))

pub of_int_lem : (n : ℕ) → of_int (pos n) ≡ pos (n * precision)
unfolding of_int
of_int_lem n = refl

pub minus_lem : (a b : ℤ) {x y : ℕ} → a ≡ pos x → b ≡ pos y → minus a b ≡ sub_ℕ x y
unfolding minus
minus_lem a b {x} {y} e f = rw (e, f) (ground arith)

pub negate_lem : (a : ℤ) {x : ℕ} → a ≡ opposite x → negate a ≡ pos x
unfolding negate
negate_lem a {x} e = rw e (ground arith)

signed-opposite : (x y n : ℕ) → 0 < y → signed (pos x) (opposite y) n ≡ opposite n
unfolding signed negate
signed-opposite x y n h = ground arith

size-opposite : (y : ℕ) → size (opposite y) ≡ y
size-opposite y = ground arith

pub divide-opposite :
    (a b : ℤ) {x : ℕ} (y : ℕ)
    → a ≡ pos x
    → b ≡ opposite y
    → 0 < y
    → (c : ℤ) × (z : ℕ) × (divide a b ≡ some c) × (c ≡ opposite z) × IsNearest z (x * precision) y
unfolding divide
divide-opposite a b {x} y e f h = (
  opposite (nearest (x * precision) y),
  nearest (x * precision) y,
  rw (e, f) (ground (arith, size-opposite y, signed-opposite x y (nearest (x * precision) y) h)),
  refl,
  nearest_lem (x * precision) y h,
)

product_opposite :
    (x y : ℕ)
    → signed (pos x) (opposite y) (nearest (x * size (opposite y)) precision)
      ≡ opposite (nearest (x * y) precision)
unfolding signed nearest negate
product_opposite x zero = ground arith
product_opposite x (suc y) =
    rw (size-opposite (suc y))
      (signed-opposite x (suc y) (nearest (x * suc y) precision) (omega arith))

pub multiply-opposite :
    (a b : ℤ) {x : ℕ} (y : ℕ)
    → a ≡ pos x
    → b ≡ opposite y
    → (z : ℕ) × (multiply a b ≡ opposite z) × IsNearest z (x * y) precision
unfolding multiply
multiply-opposite a b {x} y e f = (
  nearest (x * y) precision,
  rw (e, f) (product_opposite x y),
  nearest_lem (x * y) precision (omega arith),
)

pub larger_lem :
    (a b : ℤ) {x y : ℕ} → a ≡ pos x → b ≡ pos y → larger a b ≡ pos (if ltb x y then y else x)
unfolding larger
larger_lem a b {x} {y} e f = rw (e, f) (ground arith)
