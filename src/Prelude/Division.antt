-- ===== src/Prelude/Division.antt =====
-- Python's floor division of integers, and the laws of products and quotients.
use ensuro.Prelude.Int.{
  ℤ, pos, negsuc, pos_part, neg_part, ◌+ℤ◌, ◌*ℤ◌, negℤ, ◌≤ℤ◌, ◌<ℤ◌, int_laws, eq_of_parts,
}
use ensuro.Prelude.Calls.{Fault, Result, ok, err}
use Prim.Native.Nat.{ℕ, zero, suc, ◌+◌, ◌*◌, ◌/◌, ◌≤◌, ◌<◌}
use mathlib.Core.Path.{◌≡◌, subst, ap}
use native.Mathlib.Nat.{mul-le-mul_right}
use native.Mathlib.Decide.{dec_lt}
use native.Mathlib.Omega.{arith}

-- Division by a positive number, rounded down.
unfoldable pub floor_div : ℤ → ℕ → ℤ
floor_div (pos n) d = pos (n / d)
floor_div (negsuc n) d = negsuc (n / d)

pub mul_parts :
    (a b : ℤ)
    → pos_part (a *ℤ b) + pos_part a * neg_part b + neg_part a * pos_part b
      ≡ neg_part (a *ℤ b) + pos_part a * pos_part b + neg_part a * neg_part b
unfolding ◌*ℤ◌
mul_parts a b = ground arith

-- q = floor (x / d) is the number with q * d ≤ x < q * d + d.
pub floor_div_parts :
    (x : ℤ) (d : ℕ)
    → 0 < d
    → (pos_part (floor_div x d) * d + neg_part x ≤ pos_part x + neg_part (floor_div x d) * d)
      × (pos_part x + neg_part (floor_div x d) * d < pos_part (floor_div x d) * d + neg_part x + d)
unfolding floor_div
floor_div_parts (pos n) d p = grind arith
floor_div_parts (negsuc n) d p = grind arith

pub floor_div_mono : (x y : ℤ) (d : ℕ) → 0 < d → x ≤ℤ y → floor_div x d ≤ℤ floor_div y d
unfolding floor_div
floor_div_mono (pos m) (pos n) d p h = grind arith
floor_div_mono (pos m) (negsuc n) d p h = absurd (omega arith)
floor_div_mono (negsuc m) (pos n) d p h = omega arith
floor_div_mono (negsuc m) (negsuc n) d p h = grind arith

pub floor_div_nonneg : (x : ℤ) (d : ℕ) → pos 0 ≤ℤ x → pos 0 ≤ℤ floor_div x d
unfolding floor_div
floor_div_nonneg (pos n) d p = omega arith
floor_div_nonneg (negsuc n) d p = absurd (omega arith)

-- The product of an integer and a number that is not negative.
pub mul_right :
    (a : ℤ) (k : ℕ)
    → pos_part (a *ℤ pos k) + neg_part a * k ≡ neg_part (a *ℤ pos k) + pos_part a * k
mul_right a k = omega (arith, mul_parts a (pos k))

pub mul_right_mono : (a b : ℤ) (k : ℕ) → a ≤ℤ b → a *ℤ pos k ≤ℤ b *ℤ pos k
mul_right_mono a b k h = omega (
  arith,
  mul_right a k,
  mul_right b k,
  mul-le-mul_right {m = pos_part a + neg_part b} {n = pos_part b + neg_part a} k h,
)

pub mul_nonneg : (a b : ℤ) → pos 0 ≤ℤ a → pos 0 ≤ℤ b → pos 0 ≤ℤ a *ℤ b
mul_nonneg (pos m) (pos n) p q = omega (arith, mul_right (pos m) n)
mul_nonneg (negsuc m) b p q = absurd (omega arith)
mul_nonneg (pos m) (negsuc n) p q = absurd (omega arith)

-- `a // b`
unfoldable pub floordiv : ℤ → ℤ → Result ℤ
floordiv a (pos zero) = err Fault.zero_division
floordiv a (pos (suc n)) = ok (floor_div a (suc n))
floordiv a (negsuc n) = ok (floor_div (negℤ a) (suc n))

-- The quotient by a positive number: q * b is at most a, and less than b below it.
pub floordiv_bounds :
    (a b q : ℤ) → pos 0 <ℤ b → floordiv a b ≡ ok q → (q *ℤ b ≤ℤ a) × (a <ℤ q *ℤ b +ℤ b)
unfolding floordiv
floordiv_bounds a (pos zero) q h e = absurd (omega arith)
floordiv_bounds a (negsuc n) q h e = absurd (omega arith)
floordiv_bounds a (pos (suc n)) q h e =
    let same : floor_div a (suc n) ≡ q = cc in
    let (low, high) = floor_div_parts a (suc n) (omega arith) in
    rw (← same) (
      omega (int_laws, low, mul_right (floor_div a (suc n)) (suc n)),
      omega (int_laws, high, mul_right (floor_div a (suc n)) (suc n)),
    )

pub floordiv_nonneg : (a b q : ℤ) → pos 0 ≤ℤ a → pos 0 <ℤ b → floordiv a b ≡ ok q → pos 0 ≤ℤ q
unfolding floordiv
floordiv_nonneg a (pos zero) q p h e = absurd (omega arith)
floordiv_nonneg a (negsuc n) q p h e = absurd (omega arith)
floordiv_nonneg a (pos (suc n)) q p h e =
    let same : floor_div a (suc n) ≡ q = cc in
    subst (λ t. pos 0 ≤ℤ t) same (floor_div_nonneg a (suc n) p)

squeezed : (u v n : ℕ) → u * suc n ≤ v * suc n → v * suc n < u * suc n + suc n → u ≡ v
squeezed u v n low high = elim (dec_lt u v) [
  | yes less ↦ absurd (omega (arith, mul-le-mul_right {m = u + 1} {n = v} (suc n) (omega arith)))
  | no not_less ↦ elim (dec_lt v u) [
    | yes more ↦ absurd (omega (arith, mul-le-mul_right {m = v + 1} {n = u} (suc n) (omega arith)))
    | no not_more ↦ omega arith
  ]
]

-- A product is divided by its factor exactly.
pub floordiv-*ℤ : (a : ℤ) (n : ℕ) → floordiv (a *ℤ pos (suc n)) (pos (suc n)) ≡ ok a
unfolding floordiv
floordiv-*ℤ a n =
    let x = a *ℤ pos (suc n) in
    let q = floor_div x (suc n) in
    let (low, high) = floor_div_parts x (suc n) (omega arith) in
    let product = mul_right a (suc n) in
    let parts : pos_part q + neg_part a ≡ pos_part a + neg_part q =
      squeezed (pos_part q + neg_part a) (pos_part a + neg_part q) n (omega arith) (omega arith) in
    ap ok (eq_of_parts q a parts)
