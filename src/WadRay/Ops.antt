-- ===== src/WadRay/Ops.antt =====
-- The fixed-point numbers of `ethproto.wadray`, which the prototype imports and which is not part
-- of the repository: a Wad is an integer that counts units of 10^-18, a Ray one of 10^-27. Sums,
-- differences and comparisons are those of the integers; the products, quotients and conversions,
-- where the package rounds, are the fields of a parameter.
use ensuro.Prelude.{Bool}
use ensuro.Prelude.Int.{ℤ}
use ensuro.Prelude.Calls.{Result}

pub record WadRay : Type 0 where
  -- `a * b` and `a // b` of two Wads, and of two Rays; a quotient may raise
  pub wad_mul : ℤ → ℤ → ℤ
  pub wad_div : ℤ → ℤ → Result ℤ
  pub ray_mul : ℤ → ℤ → ℤ
  pub ray_div : ℤ → ℤ → Result ℤ
  -- `a.to_ray()` and `a.to_wad()`
  pub to_ray : ℤ → ℤ
  pub to_wad : ℤ → ℤ
  -- `_W(n)` and `Ray.from_value(n)` of an integer
  pub wad : ℤ → ℤ
  pub ray : ℤ → ℤ
  -- `int(a) * b // int(c)` of a Wad `b`
  pub int_mul_div : ℤ → ℤ → ℤ → Result ℤ
  -- `_W("0.5")`, and `_R("0.0000000001")`, the constant `MIN_SCALE`
  pub half_wad : ℤ
  pub min_scale : ℤ
  -- `a.equal(b, 4)`: equal up to four decimals
  pub equal4 : ℤ → ℤ → Bool

module _ ⦃w : WadRay⦄ where
  infixl 70 ◌*W◌ ◌/W◌ ◌*R◌ ◌/R◌
  abbrev pub ◌*W◌ : ℤ → ℤ → ℤ
  ◌*W◌ = w.wad_mul

  abbrev pub ◌/W◌ : ℤ → ℤ → Result ℤ
  ◌/W◌ = w.wad_div

  abbrev pub ◌*R◌ : ℤ → ℤ → ℤ
  ◌*R◌ = w.ray_mul

  abbrev pub ◌/R◌ : ℤ → ℤ → Result ℤ
  ◌/R◌ = w.ray_div
